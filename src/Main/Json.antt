-- ===== src/Main/Json.antt =====
-- The strings of the JSON report: json_print_escaped_string and json_print_string_or_null of
-- src/main.c. What a call prints is the list of its bytes.
use gatebench.Base.{ℕ, ◌+◌, ◌/◌, ◌%◌, Option, none, some, [], ◌∷◌, ◌++◌, ltb, ◌==◌, if◌then◌else◌}
use gatebench.Base.Libc.{Bytes}

-- A digit of %x
abbrev pub hex_digit : ℕ → ℕ
hex_digit d = if ltb d 10 then 48 + d else 87 + d

-- What the switch prints for one character. The codes are those of the double quote, the backslash,
-- \b, \f, \n, \r and \t, then those below 0x20, as \u%04x.
abbrev pub escaped_char : ℕ → Bytes
escaped_char c =
    if c == 34
    then 92 ∷ 34 ∷ []
    else if c == 92
    then 92 ∷ 92 ∷ []
    else if c == 8
    then 92 ∷ b'b' ∷ []
    else if c == 12
    then 92 ∷ b'f' ∷ []
    else if c == 10
    then 92 ∷ b'n' ∷ []
    else if c == 13
    then 92 ∷ b'r' ∷ []
    else if c == 9
    then 92 ∷ b't' ∷ []
    else if ltb c 32
    then 92 ∷ b'u' ∷ b'0' ∷ b'0' ∷ hex_digit (c / 16) ∷ hex_digit (c % 16) ∷ []
    else c ∷ []

unfoldable pub escaped_chars : Bytes → Bytes
escaped_chars [] = []
escaped_chars (c ∷ cs) = escaped_char c ++ escaped_chars cs

-- `value` is `none` for NULL.
unfoldable pub json_print_escaped_string : Option Bytes → Bytes
unfolding escaped_chars
json_print_escaped_string none = 34 ∷ 34 ∷ []
json_print_escaped_string (some value) = 34 ∷ (escaped_chars value ++ (34 ∷ []))

unfoldable pub json_print_string_or_null : Option Bytes → Bytes
unfolding json_print_escaped_string
json_print_string_or_null none = b'n' ∷ b'u' ∷ b'l' ∷ b'l' ∷ []
json_print_string_or_null (some value) = json_print_escaped_string (some value)
