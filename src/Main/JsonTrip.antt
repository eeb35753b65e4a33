-- ===== src/Main/JsonTrip.antt =====
-- A reader of JSON strings as RFC 8259 describes them, for one byte each, and what it finds in the
-- strings of the report.
use gatebench.Base.{
  ℕ, ◌+◌, ◌-◌, ◌*◌, ◌/◌, ◌%◌, ◌<◌, ◌≡◌, refl, ap, ◌||◌, ◌&&◌, Option, none, some, [], ◌∷◌, ◌++◌,
  ltb, leb, ◌==◌, if◌then◌else◌, Bool-cases, inl, inr, arith, append_assoc,
}
use gatebench.Base.Libc.{Bytes}
use gatebench.Main.Json.{hex_digit, escaped_char, escaped_chars, json_print_escaped_string}

-- Where the reader stands: between characters, behind a backslash, or with so many more hexadecimal
-- digits to come behind the value of those before.
pub data Place : Type 0 where
  between : Place
  escape : Place
  digits : ℕ → ℕ → Place

abbrev pub hex_value : ℕ → Option ℕ
hex_value c =
    if leb 48 c && leb c 57
    then some (c - 48)
    else if leb 97 c && leb c 102
    then some (c - 87)
    else if leb 65 c && leb c 70
    then some (c - 55)
    else none

abbrev pub Found : Type 0
Found = Option (Bytes × Bytes)

abbrev pub with_char : ℕ → Found → Found
with_char c none = none
with_char c (some (v, rest)) = some (c ∷ v, rest)

-- The character and the bytes behind the closing quote; an unescaped control character is refused.
unfoldable pub read_string : Bytes → Place → Found
read_string [] place = none
read_string (c ∷ cs) between =
    let plain = read_string cs between in
    let escaped = read_string cs escape in
    if c == 34
    then some ([], cs)
    else if c == 92
    then escaped
    else if ltb c 32
    then none
    else with_char c plain
read_string (c ∷ cs) escape =
    let plain = read_string cs between in
    let unicode = read_string cs (digits 3 0) in
    if (c == 34) || ((c == 92) || (c == 47))
    then with_char c plain
    else if c == b'b'
    then with_char 8 plain
    else if c == b'f'
    then with_char 12 plain
    else if c == b'n'
    then with_char 10 plain
    else if c == b'r'
    then with_char 13 plain
    else if c == b't'
    then with_char 9 plain
    else if c == b'u'
    then unicode
    else none
read_string (c ∷ cs) (digits more v) = elim (hex_value c) [
  | none ↦ none
  | some d ↦
      let plain = read_string cs between in
      let next = read_string cs (digits (more - 1) (v * 16 + d)) in
      if more == 0 then with_char (v * 16 + d) plain else next
]

hex_value-digit : (d : ℕ) → d < 16 → hex_value (hex_digit d) ≡ some d
hex_value-digit d h = ground arith

read_string-char :
    (c : ℕ) (tail : Bytes)
    → read_string (escaped_char c ++ tail) between ≡ with_char c (read_string tail between)
unfolding read_string
read_string-char c tail = elim (Bool-cases (c == 34)) [
  | inl e ↦ rw (e) (same 34 (ground arith))
  | inr e34 ↦ elim (Bool-cases (c == 92)) [
    | inl e ↦ rw (e34, e) (same 92 (ground arith))
    | inr e92 ↦ elim (Bool-cases (c == 8)) [
      | inl e ↦ rw (e34, e92, e) (same 8 (ground arith))
      | inr e8 ↦ elim (Bool-cases (c == 12)) [
        | inl e ↦ rw (e34, e92, e8, e) (same 12 (ground arith))
        | inr e12 ↦ elim (Bool-cases (c == 10)) [
          | inl e ↦ rw (e34, e92, e8, e12, e) (same 10 (ground arith))
          | inr e10 ↦ elim (Bool-cases (c == 13)) [
            | inl e ↦ rw (e34, e92, e8, e12, e10, e) (same 13 (ground arith))
            | inr e13 ↦ elim (Bool-cases (c == 9)) [
              | inl e ↦ rw (e34, e92, e8, e12, e10, e13, e) (same 9 (ground arith))
              | inr e9 ↦ elim (Bool-cases (ltb c 32)) [
                | inl e ↦
                    let high : hex_value (hex_digit (c / 16)) ≡ some (c / 16) =
                      hex_value-digit (c / 16) (ground arith) in
                    let low : hex_value (hex_digit (c % 16)) ≡ some (c % 16) =
                      hex_value-digit (c % 16) (omega arith) in
                    rw (e34, e92, e8, e12, e10, e13, e9, e, high, low)
                      (same ((0 + c / 16) * 16 + c % 16) (omega arith))
                | inr e ↦ rw (e34, e92, e8, e12, e10, e13, e9, e) (rw (e34, e92, e) refl)
              ]
            ]
          ]
        ]
      ]
    ]
  ]
]
  where
    same :
        (k : ℕ)
        → k ≡ c
        → with_char k (read_string tail between) ≡ with_char c (read_string tail between)
    same k e = ap (λ j. with_char j (read_string tail between)) e

closing : (rest : Bytes) → read_string (34 ∷ rest) between ≡ some ([], rest)
unfolding read_string
closing rest = refl

read_string-chars :
    (v rest : Bytes) → read_string (escaped_chars v ++ 34 ∷ rest) between ≡ some (v, rest)
unfolding escaped_chars
read_string-chars [] rest = closing rest
read_string-chars (c ∷ v) rest =
    rw
      (
        escaped_chars,
        append_assoc,
        read_string-char c (escaped_chars v ++ 34 ∷ rest),
        read_string-chars v rest,
      )
      refl

-- What json_print_escaped_string prints for a string is read back as that string by a reader of JSON
-- strings, whatever bytes it holds, and the reader stops at the closing quote.
pub json_print_escaped_string-read :
    (value rest : Bytes)
    → (body : Bytes) × (json_print_escaped_string (some value) ++ rest ≡ 34 ∷ body)
      × (read_string body between ≡ some (value, rest))
unfolding json_print_escaped_string
json_print_escaped_string-read value rest =
    (escaped_chars value ++ 34 ∷ rest, rw append_assoc refl, read_string-chars value rest)
