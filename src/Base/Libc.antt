-- ===== src/Base/Libc.antt =====
-- The parts of the C library that the program's parsers call, as a parameter. A C string is the list
-- of its bytes without the terminator, and NULL is `none`.
use Prim.Native.Nat.{ℕ, ◌<◌, ◌^◌}
use mathlib.Core.List.{List}
use gatebench.Base.Int.{ℤ}

abbrev pub Bytes : Type 0
Bytes = List ℕ

-- What strtoul and strtoull leave behind: the value, `errno`, and the offset of `*end`.
pub record Unsigned : Type 0 where
  pub value : ℕ
  pub errno : ℕ
  pub stop : ℕ

-- The same for strtol.
pub record Signed : Type 0 where
  pub value : ℤ
  pub errno : ℕ
  pub stop : ℕ

-- The conversions to base 10. `unsigned long` and `unsigned long long` have 64 bits.
pub record Libc : Type 0 where
  pub strtoul : Bytes → Unsigned
  pub strtoull : Bytes → Unsigned
  pub strtol : Bytes → Signed
  pub strtoull_range : (s : Bytes) → (strtoull s).value < 2 ^ 64
