-- ===== src/Cli/Number.antt =====
-- `parse_u32`, `parse_u64` and `parse_int` of src/cli.c. An out-pointer is `none` for NULL and
-- `some` with what it points to; each function returns the code and the pointer's new content.
use gatebench.Base.{
  ℕ, ◌<◌, ◌-◌, ◌^◌, ◌≡◌, Bool, false, not, ◌||◌, Option, none, some, ℤ, pos, negsuc, neg, einval,
  u32_mod, arith, ltb, ◌==◌, if◌then◌else◌, length,
}
use gatebench.Base.Libc.{Bytes, Libc}

-- errno != 0 || end == str || *end != '\0'
abbrev pub bad_end : Bytes → ℕ → ℕ → Bool
bad_end s errno stop = not (errno == 0) || (stop == 0 || ltb stop (length s))

-- v < INT_MIN || v > INT_MAX
abbrev pub out_of_int : ℤ → Bool
out_of_int (pos n) = ltb (2 ^ 31 - 1) n
out_of_int (negsuc n) = ltb (2 ^ 31 - 1) n

-- A value of C's `int`.
abbrev pub IsInt : ℤ → Type 0
IsInt (pos n) = n < 2 ^ 31
IsInt (negsuc n) = n < 2 ^ 31

module _ (libc : Libc) where
  unfoldable pub parse_u32 : Option Bytes → Option ℕ → ℤ × Option ℕ
  parse_u32 none out = (neg einval, out)
  parse_u32 (some s) none = (neg einval, none)
  parse_u32 (some s) (some old) =
      let c = libc.strtoul s in
      if bad_end s c.errno c.stop || ltb (u32_mod - 1) c.value
      then (neg einval, some old)
      else (pos 0, some c.value)

  unfoldable pub parse_u64 : Option Bytes → Option ℕ → ℤ × Option ℕ
  parse_u64 none out = (neg einval, out)
  parse_u64 (some s) none = (neg einval, none)
  parse_u64 (some s) (some old) =
      let c = libc.strtoull s in
      if bad_end s c.errno c.stop then (neg einval, some old) else (pos 0, some c.value)

  unfoldable pub parse_int : Option Bytes → Option ℤ → ℤ × Option ℤ
  parse_int none out = (neg einval, out)
  parse_int (some s) none = (neg einval, none)
  parse_int (some s) (some old) =
      let c = libc.strtol s in
      if bad_end s c.errno c.stop || out_of_int c.value
      then (neg einval, some old)
      else (pos 0, some c.value)

-- An accepted value satisfies `P`, and an acceptance fills the pointer.
abbrev pub Stored : {A : Type 0} → (A → Type 0) → ℤ × Option A → Type 0
Stored P (pos r, some v) = P v
Stored P (pos r, none) = ⊥
Stored P (negsuc r, out) = Unit

out_of_int-IsInt : (v : ℤ) → out_of_int v ≡ false → IsInt v
out_of_int-IsInt (pos n) h = ground arith
out_of_int-IsInt (negsuc n) h = ground arith

module _ (libc : Libc) where
  pub parse_u32-Stored :
      (arg : Option Bytes) (old : ℕ) → Stored (λ v. v < 2 ^ 32) (parse_u32 libc arg (some old))
  unfolding parse_u32
  parse_u32-Stored none old = tt
  parse_u32-Stored (some s) old = ground arith

  pub parse_u64-Stored :
      (arg : Option Bytes) (old : ℕ) → Stored (λ v. v < 2 ^ 64) (parse_u64 libc arg (some old))
  unfolding parse_u64
  parse_u64-Stored none old = tt
  parse_u64-Stored (some s) old = ground (arith, libc.strtoull_range s)

  pub parse_int-Stored :
      (arg : Option Bytes) (old : ℤ) → Stored IsInt (parse_int libc arg (some old))
  unfolding parse_int
  parse_int-Stored none old = tt
  parse_int-Stored (some s) old = ground (arith, out_of_int-IsInt (libc.strtol s).value)
