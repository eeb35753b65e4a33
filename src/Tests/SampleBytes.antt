-- ===== src/Tests/SampleBytes.antt =====
-- Integers and strings as bytes, little end first, for the runs.
use gatebench.Base.{
  ℕ, ◌+◌, ◌*◌, ◌/◌, ◌%◌, ◌<◌, ◌^◌, ◌≡◌, refl, false, [], ◌∷◌, ◌++◌, length, length-append, drop,
  arith, ◌==◌, if◌then◌else◌,
}
use gatebench.Base.Libc.{Bytes}
use gatebench.Mnl.Tlv.{has_nul}

abbrev pub u32_bytes : ℕ → Bytes
u32_bytes v = v % 256 ∷ v / 256 % 256 ∷ v / 65536 % 256 ∷ v / 16777216 % 256 ∷ []

abbrev pub u32_of : Bytes → ℕ
u32_of (a ∷ b ∷ c ∷ d ∷ rest) = a + 256 * b + 65536 * c + 16777216 * d
u32_of bs = 0

pub u32_of-bytes : (v : ℕ) (rest : Bytes) → v < 2 ^ 32 → u32_of (u32_bytes v ++ rest) ≡ v
u32_of-bytes v rest h = omega arith

abbrev pub u64_bytes : ℕ → Bytes
u64_bytes v = u32_bytes (v % 2 ^ 32) ++ u32_bytes (v / 2 ^ 32)

abbrev pub u64_of : Bytes → ℕ
u64_of bs = u32_of bs + 2 ^ 32 * u32_of (drop 4 bs)

pub u64_of-bytes : (v : ℕ) (rest : Bytes) → v < 2 ^ 64 → u64_of (u64_bytes v ++ rest) ≡ v
u64_of-bytes v rest h = omega (
  arith,
  u32_of-bytes (v % 2 ^ 32) (u32_bytes (v / 2 ^ 32) ++ rest) (omega arith),
  u32_of-bytes (v / 2 ^ 32) rest (omega arith),
)

abbrev pub strz_bytes : Bytes → Bytes
strz_bytes s = s ++ 0 ∷ []

abbrev pub str_of : Bytes → Bytes
str_of [] = []
str_of (c ∷ cs) = if c == 0 then [] else c ∷ str_of cs

pub str_of-strz : (s : Bytes) → has_nul s ≡ false → str_of (strz_bytes s) ≡ s
str_of-strz [] h = refl
str_of-strz (c ∷ cs) h = ground (arith, str_of-strz cs)

pub length-strz : (s : Bytes) → length (strz_bytes s) ≡ length s + 1
length-strz s = length-append s (0 ∷ [])
