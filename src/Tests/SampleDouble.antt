-- ===== src/Tests/SampleDouble.antt =====
-- Numbers of three decimal digits as a `double` for the runs. A product is exact where its second
-- factor is a whole number.
use gatebench.Base.{ℕ, zero, suc, ◌+◌, ◌-◌, ◌*◌, ◌/◌, ◌≤◌, ◌≡◌, refl, arith, ltb, leb}
use gatebench.Base.Double.{Double}

abbrev times : ℕ → ℕ → ℕ
times a b = a * (b / 1000)

mul_le : (a b n : ℕ) → a ≤ b → a * n ≤ b * n
mul_le a b zero h = omega arith
mul_le a b (suc n) h = ground (arith, mul_le a b n h)

whole : (n : ℕ) → 1000 * n / 1000 ≡ n
whole n = omega arith

difference : (a b : ℕ) → (1000 * b - 1000 * a) / 1000 ≡ b - a
difference a b = omega arith

pub sample_double : Double
sample_double = record {
  F = ℕ;
  of_ℕ = λ n. 1000 * n;
  to_ℕ = λ x. x / 1000;
  add = λ a b. a + b;
  sub = λ a b. a - b;
  mul = times;
  div = λ a b. a * 1000 / b;
  sqrt = λ a. a;
  floor = λ x. x / 1000 * 1000;
  ceil = λ x. (x + 999) / 1000 * 1000;
  lt = ltb;
  le = leb;
  f0 = 0;
  f1 = 1000;
  f2 = 2000;
  f1e9 = 1000000000000;
  f50 = 500;
  f95 = 950;
  f99 = 990;
  f999 = 999;
  lt_asym = λ a b h. (ground arith, ground arith);
  f50_inside = (refl, refl);
  f95_inside = (refl, refl);
  f99_inside = (refl, refl);
  f999_inside = (refl, refl);
  fraction_range = λ p n h k small.
      rw whole
        (omega arith, omega (arith, mul_le p 999 n (ground arith)), ground arith, ground arith);
  between = λ a b w h small l k.
      rw difference (omega arith, omega (arith, mul_le w 1000 (b - a) (ground arith)));
}
