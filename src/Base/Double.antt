-- ===== src/Base/Double.antt =====
-- C's `double`, as a parameter: the operations that the program uses, and what it relies on.
-- `of_ℕ` and `to_ℕ` are the conversions from and to an unsigned integer.
use Prim.Native.Nat.{ℕ, ◌≤◌, ◌<◌, ◌^◌}
use mathlib.Core.Path.{◌≡◌}
use mathlib.Core.Bool.{Bool, true, false}

pub record Double : Type 1 where
  pub F : Type 0
  pub of_ℕ : ℕ → F
  pub to_ℕ : F → ℕ
  pub add : F → F → F
  pub sub : F → F → F
  pub mul : F → F → F
  pub div : F → F → F
  pub sqrt : F → F
  pub floor : F → F
  pub ceil : F → F
  pub lt : F → F → Bool
  pub le : F → F → Bool
  -- the literals 0.0, 1.0, 2.0, 1e9, 0.50, 0.95, 0.99 and 0.999
  pub f0 : F
  pub f1 : F
  pub f2 : F
  pub f1e9 : F
  pub f50 : F
  pub f95 : F
  pub f99 : F
  pub f999 : F
  -- the comparisons are those of an order where they hold
  pub lt_asym : (a b : F) → lt a b ≡ true → (lt b a ≡ false) × (le b a ≡ false)
  -- the literals lie strictly between 0 and 1
  pub f50_inside : (lt f0 f50 ≡ true) × (lt f50 f1 ≡ true)
  pub f95_inside : (lt f0 f95 ≡ true) × (lt f95 f1 ≡ true)
  pub f99_inside : (lt f0 f99 ≡ true) × (lt f99 f1 ≡ true)
  pub f999_inside : (lt f0 f999 ≡ true) × (lt f999 f1 ≡ true)
  -- a fraction of an exactly represented n rounds to a value whose neighbouring integers are at most
  -- n, and that stands at most 1 above the lower one
  pub fraction_range :
      (p : F) (n : ℕ)
      → lt f0 p ≡ true
      → lt p f1 ≡ true
      → n < 2 ^ 53
      → (to_ℕ (floor (mul p (of_ℕ n))) ≤ to_ℕ (ceil (mul p (of_ℕ n))))
        × (to_ℕ (ceil (mul p (of_ℕ n))) ≤ n)
        × (le f0 (sub (mul p (of_ℕ n)) (of_ℕ (to_ℕ (floor (mul p (of_ℕ n)))))) ≡ true)
        × (le (sub (mul p (of_ℕ n)) (of_ℕ (to_ℕ (floor (mul p (of_ℕ n)))))) f1 ≡ true)
  -- rounding is monotone: a + w (b - a) with exact a and b stays between them
  pub between :
      (a b : ℕ) (w : F)
      → a ≤ b
      → b < 2 ^ 53
      → le f0 w ≡ true
      → le w f1 ≡ true
      → (a ≤ to_ℕ (add (of_ℕ a) (mul w (sub (of_ℕ b) (of_ℕ a)))))
        × (to_ℕ (add (of_ℕ a) (mul w (sub (of_ℕ b) (of_ℕ a)))) ≤ b)
