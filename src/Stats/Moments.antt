-- ===== src/Stats/Moments.antt =====
-- The mean, the standard deviation and the summary of src/stats.c.
use gatebench.Base.{
  ℕ, ◌-◌, Bool, true, ◌||◌, not, Option, none, some, List, [], ◌∷◌, ℤ, pos, neg, einval, ltb,
  is_neg, if◌then◌else◌,
}
use gatebench.Base.Sort.{Qsort}
use gatebench.Base.Double.{Double}
use gatebench.Stats.{GbStats, stored, is_empty, sort_stats}
use gatebench.Stats.Order.{Reply, refuse, cell, gb_stats_percentile}

module _ (d : Double) where
  open d use {F, of_ℕ, add, sub, mul, div, sqrt, f0}

  -- for (...) sum += (double)stats->values[i];
  unfoldable pub sum_values : List ℕ → F → F
  sum_values [] sum = sum
  sum_values (v ∷ vs) sum = sum_values vs (add sum (of_ℕ v))

  unfoldable pub gb_stats_mean : Option GbStats → Bool → ℤ × Option F
  unfolding sum_values
  gb_stats_mean none out = (neg einval, none)
  gb_stats_mean (some s) out =
      if is_empty s || not out
      then (neg einval, none)
      else (pos 0, some (div (sum_values (stored s) f0) (of_ℕ s.count)))

  -- for (...) { diff = (double)stats->values[i] - mean; sum_sq += diff * diff; }
  unfoldable pub sum_squares : List ℕ → F → F → F
  sum_squares [] mean sum_sq = sum_sq
  sum_squares (v ∷ vs) mean sum_sq =
      let diff = sub (of_ℕ v) mean in sum_squares vs mean (add sum_sq (mul diff diff))

  -- The part behind the call of gb_stats_mean.
  abbrev pub stddev_of : GbStats → ℤ × Option F → ℤ × Option F
  stddev_of s (ret, none) = (ret, none)
  stddev_of s (ret, some mean) =
      if is_neg ret
      then (ret, none)
      else (pos 0, some (sqrt (div (sum_squares (stored s) mean f0) (of_ℕ (s.count - 1)))))

  unfoldable pub gb_stats_stddev : Option GbStats → Bool → ℤ × Option F
  unfolding sum_squares gb_stats_mean
  gb_stats_stddev none out = (neg einval, none)
  gb_stats_stddev (some s) out =
      if is_empty s || not out
      then (neg einval, none)
      else if ltb s.count 2
      then (pos 0, some f0)
      else stddev_of s (gb_stats_mean (some s) true)

-- What gb_stats_calculate stores through its eight pointers, all of them not NULL as its caller
-- passes them.
pub record Summary (F : Type 0) : Type 0 where
  pub min : ℕ
  pub max : ℕ
  pub mean : F
  pub stddev : F
  pub p50 : ℕ
  pub p95 : ℕ
  pub p99 : ℕ
  pub p999 : ℕ

-- `x` is stored and the code is not negative, or the function returns the code.
abbrev pub then_float : {F A : Type 0} → ℤ × Option F → GbStats → (F → Reply A) → Reply A
then_float (ret, none) s k = some (ret, some s, none)
then_float (ret, some x) s k = if is_neg ret then some (ret, some s, none) else k x

abbrev pub then_value : {A : Type 0} → Reply ℕ → GbStats → (ℕ → Reply A) → Reply A
then_value none s k = none
then_value (some (ret, t, none)) s k = some (ret, some s, none)
then_value (some (ret, t, some x)) s k = if is_neg ret then some (ret, some s, none) else k x

module _ (q : Qsort ℕ) (d : Double) where
  open d use {F, f50, f95, f99, f999}

  -- The percentiles of the sorted struct, one after the other.
  unfoldable pub calculate_sorted : GbStats → ℕ → ℕ → F → F → Reply (Summary F)
  calculate_sorted s lo hi mean stddev =
      then_value (gb_stats_percentile q d (some s) f50 true) s λ p50.
        then_value (gb_stats_percentile q d (some s) f95 true) s λ p95.
          then_value (gb_stats_percentile q d (some s) f99 true) s λ p99.
            then_value (gb_stats_percentile q d (some s) f999 true) s λ p999. some (
              pos 0,
              some s,
              some (record {
                min = lo;
                max = hi;
                mean = mean;
                stddev = stddev;
                p50 = p50;
                p95 = p95;
                p99 = p99;
                p999 = p999;
              }),
            )

  unfoldable pub gb_stats_calculate : Option GbStats → Reply (Summary F)
  gb_stats_calculate none = refuse none
  gb_stats_calculate (some s) =
      if is_empty s
      then refuse (some s)
      else let s' = sort_stats q s in
        elim (cell s' 0) [
          | none ↦ none
          | some lo ↦ elim (cell s' (s'.count - 1)) [
            | none ↦ none
            | some hi ↦ then_float (gb_stats_mean d (some s') true) s' λ mean.
                then_float (gb_stats_stddev d (some s') true) s'
                  λ stddev. calculate_sorted s' lo hi mean stddev
          ]
        ]
