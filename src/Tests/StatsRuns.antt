-- ===== src/Tests/StatsRuns.antt =====
-- src/stats.c
use mathlib.Core.List.{Mem, mem-cons, not-mem-nil}
use mathlib.Core.Logic.Or
use native.Mathlib.Bridge.{le_prop}
use gatebench.Base.{
  ℕ, ◌<◌, ◌≤◌, ◌^◌, ◌≡◌, refl, subst, sym, true, false, some, List, [], ◌∷◌, pos, arith, All,
}
use gatebench.Stats.{GbStats, gb_stats_add, sort_stats}
use gatebench.Stats.Growth.{IsValid, Added, gb_stats_add-Added}
use gatebench.Stats.Sorting.{Sorted, sort_stats-Sorted}
use gatebench.Stats.Order.{gb_stats_min, gb_stats_max, gb_stats_median_uint64, gb_stats_percentile}
use gatebench.Stats.Cells.{IsLeast, IsGreatest}
use gatebench.Stats.Range.{gb_stats_min-IsLeast, gb_stats_max-IsGreatest}
use gatebench.Stats.Percentile.{IsBetween, gb_stats_percentile-IsBetween}
use gatebench.Stats.Moments.{Summary, gb_stats_calculate}
use gatebench.Stats.Summarised.{gb_stats_calculate-IsBetween}
use gatebench.Stats.Median.{gb_stats_median_uint64-IsBetween}
use gatebench.Tests.SampleSort.{sample_qsort}
use gatebench.Tests.SampleDouble.{sample_double}

abbrev taken : List ℕ
taken = 30 ∷ 10 ∷ 20 ∷ []

abbrev samples : GbStats
samples = record { values = some taken; count = 3; capacity = 3; sorted = false }

samples-IsValid : IsValid samples
samples-IsValid = record { counted = refl; fits = omega arith; truly_sorted = λ e. cc }

below : (l : List ℕ) (n : ℕ) → All (λ y. y ≤ n) l → (x : ℕ) → Mem x l → x ≤ n
below [] n h x k = absurd (not-mem-nil k)
below (y ∷ l) n h x k =
    Or.elim le_prop (mem-cons.0 k) (λ e. subst (λ z. z ≤ n) (sym e) h.0) (below l n h.1 x)

taken_small : (x : ℕ) → Mem x taken → x < 2 ^ 53
taken_small x k = omega (arith, below taken 30 (omega arith, (omega arith, (omega arith, tt))) x k)

gb_stats_add-Added_example : Added samples 5 (gb_stats_add (λ n. true) (some samples) 5)
gb_stats_add-Added_example = gb_stats_add-Added (λ n. true) samples 5 samples-IsValid (omega arith)

sort_stats-Sorted_example : Sorted samples (sort_stats sample_qsort samples)
sort_stats-Sorted_example = sort_stats-Sorted sample_qsort samples samples-IsValid

gb_stats_min-IsLeast_example :
    (m : ℕ) × (gb_stats_min sample_qsort (some samples) true
      ≡ some (pos 0, some (sort_stats sample_qsort samples), some m))
    × IsLeast m taken
gb_stats_min-IsLeast_example = gb_stats_min-IsLeast sample_qsort samples samples-IsValid refl

gb_stats_max-IsGreatest_example :
    (m : ℕ) × (gb_stats_max sample_qsort (some samples) true
      ≡ some (pos 0, some (sort_stats sample_qsort samples), some m))
    × IsGreatest m taken
gb_stats_max-IsGreatest_example = gb_stats_max-IsGreatest sample_qsort samples samples-IsValid refl

gb_stats_percentile-IsBetween_example :
    (x : ℕ) × (gb_stats_percentile sample_qsort sample_double (some samples) sample_double.f95 true
      ≡ some (pos 0, some (sort_stats sample_qsort samples), some x))
    × IsBetween x taken
gb_stats_percentile-IsBetween_example =
    gb_stats_percentile-IsBetween sample_qsort sample_double samples samples-IsValid refl
      sample_double.f95 sample_double.f95_inside (omega arith) taken_small

gb_stats_median_uint64-IsBetween_example :
    (m : ℕ) × (gb_stats_median_uint64 sample_qsort (λ n. true) (some taken) 3 true
      ≡ some (pos 0, some m))
    × IsBetween m taken
gb_stats_median_uint64-IsBetween_example =
    gb_stats_median_uint64-IsBetween sample_qsort (λ n. true) taken (omega arith) refl
      (λ x k. omega (arith, taken_small x k))

gb_stats_calculate-IsBetween_example :
    (r : Summary sample_double.F) × (gb_stats_calculate sample_qsort sample_double (some samples)
      ≡ some (pos 0, some (sort_stats sample_qsort samples), some r))
    × IsLeast r.min taken
    × IsGreatest r.max taken
    × (IsBetween r.p50 taken × IsBetween r.p95 taken)
    × (IsBetween r.p99 taken × IsBetween r.p999 taken)
gb_stats_calculate-IsBetween_example =
    gb_stats_calculate-IsBetween sample_qsort sample_double samples samples-IsValid refl
      (omega arith) taken_small
