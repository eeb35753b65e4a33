-- ===== src/Stats/Summarised.antt =====
-- What gb_stats_calculate returns for a valid struct that holds something.
use mathlib.Core.List.Perm
use gatebench.Base.{
  ℕ, ◌-◌, ◌≤◌, ◌<◌, ◌^◌, ◌≡◌, refl, ap, ◌∙◌, Bool, true, false, Option, none, some, List, pos,
  arith, length, ltb, Bool-cases, inl, inr,
}
use gatebench.Base.Sort.{Qsort}
use gatebench.Base.Double.{Double}
use gatebench.Stats.{GbStats, stored, is_empty, sort_stats}
use gatebench.Stats.Order.{cell, gb_stats_percentile}
use gatebench.Stats.Moments.{
  sum_values, sum_squares, Summary, gb_stats_mean, gb_stats_stddev, calculate_sorted,
  gb_stats_calculate,
}
use gatebench.Stats.Growth.{IsValid}
use gatebench.Stats.Sorting.{sort_stats-Sorted}
use gatebench.Stats.Cells.{IsLeast, IsGreatest, first-IsLeast, last-IsGreatest}
use gatebench.Stats.Range.{
  IsLeast-perm, IsGreatest-perm, first_cell, last_cell, length_sorted, count_pos,
}
use gatebench.Stats.Percentile.{
  IsBetween, IsFraction, AreExact, IsBetween-sorted, gb_stats_percentile-IsBetween,
  gb_stats_percentile-answers,
}

pub still_holds :
    (values : Option (List ℕ)) (n cap : ℕ) (b : Bool)
    → let t : GbStats = record { values = values; count = n; capacity = cap; sorted = b } in
      0 < length (stored t) → 0 < n → is_empty t ≡ false
still_holds none n cap b h k = absurd (omega arith)
still_holds (some l) n cap b h k = ground arith

module _ (q : Qsort ℕ) (d : Double) (s : GbStats) (v : IsValid s) (holds : is_empty s ≡ false) where
  sorted_holds : is_empty (sort_stats q s) ≡ false
  sorted_holds =
      let t = sort_stats q s in
      still_holds t.values t.count t.capacity t.sorted
        (omega (arith, length_sorted q s v holds, count_pos q s v holds))
        (omega (arith, (sort_stats-Sorted q s v).same_count, count_pos q s v holds))

  mean_stored : (x : d.F) × (gb_stats_mean d (some (sort_stats q s)) true ≡ (pos 0, some x))
  unfolding gb_stats_mean
  mean_stored =
      let t = sort_stats q s in
      (d.div (sum_values d (stored t) d.f0) (d.of_ℕ t.count), rw (gb_stats_mean, sorted_holds) refl)

  stddev_stored : (x : d.F) × (gb_stats_stddev d (some (sort_stats q s)) true ≡ (pos 0, some x))
  unfolding gb_stats_stddev
  stddev_stored = elim (Bool-cases (ltb (sort_stats q s).count 2)) [
    | inl e ↦ (d.f0, rw (gb_stats_stddev, sorted_holds, e) refl)
    | inr e ↦
        let t = sort_stats q s in
        (
          d.sqrt (
              d.div
                (sum_squares d (stored t) (d.div (sum_values d (stored t) d.f0) (d.of_ℕ t.count))
                  d.f0)
                (d.of_ℕ (t.count - 1))),
          rw (gb_stats_stddev, sorted_holds, e) refl,
        )
  ]

  -- With an answer to every percentile of the sorted struct, of which P holds.
  module _ (P : ℕ → Type 0)
      (percentile : (p : d.F)
        → IsFraction d p
        → (x : ℕ) × (gb_stats_percentile q d (some (sort_stats q s)) p true
            ≡ some (pos 0, some (sort_stats q (sort_stats q s)), some x))
          × P x) where
    calculate_with :
        (r : Summary d.F) × (gb_stats_calculate q d (some s)
          ≡ some (pos 0, some (sort_stats q s), some r))
        × IsLeast r.min (stored s)
        × IsGreatest r.max (stored s)
        × (P r.p50 × P r.p95)
        × (P r.p99 × P r.p999)
    unfolding gb_stats_calculate calculate_sorted
    calculate_with =
        let up = sort_stats-Sorted q s v in
        let (lo, elo) = first_cell q s v holds in
        let (hi, ehi) = last_cell q s v holds in
        let (mean, em) = mean_stored in
        let (dev, ed) = stddev_stored in
        let (x1, e1, b1) = percentile d.f50 d.f50_inside in
        let (x2, e2, b2) = percentile d.f95 d.f95_inside in
        let (x3, e3, b3) = percentile d.f99 d.f99_inside in
        let (x4, e4, b4) = percentile d.f999 d.f999_inside in
        (
          record {
            min = lo;
            max = hi;
            mean = mean;
            stddev = dev;
            p50 = x1;
            p95 = x2;
            p99 = x3;
            p999 = x4;
          },
          rw
              (
                holds,
                elo,
                ap (λ n. cell (sort_stats q s) (n - 1)) up.same_count ∙ ehi,
                em,
                ed,
                calculate_sorted,
                e1,
                e2,
                e3,
                e4,
              )
              refl,
          IsLeast-perm lo up.same_values (first-IsLeast _ lo up.in_order elo),
          IsGreatest-perm hi up.same_values (
              last-IsGreatest _ (s.count - 1) hi up.in_order
                (omega (arith, count_pos q s v holds, length_sorted q s v holds)) ehi),
          (b1, b2),
          (b3, b4),
        )

  -- For a valid struct with 1 to 2^53 values, whatever they are, gb_stats_calculate returns 0.
  pub gb_stats_calculate-answers :
      s.count ≤ 2 ^ 53
      → (r : Summary d.F) × (gb_stats_calculate q d (some s)
          ≡ some (pos 0, some (sort_stats q s), some r))
  gb_stats_calculate-answers small =
      let up = sort_stats-Sorted q s v in
      let (r, e, least, greatest, low, high) =
        calculate_with (λ x. Unit)
          (λ p inside.
            let (x, k) =
              gb_stats_percentile-answers q d (sort_stats q s) up.valid sorted_holds p inside
                (omega (arith, up.same_count)) in
            (x, k, tt)) in
      (r, e)

  module _ (small : s.count ≤ 2 ^ 53) (exact : AreExact (stored s)) where
    -- One of the percentiles of the sorted struct.
    percentile_stored :
        (p : d.F)
        → IsFraction d p
        → (x : ℕ) × (gb_stats_percentile q d (some (sort_stats q s)) p true
            ≡ some (pos 0, some (sort_stats q (sort_stats q s)), some x))
          × IsBetween x (stored s)
    percentile_stored p inside =
        let up = sort_stats-Sorted q s v in
        let (x, e, b) =
          gb_stats_percentile-IsBetween q d (sort_stats q s) up.valid sorted_holds p inside
            (omega (arith, up.same_count)) (λ y k. exact y ((Perm.mem_iff up.same_values).0 k)) in
        (x, e, IsBetween-sorted q d s v holds x b)

    -- For a valid struct with 1 to 2^53 values, all below 2^53, gb_stats_calculate returns 0 and leaves
    -- the struct sorted; it stores the least and the greatest value, and four percentiles between them.
    pub gb_stats_calculate-IsBetween :
        (r : Summary d.F) × (gb_stats_calculate q d (some s)
          ≡ some (pos 0, some (sort_stats q s), some r))
        × IsLeast r.min (stored s)
        × IsGreatest r.max (stored s)
        × (IsBetween r.p50 (stored s) × IsBetween r.p95 (stored s))
        × (IsBetween r.p99 (stored s) × IsBetween r.p999 (stored s))
    gb_stats_calculate-IsBetween = calculate_with (λ x. IsBetween x (stored s)) percentile_stored
