-- ===== src/Stats/Percentile.antt =====
-- gb_stats_percentile stays inside the array and between its extremes.
use mathlib.Core.List.{Mem}
use mathlib.Core.List.Perm
use gatebench.Base.{
  ℕ, ◌-◌, ◌≤◌, ◌<◌, ◌^◌, ◌≡◌, refl, true, false, some, List, pos, arith, Bool-cases, inl, inr, ◌==◌,
  get_elem?,
}
use gatebench.Base.Sort.{Qsort, IsSortedBy}
use gatebench.Base.Double.{Double}
use gatebench.Stats.{GbStats, stored, is_empty, sort_stats, compare_u64}
use gatebench.Stats.Order.{gb_stats_percentile, interpolate}
use gatebench.Stats.Growth.{IsValid}
use gatebench.Stats.Sorting.{sort_stats-Sorted}
use gatebench.Stats.Cells.{IsLeast, IsGreatest, cell_inside, cell-mem, cells_ascend}

-- 0 < p < 1
abbrev pub IsFraction : (d : Double) → d.F → Type 0
IsFraction d p = (d.lt d.f0 p ≡ true) × (d.lt p d.f1 ≡ true)

-- Every value is exact as a double.
abbrev pub AreExact : List ℕ → Type 0
AreExact l = (x : ℕ) → Mem x l → x < 2 ^ 53

-- v lies between what the list holds.
abbrev pub IsBetween : ℕ → List ℕ → Type 0
IsBetween v l = ((m : ℕ) → IsLeast m l → m ≤ v) × ((m : ℕ) → IsGreatest m l → v ≤ m)

pub IsBetween-cells :
    (l : List ℕ) (i j a b v : ℕ)
    → get_elem? l i ≡ some a
    → get_elem? l j ≡ some b
    → a ≤ v
    → v ≤ b
    → IsBetween v l
IsBetween-cells l i j a b v e f h k = (
  λ m least. omega (arith, least.1 a (cell-mem l i a e)),
  λ m greatest. omega (arith, greatest.1 b (cell-mem l j b f)),
)

module _ (d : Double) where
  open d use {F, of_ℕ, to_ℕ, add, sub, mul, floor, ceil}

  -- Whatever the values are, the two cells stand inside the array.
  interpolate-answers :
      (t : GbStats) (p : F)
      → IsValid t
      → 0 < t.count
      → t.count ≤ 2 ^ 53
      → IsFraction d p
      → (v : ℕ) × (interpolate d t p ≡ some v)
  unfolding interpolate
  interpolate-answers t p valid pos_count small inside =
      let idx = mul p (of_ℕ (t.count - 1)) in
      let lo = to_ℕ (floor idx) in
      let hi = to_ℕ (ceil idx) in
      let range = d.fraction_range p (t.count - 1) inside.0 inside.1 (omega arith) in
      let (a, ea) = cell_inside (stored t) lo (omega (arith, valid.counted, range.0, range.1)) in
      let (b, eb) = cell_inside (stored t) hi (omega (arith, valid.counted, range.1)) in
      elim (Bool-cases (lo == hi)) [
        | inl e ↦ (a, rw (e, ea) refl)
        | inr e ↦ (
          to_ℕ (add (of_ℕ a) (mul (sub idx (of_ℕ lo)) (sub (of_ℕ b) (of_ℕ a)))),
          rw (e, ea, eb) refl,
        )
      ]

  interpolate-IsBetween :
      (t : GbStats) (p : F)
      → IsValid t
      → IsSortedBy compare_u64 (stored t)
      → AreExact (stored t)
      → 0 < t.count
      → t.count ≤ 2 ^ 53
      → IsFraction d p
      → (v : ℕ) × (interpolate d t p ≡ some v) × IsBetween v (stored t)
  unfolding interpolate
  interpolate-IsBetween t p valid up exact pos_count small inside =
      let idx = mul p (of_ℕ (t.count - 1)) in
      let lo = to_ℕ (floor idx) in
      let hi = to_ℕ (ceil idx) in
      let range = d.fraction_range p (t.count - 1) inside.0 inside.1 (omega arith) in
      let (a, ea) = cell_inside (stored t) lo (omega (arith, valid.counted, range.0, range.1)) in
      let (b, eb) = cell_inside (stored t) hi (omega (arith, valid.counted, range.1)) in
      let le : a ≤ b = cells_ascend (stored t) lo hi a b up range.0 ea eb in
      let step =
        d.between a b (sub idx (of_ℕ lo)) le (exact b (cell-mem (stored t) hi b eb)) range.2
          range.3 in
      elim (Bool-cases (lo == hi)) [
        | inl e ↦ (
          a,
          rw (e, ea),
          IsBetween-cells (stored t) lo lo a a a ea ea (omega arith) (omega arith),
        )
        | inr e ↦ (
          to_ℕ (add (of_ℕ a) (mul (sub idx (of_ℕ lo)) (sub (of_ℕ b) (of_ℕ a)))),
          rw (e, ea, eb),
          IsBetween-cells (stored t) lo hi a b _ ea eb step.0 step.1,
        )
      ]

module _ (q : Qsort ℕ) (d : Double) (s : GbStats) (v : IsValid s) (holds : is_empty s ≡ false) where
  pos_count : 0 < s.count
  pos_count = ground arith

  pub IsBetween-sorted : (x : ℕ) → IsBetween x (stored (sort_stats q s)) → IsBetween x (stored s)
  IsBetween-sorted x h =
      let p = (sort_stats-Sorted q s v).same_values in
      (
        λ m least. h.0 m ((Perm.mem_iff p).1 least.0, λ y k. least.1 y ((Perm.mem_iff p).0 k)),
        λ m most. h.1 m ((Perm.mem_iff p).1 most.0, λ y k. most.1 y ((Perm.mem_iff p).0 k)),
      )

  -- What the interpolation of the sorted struct gives is what is stored.
  percentile_of :
      (p : d.F) (x : ℕ)
      → IsFraction d p
      → interpolate d (sort_stats q s) p ≡ some x
      → gb_stats_percentile q d (some s) p true ≡ some (pos 0, some (sort_stats q s), some x)
  unfolding gb_stats_percentile
  percentile_of p x inside e =
      rw
        (
          holds,
          (d.lt_asym d.f0 p inside.0).0,
          (d.lt_asym p d.f1 inside.1).0,
          (d.lt_asym d.f0 p inside.0).1,
          (d.lt_asym p d.f1 inside.1).1,
          e,
        )
        refl

  pub gb_stats_percentile-answers :
      (p : d.F)
      → IsFraction d p
      → s.count ≤ 2 ^ 53
      → (x : ℕ) × (gb_stats_percentile q d (some s) p true
          ≡ some (pos 0, some (sort_stats q s), some x))
  gb_stats_percentile-answers p inside small =
      let up = sort_stats-Sorted q s v in
      let (x, e) =
        interpolate-answers d (sort_stats q s) p up.valid (omega (arith, up.same_count, pos_count))
          (omega (arith, up.same_count)) inside in
      (x, percentile_of p x inside e)

  -- A percentile strictly between 0 and 1 of a valid struct with 1 to 2^53 values, all below 2^53,
  -- reads no cell outside the array, returns 0, and stores a value between the least and the greatest.
  pub gb_stats_percentile-IsBetween :
      (p : d.F)
      → IsFraction d p
      → s.count ≤ 2 ^ 53
      → AreExact (stored s)
      → (x : ℕ) × (gb_stats_percentile q d (some s) p true
          ≡ some (pos 0, some (sort_stats q s), some x))
        × IsBetween x (stored s)
  gb_stats_percentile-IsBetween p inside small exact =
      let up = sort_stats-Sorted q s v in
      let (x, e, b) =
        interpolate-IsBetween d (sort_stats q s) p up.valid up.in_order
          (λ y k. exact y ((Perm.mem_iff up.same_values).0 k))
          (omega (arith, up.same_count, pos_count)) (omega (arith, up.same_count)) inside in
      (x, percentile_of p x inside e, IsBetween-sorted x b)
