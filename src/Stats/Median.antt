-- ===== src/Stats/Median.antt =====
-- gb_stats_median_uint64 of src/stats.c.
use mathlib.Core.List.{Mem}
use mathlib.Core.List.Perm
use gatebench.Base.{
  ℕ, ◌+◌, ◌-◌, ◌*◌, ◌/◌, ◌%◌, ◌≤◌, ◌<◌, ◌^◌, ◌≡◌, Bool, true, false, some, List, pos, arith, length,
  Bool-cases, inl, inr, ◌==◌, u64_mod, first_cells_all,
}
use gatebench.Base.Sort.{Qsort, IsSortedBy}
use gatebench.Stats.{compare_u64}
use gatebench.Stats.Order.{gb_stats_median_uint64, middle}
use gatebench.Stats.Sorting.{compare_u64-IsOrder}
use gatebench.Stats.Cells.{cell_inside, cell-mem, cells_ascend}
use gatebench.Stats.Percentile.{IsBetween, IsBetween-cells}

middle-IsBetween :
    (l : List ℕ) (n : ℕ)
    → length l ≡ n
    → IsSortedBy compare_u64 l
    → 0 < n
    → ((x : ℕ) → Mem x l → x < 2 ^ 63)
    → (m : ℕ) × (middle l n ≡ some m) × IsBetween m l
unfolding middle
middle-IsBetween l n c up some_cells small = elim (Bool-cases (n % 2 == 0)) [
  | inl e ↦
      let (a, ea) = cell_inside l (n / 2 - 1) (ground arith) in
      let (b, eb) = cell_inside l (n / 2) (ground arith) in
      let le : a ≤ b = cells_ascend l (n / 2 - 1) (n / 2) a b up (omega arith) ea eb in
      let fits = small b (cell-mem l (n / 2) b eb) in
      (
        (a + b) % u64_mod / 2,
        rw (e, ea, eb),
        IsBetween-cells l _ _ a b _ ea eb (omega arith) (omega arith),
      )
  | inr e ↦
      let (a, ea) = cell_inside l (n / 2) (ground arith) in
      (a, rw (e, ea), IsBetween-cells l _ _ a a a ea ea (omega arith) (omega arith))
]

-- With memory for the copy, the median of values below 2^63 is stored with code 0, and lies between
-- the least and the greatest value, whether their number is even or odd.
pub gb_stats_median_uint64-IsBetween :
    (q : Qsort ℕ) (malloc : ℕ → Bool) (l : List ℕ)
    → 0 < length l
    → malloc (length l * 8 % u64_mod) ≡ true
    → ((x : ℕ) → Mem x l → x < 2 ^ 63)
    → (m : ℕ) × (gb_stats_median_uint64 q malloc (some l) (length l) true ≡ some (pos 0, some m))
      × IsBetween m l
unfolding gb_stats_median_uint64
gb_stats_median_uint64-IsBetween q malloc l some_cells granted small =
    let sorted = q.qsort compare_u64 l in
    let p = q.qsort-perm compare_u64 l in
    let same = q.length-qsort compare_u64 l in
    let (m, e, b) =
      middle-IsBetween sorted (length l) same (q.qsort-IsSortedBy compare_u64 l compare_u64-IsOrder)
        some_cells (λ x k. small x ((Perm.mem_iff p).0 k)) in
    let test : (length l == 0) ≡ false = ground arith in
    (
      m,
      rw (test, granted, first_cells_all l, e),
      (
        λ k least. b.0 k ((Perm.mem_iff p).1 least.0, λ y i. least.1 y ((Perm.mem_iff p).0 i)),
        λ k most. b.1 k ((Perm.mem_iff p).1 most.0, λ y i. most.1 y ((Perm.mem_iff p).0 i)),
      ),
    )
