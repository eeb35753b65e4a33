-- ===== src/Stats/Range.antt =====
-- What the order statistics return for a valid struct that holds something.
use mathlib.Core.List.{Perm}
use mathlib.Core.List.Perm
use gatebench.Base.{ℕ, ◌-◌, ◌<◌, ◌≡◌, ◌∙◌, true, false, some, List, pos, arith, length}
use gatebench.Base.Sort.{Qsort}
use gatebench.Stats.{GbStats, stored, is_empty, sort_stats}
use gatebench.Stats.Order.{gb_stats_min, gb_stats_max, cell}
use gatebench.Stats.Growth.{IsValid}
use gatebench.Stats.Sorting.{Sorted, sort_stats-Sorted}
use gatebench.Stats.Cells.{IsLeast, IsGreatest, cell_inside, first-IsLeast, last-IsGreatest}

pub IsLeast-perm : {l r : List ℕ} (m : ℕ) → Perm l r → IsLeast m l → IsLeast m r
IsLeast-perm m p h = ((Perm.mem_iff p).0 h.0, λ x k. h.1 x ((Perm.mem_iff p).1 k))

pub IsGreatest-perm : {l r : List ℕ} (m : ℕ) → Perm l r → IsGreatest m l → IsGreatest m r
IsGreatest-perm m p h = ((Perm.mem_iff p).0 h.0, λ x k. h.1 x ((Perm.mem_iff p).1 k))

module _ (q : Qsort ℕ) (s : GbStats) (v : IsValid s) (some_values : is_empty s ≡ false) where
  pub count_pos : 0 < s.count
  count_pos = ground arith

  sorted : Sorted s (sort_stats q s)
  sorted = sort_stats-Sorted q s v

  pub length_sorted : length (stored (sort_stats q s)) ≡ s.count
  length_sorted = sorted.valid.counted ∙ sorted.same_count

  pub first_cell : (m : ℕ) × (cell (sort_stats q s) 0 ≡ some m)
  first_cell = cell_inside (stored (sort_stats q s)) 0 (omega (arith, count_pos, length_sorted))

  pub last_cell : (m : ℕ) × (cell (sort_stats q s) (s.count - 1) ≡ some m)
  last_cell =
      cell_inside (stored (sort_stats q s)) (s.count - 1) (omega (arith, count_pos, length_sorted))

  -- For a valid struct that holds values, gb_stats_min returns 0 and stores the least of them, and leaves the struct sorted.
  pub gb_stats_min-IsLeast :
      (m : ℕ) × (gb_stats_min q (some s) true ≡ some (pos 0, some (sort_stats q s), some m))
      × IsLeast m (stored s)
  unfolding gb_stats_min
  gb_stats_min-IsLeast =
      let (m, e) = first_cell in
      (
        m,
        rw (some_values, e),
        IsLeast-perm m sorted.same_values (first-IsLeast _ m sorted.in_order e),
      )

  -- For a valid struct that holds values, gb_stats_max returns 0 and stores the greatest of them, and leaves the struct sorted.
  pub gb_stats_max-IsGreatest :
      (m : ℕ) × (gb_stats_max q (some s) true ≡ some (pos 0, some (sort_stats q s), some m))
      × IsGreatest m (stored s)
  unfolding gb_stats_max
  gb_stats_max-IsGreatest =
      let (m, e) = last_cell in
      (
        m,
        rw (some_values, sorted.same_count, e),
        IsGreatest-perm m sorted.same_values (
            last-IsGreatest _ (s.count - 1) m sorted.in_order
              (omega (arith, count_pos, length_sorted)) e),
      )
