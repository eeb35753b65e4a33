-- ===== src/Stats/Middle.antt =====
-- The two medians of src/stats.c always have an answer for what they are given.
use gatebench.Base.{
  ℕ, ◌+◌, ◌-◌, ◌*◌, ◌/◌, ◌%◌, ◌<◌, ◌≡◌, refl, Bool, true, false, some, List, pos, arith, length,
  Bool-cases, inl, inr, ◌==◌, u64_mod, first_cells, first_cells_all, subst, ◌∙◌,
}
use gatebench.Base.Sort.{Qsort}
use gatebench.Base.Double.{Double}
use gatebench.Stats.{compare_u64}
use gatebench.Stats.Order.{
  middle, middle_double, compare_double, gb_stats_median_uint64, gb_stats_median_double,
}
use gatebench.Stats.Cells.{cell_inside}

middle_answers : (l : List ℕ) (n : ℕ) → length l ≡ n → 0 < n → (x : ℕ) × (middle l n ≡ some x)
unfolding middle
middle_answers l n e some_cells = elim (Bool-cases (n % 2 == 0)) [
  | inl k ↦
      let (a, ea) = cell_inside l (n / 2 - 1) (ground arith) in
      let (b, eb) = cell_inside l (n / 2) (ground arith) in
      ((a + b) % u64_mod / 2, rw (k, ea, eb) refl)
  | inr k ↦ let (a, ea) = cell_inside l (n / 2) (ground arith) in (a, rw (k, ea) refl)
]

middle_double_answers :
    (d : Double) (l : List d.F) (n : ℕ)
    → length l ≡ n
    → 0 < n
    → (x : d.F) × (middle_double d l n ≡ some x)
unfolding middle_double
middle_double_answers d l n e some_cells = elim (Bool-cases (n % 2 == 0)) [
  | inl k ↦
      let (a, ea) = cell_inside l (n / 2 - 1) (ground arith) in
      let (b, eb) = cell_inside l (n / 2) (ground arith) in
      (d.div (d.add a b) d.f2, rw (k, ea, eb) refl)
  | inr k ↦ let (a, ea) = cell_inside l (n / 2) (ground arith) in (a, rw (k, ea) refl)
]

all_cells : {A : Type 0} (l : List A) (n : ℕ) → length l ≡ n → first_cells n l ≡ some l
all_cells l n e = subst (λ k. first_cells k l ≡ some l) e (first_cells_all l)

pub gb_stats_median_uint64-answers :
    (q : Qsort ℕ) (malloc : ℕ → Bool) (l : List ℕ) (n : ℕ)
    → length l ≡ n
    → 0 < n
    → malloc (n * 8 % u64_mod) ≡ true
    → (x : ℕ) × (gb_stats_median_uint64 q malloc (some l) n true ≡ some (pos 0, some x))
unfolding gb_stats_median_uint64
gb_stats_median_uint64-answers q malloc l n e some_cells granted =
    let (x, k) =
      middle_answers (q.qsort compare_u64 l) n (q.length-qsort compare_u64 l ∙ e) some_cells in
    let test : (n == 0) ≡ false = ground arith in (x, rw (test, granted, all_cells l n e, k) refl)

pub gb_stats_median_double-answers :
    (d : Double) (q : Qsort d.F) (malloc : ℕ → Bool) (l : List d.F) (n : ℕ)
    → length l ≡ n
    → 0 < n
    → malloc (n * 8 % u64_mod) ≡ true
    → (x : d.F) × (gb_stats_median_double d q malloc (some l) n true ≡ some (pos 0, some x))
unfolding gb_stats_median_double
gb_stats_median_double-answers d q malloc l n e some_cells granted =
    let (x, k) =
      middle_double_answers d (q.qsort (compare_double d) l) n
        (q.length-qsort (compare_double d) l ∙ e) some_cells in
    let test : (n == 0) ≡ false = ground arith in (x, rw (test, granted, all_cells l n e, k) refl)
