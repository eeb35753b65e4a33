-- ===== src/Stats/Order.antt =====
-- The order statistics of src/stats.c. Each function returns `none` if it would read outside the
-- array, else its code, the struct, and what it stores through `out`; `out` says that the pointer
-- is not NULL.
use gatebench.Base.{
  ℕ, ◌+◌, ◌-◌, ◌*◌, ◌/◌, ◌%◌, Bool, ◌||◌, not, Option, none, some, List, ℤ, pos, neg, einval,
  enomem, u64_mod, ◌==◌, if◌then◌else◌, get_elem?, first_cells,
}
use gatebench.Base.Sort.{Qsort}
use gatebench.Base.Double.{Double}
use gatebench.Stats.{GbStats, stored, is_empty, sort_stats, compare_u64}

abbrev pub Reply : Type 0 → Type 0
Reply A = Option (ℤ × Option GbStats × Option A)

-- return -EINVAL
abbrev pub refuse : {A : Type 0} → Option GbStats → Reply A
refuse s = some (neg einval, s, none)

-- *out = a cell of the array; return 0
abbrev pub answer : {A : Type 0} → GbStats → Option A → Reply A
answer s none = none
answer s (some v) = some (pos 0, some s, some v)

abbrev pub cell : GbStats → ℕ → Option ℕ
cell s i = get_elem? (stored s) i

-- (copy[count / 2 - 1] + copy[count / 2]) / 2 in uint64_t, or the middle cell
unfoldable pub middle : List ℕ → ℕ → Option ℕ
middle copy count =
    if count % 2 == 0
    then (elim (get_elem? copy (count / 2 - 1)) [
      | none ↦ none
      | some a ↦ elim (get_elem? copy (count / 2)) [
        | none ↦ none
        | some b ↦ some ((a + b) % u64_mod / 2)
      ]
    ])
    else get_elem? copy (count / 2)

module _ (q : Qsort ℕ) where
  unfoldable pub gb_stats_min : Option GbStats → Bool → Reply ℕ
  gb_stats_min none out = refuse none
  gb_stats_min (some s) out =
      if is_empty s || not out
      then refuse (some s)
      else let s' = sort_stats q s in answer s' (cell s' 0)

  unfoldable pub gb_stats_max : Option GbStats → Bool → Reply ℕ
  gb_stats_max none out = refuse none
  gb_stats_max (some s) out =
      if is_empty s || not out
      then refuse (some s)
      else let s' = sort_stats q s in answer s' (cell s' (s'.count - 1))

  -- The code and what is stored through `out`; `none` for a read outside `values`.
  unfoldable pub gb_stats_median_uint64 :
      (ℕ → Bool) → Option (List ℕ) → ℕ → Bool → Option (ℤ × Option ℕ)
  unfolding middle
  gb_stats_median_uint64 malloc none count out = some (neg einval, none)
  gb_stats_median_uint64 malloc (some values) count out =
      if count == 0 || not out
      then some (neg einval, none)
      else if not (malloc (count * 8 % u64_mod))
      then some (neg enomem, none)
      else elim (first_cells count values) [
        | none ↦ none
        | some copy ↦ elim (middle (q.qsort compare_u64 copy) count) [
          | none ↦ none
          | some m ↦ some (pos 0, some m)
        ]
      ]

module _ (d : Double) where
  open d use {F, of_ℕ, to_ℕ, add, sub, mul, floor, ceil}

  -- The block behind the tests of `p`: the cells on both sides of p * (count - 1), interpolated.
  unfoldable pub interpolate : GbStats → F → Option ℕ
  interpolate s p =
      let idx = mul p (of_ℕ (s.count - 1)) in
      let lo = to_ℕ (floor idx) in
      let hi = to_ℕ (ceil idx) in
      if lo == hi then cell s lo else elim (cell s lo) [
        | none ↦ none
        | some a ↦ elim (cell s hi) [
          | none ↦ none
          | some b ↦ some (to_ℕ (add (of_ℕ a) (mul (sub idx (of_ℕ lo)) (sub (of_ℕ b) (of_ℕ a)))))
        ]
      ]

  -- (a > b) - (a < b)
  abbrev pub compare_double : F → F → ℤ
  compare_double a b =
      if d.lt b a then (if d.lt a b then pos 0 else pos 1) else (if d.lt a b then neg 1 else pos 0)

  -- (copy[count / 2 - 1] + copy[count / 2]) / 2.0, or the middle cell
  unfoldable pub middle_double : List F → ℕ → Option F
  middle_double copy count =
      if count % 2 == 0
      then (elim (get_elem? copy (count / 2 - 1)) [
        | none ↦ none
        | some a ↦ elim (get_elem? copy (count / 2)) [
          | none ↦ none
          | some b ↦ some (d.div (add a b) d.f2)
        ]
      ])
      else get_elem? copy (count / 2)

  unfoldable pub gb_stats_median_double :
      Qsort F → (ℕ → Bool) → Option (List F) → ℕ → Bool → Option (ℤ × Option F)
  unfolding middle_double
  gb_stats_median_double q malloc none count out = some (neg einval, none)
  gb_stats_median_double q malloc (some values) count out =
      if count == 0 || not out
      then some (neg einval, none)
      else if not (malloc (count * 8 % u64_mod))
      then some (neg enomem, none)
      else elim (first_cells count values) [
        | none ↦ none
        | some copy ↦ elim (middle_double (q.qsort compare_double copy) count) [
          | none ↦ none
          | some x ↦ some (pos 0, some x)
        ]
      ]

module _ (q : Qsort ℕ) (d : Double) where
  open d use {F, lt, le, f0, f1}

  unfoldable pub gb_stats_percentile : Option GbStats → F → Bool → Reply ℕ
  gb_stats_percentile none p out = refuse none
  gb_stats_percentile (some s) p out =
      if is_empty s || not out
      then refuse (some s)
      else if lt p f0 || lt f1 p
      then refuse (some s)
      else let s' = sort_stats q s in
        if le p f0
        then answer s' (cell s' 0)
        else if le f1 p
        then answer s' (cell s' (s'.count - 1))
        else answer s' (interpolate d s' p)
