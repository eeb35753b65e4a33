-- ===== src/Stats/Sorting.antt =====
-- gb_stats_sort: the comparison is an order, and the struct that is left is valid.
use mathlib.Core.List.{Perm}
use mathlib.Core.List.Perm
use gatebench.Base.{
  ℕ, ◌≤◌, ◌≡◌, refl, Bool, true, false, Option, none, some, List, [], ◌∷◌, arith, length,
  Bool-cases, inl, inr, ◌⊎◌, ◌==◌, All,
}
use gatebench.Base.Sort.{Qsort, IsOrder, IsSortedBy, LeBy, is_pos}
use gatebench.Stats.{GbStats, stored, compare_u64, sort_stats}
use gatebench.Stats.Growth.{IsValid}

pub compare_u64-IsOrder : IsOrder compare_u64
unfolding compare_u64
compare_u64-IsOrder = record { total = λ a b h. ground arith; trans = λ a b c h k. ground arith }

pub compare_u64-le : (a b : ℕ) → is_pos (compare_u64 a b) ≡ false → a ≤ b
unfolding compare_u64
compare_u64-le a b h = ground arith

-- No value stands before a smaller one.
abbrev pub IsAscending : List ℕ → Type 0
IsAscending [] = Unit
IsAscending (x ∷ xs) = All (λ y. x ≤ y) xs × IsAscending xs

All-le : (x : ℕ) (l : List ℕ) → All (LeBy compare_u64 x) l → All (λ y. x ≤ y) l
All-le x [] h = tt
All-le x (y ∷ l) h = (compare_u64-le x y h.0, All-le x l h.1)

sorted-IsAscending : (l : List ℕ) → IsSortedBy compare_u64 l → IsAscending l
sorted-IsAscending [] h = tt
sorted-IsAscending (x ∷ l) h = (All-le x l h.0, sorted-IsAscending l h.1)

-- A valid struct after gb_stats_sort: the same values rearranged, valid, and in ascending order, also
-- by the comparison that later searches rely on.
pub record Sorted (s t : GbStats) : Type 0 where
  pub valid : IsValid t
  pub ascending : IsAscending (stored t)
  pub in_order : IsSortedBy compare_u64 (stored t)
  pub flagged : (t.count ≡ 0) ⊎ (t.sorted ≡ true)
  pub same_values : Perm (stored t) (stored s)
  pub same_count : t.count ≡ s.count
  pub same_capacity : t.capacity ≡ s.capacity

module _ (q : Qsort ℕ) where
  sorted_by_call :
      (s : GbStats)
      → IsValid s
      → Sorted s (record s { values = some (q.qsort compare_u64 (stored s)); sorted = true })
  sorted_by_call s v =
      let up = q.qsort-IsSortedBy compare_u64 (stored s) compare_u64-IsOrder in
      record {
        valid = record {
          counted = omega (arith, q.length-qsort compare_u64 (stored s), v.counted);
          fits = v.fits;
          truly_sorted = λ e. up;
        };
        flagged = inr refl;
        ascending = sorted-IsAscending _ up;
        in_order = up;
        same_values = q.qsort-perm compare_u64 (stored s);
        same_count = refl;
        same_capacity = refl;
      }

  kept :
      (s : GbStats)
      → IsValid s
      → IsSortedBy compare_u64 (stored s)
      → (s.count ≡ 0) ⊎ (s.sorted ≡ true)
      → Sorted s s
  kept s v up f = record {
    flagged = f;
    valid = v;
    ascending = sorted-IsAscending _ up;
    in_order = up;
    same_values = Perm.refl (stored s);
    same_count = refl;
    same_capacity = refl;
  }

  short_is_sorted : (l : List ℕ) → length l ≡ 0 → IsSortedBy compare_u64 l
  short_is_sorted [] e = tt
  short_is_sorted (x ∷ l) e = absurd (omega arith)

  sort_present :
      (vs : List ℕ) (n cap : ℕ) (b : Bool)
      → let s : GbStats = record { values = some vs; count = n; capacity = cap; sorted = b } in
        IsValid s → Sorted s (sort_stats q s)
  unfolding sort_stats
  sort_present vs n cap true v = elim (Bool-cases (n == 0)) [
    | inl z ↦ rw (z, sort_stats) (kept _ v (v.truly_sorted refl) (inr refl))
    | inr z ↦ rw (z, sort_stats) (kept _ v (v.truly_sorted refl) (inr refl))
  ]
  sort_present vs n cap false v = elim (Bool-cases (n == 0)) [
    | inl z ↦ rw (z, sort_stats) (kept _ v (short_is_sorted vs (ground arith)) (inl (ground arith)))
    | inr z ↦ rw (z, sort_stats) (sorted_by_call _ v)
  ]

  sort_any :
      (values : Option (List ℕ)) (n cap : ℕ) (b : Bool)
      → let s : GbStats = record { values = values; count = n; capacity = cap; sorted = b } in
        IsValid s → Sorted s (sort_stats q s)
  unfolding sort_stats
  sort_any none n cap b v = kept _ v tt (inl (omega (arith, v.counted)))
  sort_any (some vs) n cap b v = sort_present vs n cap b v

  -- Sorting a valid struct rearranges its values so that none stands before a smaller one, and keeps
  -- it valid with its number of values and its room, whether the flag let it skip the call of qsort
  -- or not; the flag is set unless there are no values.
  pub sort_stats-Sorted : (s : GbStats) → IsValid s → Sorted s (sort_stats q s)
  sort_stats-Sorted s v = sort_any s.values s.count s.capacity s.sorted v
