-- ===== src/Stats/Growth.antt =====
-- The invariant of the sample store, and adding samples.
use gatebench.Base.{
  ℕ, ◌+◌, ◌*◌, ◌%◌, ◌≤◌, ◌<◌, ◌^◌, ◌≡◌, refl, Bool, true, Option, some, [], ◌∷◌, ◌++◌, ℤ, pos, neg,
  enomem, arith, leb, length, length-append, u64_mod, Bool-cases, inl, inr, ap,
}
use gatebench.Base.Sort.{IsSortedBy}
use gatebench.Stats.{GbStats, stored, compare_u64, gb_stats_add, new_capacity, push}

-- `count` cells are in use and fit the array, and the flag tells the truth.
pub record IsValid (s : GbStats) : Type 0 where
  pub counted : length (stored s) ≡ s.count
  pub fits : s.count ≤ s.capacity
  pub truly_sorted : s.sorted ≡ true → IsSortedBy compare_u64 (stored s)

-- What gb_stats_add returns for a valid struct: with code 0 the value behind the others, a valid
-- struct, and at most twice the room or 16 cells; with -ENOMEM the struct as it was.
pub data Added (s : GbStats) (value : ℕ) : ℤ × Option GbStats → Type 0 where
  added :
      (t : GbStats)
      → IsValid t
      → stored t ≡ stored s ++ value ∷ []
      → t.count ≡ s.count + 1
      → t.capacity ≤ 2 * s.capacity + 16
      → Added s value (pos 0, some t)
  full : s.count ≡ s.capacity → Added s value (neg enomem, some s)

pub push-IsValid :
    (s : GbStats) (value : ℕ)
    → IsValid s
    → s.count < s.capacity
    → s.capacity < 2 ^ 59
    → IsValid (push s value)
push-IsValid s value v room small = record {
  counted = omega (arith, length-append {0} (stored s) (value ∷ []), v.counted);
  fits = omega arith;
  truly_sorted = λ e. cc;
}

push-Added :
    (s t : GbStats) (value : ℕ)
    → stored t ≡ stored s
    → length (stored s) ≡ t.count
    → t.count ≡ s.count
    → t.count < t.capacity
    → t.count < 2 ^ 63
    → t.capacity ≤ 2 * s.capacity + 16
    → Added s value (pos 0, some (push t value))
push-Added s t value same counted old room small grown =
    added (push t value)
      (record {
        counted = omega (arith, length-append {0} (stored t) (value ∷ []), ap (length {0}) same);
        fits = omega arith;
        truly_sorted = λ e. cc;
      })
      (ap (λ l. l ++ value ∷ []) same) (omega arith) grown

-- Adding a value to a valid struct of fewer than 2^59 cells, so that no size in bytes wraps, keeps it valid, on every branch.
pub gb_stats_add-Added :
    (realloc : ℕ → Bool) (s : GbStats) (value : ℕ)
    → IsValid s
    → s.capacity < 2 ^ 59
    → Added s value (gb_stats_add realloc (some s) value)
unfolding gb_stats_add
gb_stats_add-Added realloc s value v small = elim (Bool-cases (leb s.capacity s.count)) [
  | inl h ↦ elim (Bool-cases (realloc (new_capacity s * 8 % u64_mod))) [
    | inl r ↦
        rw (h, r)
          (push-Added s (record s { values = some (stored s); capacity = new_capacity s }) value
            refl v.counted refl (ground arith) (omega arith) (ground arith))
    | inr r ↦ rw (h, r) (full (ground arith))
  ]
  | inr h ↦
      rw h (push-Added s s value refl v.counted refl (ground arith) (ground arith) (omega arith))
]
