-- ===== src/Race/Errors.antt =====
-- The error counts of the race workers.
use gatebench.Base.{
  ℕ, zero, suc, ◌+◌, ◌≤◌, ◌<◌, ◌^◌, ◌%◌, ◌≡◌, refl, some, List, [], ◌∷◌, ℤ, pos, ltb, ◌==ℤ◌, abs,
  if◌then◌else◌, length, ap, Bool, true, false, not, ◌&&◌, ◌==◌, get_or, arith, u64_mod, Bool-cases,
  inl, inr, ◌∙◌,
}
use gatebench.Race.{race_record_err, race_errno_max, put_count}

abbrev pub total : List ℕ → ℕ
total [] = 0
total (x ∷ xs) = x + total xs

-- There is a count for each error number, and together they are at most the errors.
pub record IsTallied (errors : ℕ) (counts : List ℕ) : Type 0 where
  pub room : length counts ≡ race_errno_max
  pub covered : total counts ≤ errors

cell-le-total : (xs : List ℕ) (i : ℕ) → get_or xs i 0 ≤ total xs
cell-le-total [] i = omega arith
cell-le-total (x ∷ xs) zero = omega arith
cell-le-total (x ∷ xs) (suc i) = omega (arith, cell-le-total xs i)

put_count-room : (xs : List ℕ) (i v : ℕ) → i < length xs → length (put_count xs i v) ≡ length xs
put_count-room [] i v h = absurd (omega arith)
put_count-room (x ∷ xs) zero v h = refl
put_count-room (x ∷ xs) (suc i) v h = ap suc (put_count-room xs i v (omega arith))

total-put_count :
    (xs : List ℕ) (i v : ℕ)
    → i < length xs
    → total (put_count xs i v) + get_or xs i 0 ≡ total xs + v
total-put_count [] i v h = absurd (omega arith)
total-put_count (x ∷ xs) zero v h = omega arith
total-put_count (x ∷ xs) (suc i) v h = omega (arith, total-put_count xs i v (omega arith))

-- The count that changes, and the others.
put_count-get_or :
    (xs : List ℕ) (i v j : ℕ)
    → i < length xs
    → get_or (put_count xs i v) j 0 ≡ (if j == i then v else get_or xs j 0)
put_count-get_or [] i v j h = absurd (omega arith)
put_count-get_or (x ∷ xs) zero v zero h = refl
put_count-get_or (x ∷ xs) zero v (suc j) h = ground arith
put_count-get_or (x ∷ xs) (suc i) v zero h = ground arith
put_count-get_or (x ∷ xs) (suc i) v (suc j) h =
    put_count-get_or xs i v j (omega arith) ∙ ground arith

-- What a code adds to the count of error number j.
abbrev pub added : ℤ → ℕ → ℕ
added ret j = if not (ret ==ℤ pos 0) && ((j == abs ret) && ltb j race_errno_max) then 1 else 0

-- The count of one error number more, if there is one.
abbrev one_more : List ℕ → ℕ → List ℕ
one_more counts err =
    if ltb err race_errno_max
    then put_count counts err ((get_or counts err 0 + 1) % u64_mod)
    else counts

one_more-IsTallied :
    (errors : ℕ) (counts : List ℕ) (err : ℕ)
    → IsTallied errors counts
    → errors + 1 < 2 ^ 64
    → IsTallied (errors + 1) (one_more counts err)
one_more-IsTallied errors counts err t small = elim (Bool-cases (ltb err race_errno_max)) [
  | inl e ↦
      let there : err < length counts = ground (arith, t.room) in
      rw e (record {
        room = put_count-room counts err _ there ∙ t.room;
        covered = omega (
          arith,
          t.covered,
          cell-le-total counts err,
          total-put_count counts err ((get_or counts err 0 + 1) % u64_mod) there,
        );
      })
  | inr e ↦ rw e (record { room = t.room; covered = omega (arith, t.covered) })
]

one_more-get_or :
    (errors : ℕ) (counts : List ℕ) (err j : ℕ)
    → IsTallied errors counts
    → errors + 1 < 2 ^ 64
    → get_or (one_more counts err) j 0
      ≡ get_or counts j 0 + (if (j == err) && ltb j race_errno_max then 1 else 0)
one_more-get_or errors counts err j t small = elim (Bool-cases (ltb err race_errno_max)) [
  | inl e ↦
      let there : err < length counts = ground (arith, t.room) in
      rw (one_more, e)
        (put_count-get_or counts err ((get_or counts err 0 + 1) % u64_mod) j there
          ∙ at_place (j == err) refl e)
  | inr e ↦ elim (Bool-cases (j == err)) [
    | inl k ↦ rw (one_more, e, k) (ground (arith, e, k))
    | inr k ↦ rw (one_more, e, k) (omega arith)
  ]
]
  where
    at_place :
        (b : Bool)
        → (j == err) ≡ b
        → ltb err race_errno_max ≡ true
        → (if b then (get_or counts err 0 + 1) % u64_mod else get_or counts j 0)
          ≡ get_or counts j 0 + (if b && ltb j race_errno_max then 1 else 0)
    at_place true k e =
        let same : j ≡ err = ground (arith, k) in
        rw (same, e) (omega (arith, t.covered, cell-le-total counts err))
    at_place false k e = omega arith

-- From counts of which there is one for each of the 4096 error numbers and that do not exceed the
-- errors, and below 2 ^ 64 - 1 errors: race_record_err changes nothing for code 0, and for any other
-- code adds one error, and 1 to the count of its error number if that is below 4096, and to no other;
-- it writes no cell outside the counts, and together they still do not exceed the errors.
pub race_record_err-IsTallied :
    (errors : ℕ) (counts : List ℕ) (ret : ℤ)
    → IsTallied errors counts
    → errors + 1 < 2 ^ 64
    → (counts' : List ℕ) × (race_record_err (some errors) (some counts) ret
        ≡ (some (if ret ==ℤ pos 0 then errors else errors + 1), some counts'))
      × IsTallied (if ret ==ℤ pos 0 then errors else errors + 1) counts'
      × ((j : ℕ) → get_or counts' j 0 ≡ get_or counts j 0 + added ret j)
unfolding race_record_err
race_record_err-IsTallied errors counts ret t small =
    let exact : (errors + 1) % u64_mod ≡ errors + 1 = omega arith in
    elim (Bool-cases (ret ==ℤ pos 0)) [
      | inl e ↦ (counts, rw e refl, rw e t, λ j. rw (added, e) (omega arith))
      | inr e ↦ (
        one_more counts (abs ret),
        rw (e, exact) refl,
        rw e (one_more-IsTallied errors counts (abs ret) t small),
        λ j. rw (added, e) (one_more-get_or errors counts (abs ret) j t small),
      )
    ]
