-- ===== src/Race/FreeSlot.antt =====
-- A message that no slot holds takes a free one.
use gatebench.Base.{
  ℕ, zero, suc, ◌+◌, ◌≤◌, ◌≡◌, ◌∙◌, refl, ap, Bool, true, false, ◌||◌, none, some, List, [], ◌∷◌,
  ltb, ◌==◌, str_eq, str_eq_refl, length, arith, Bool-cases, ◌⊎◌, inl, inr,
}
use gatebench.Base.Libc.{Bytes}
use gatebench.Race.Extack.{ExtackEntry, at_most, holds, take_slot}
use gatebench.Race.Slots.{
  counts, held, free, AreExact, AreDistinct, more, or_false, and_false, str_eq_comm,
  head-unaffected, unaffected,
}

-- The message takes a slot.
pub record IsHeld (msg : Bytes) (f : Bytes → ℕ) (es es' : List ExtackEntry) : Type 0 where
  pub pass : take_slot msg es ≡ some es'
  pub exact : AreExact (more msg f) es'
  pub distinct : AreDistinct es'
  pub one_more : counts es' ≡ counts es + 1
  pub same_length : length es' ≡ length es
  pub was_free : free es ≡ true
  pub not_held : (k : Bytes) → held k es' ≡ (str_eq msg k || held k es)

at_most_all : (n : ℕ) (s : Bytes) → length s ≤ n → at_most n s ≡ s
unfolding at_most
at_most_all zero [] h = refl
at_most_all zero (c ∷ s) h = absurd (omega arith)
at_most_all (suc n) [] h = refl
at_most_all (suc n) (c ∷ s) h = ap (λ t. c ∷ t) (at_most_all n s (omega arith))

or_swap : (a b c : Bool) → (a || (b || c)) ≡ (b || (a || c))
or_swap true true c = refl
or_swap true false c = refl
or_swap false true c = refl
or_swap false false c = refl

here-IsHeld :
    (msg : Bytes) (f : Bytes → ℕ) (e : ExtackEntry) (es : List ExtackEntry)
    → (e.count == 0) ≡ true
    → length msg ≤ 127
    → f msg ≡ 0
    → held msg es ≡ false
    → AreExact f es
    → AreDistinct es
    → IsHeld msg f (e ∷ es) (record { msg = at_most 127 msg; count = 1 } ∷ es)
unfolding take_slot
here-IsHeld msg f e es z short new n x d =
    let whole : at_most 127 msg ≡ msg = at_most_all 127 msg short in
    let unused : ltb 0 e.count ≡ false = ground arith in
    record {
      pass = rw z refl;
      exact = rw whole (λ k. rw (str_eq_refl msg) (omega arith), unaffected msg f es n x);
      distinct = rw whole (λ k. n, d);
      one_more = ground arith;
      same_length = refl;
      was_free = rw z refl;
      not_held = λ k. rw (whole, unused) refl;
    }

there-IsHeld :
    (msg : Bytes) (f : Bytes → ℕ) (e : ExtackEntry) (es es' : List ExtackEntry)
    → (e.count == 0) ≡ false
    → holds msg e ≡ false
    → (ltb 0 e.count ≡ true → e.count ≡ f e.msg)
    → (ltb 0 e.count ≡ true → held e.msg es ≡ false)
    → IsHeld msg f es es'
    → IsHeld msg f (e ∷ es) (e ∷ es')
unfolding take_slot
there-IsHeld msg f e es es' z n x d c = record {
  pass = rw (z, c.pass) refl;
  exact = (head-unaffected msg f e n x, c.exact);
  distinct = (
    λ used.
        c.not_held e.msg
        ∙ rw (str_eq_comm e.msg msg (and_false (ltb 0 e.count) (str_eq e.msg msg) used n), d used)
            refl,
    c.distinct,
  );
  one_more = omega (arith, c.one_more);
  same_length = ap suc c.same_length;
  was_free = rw (z, c.was_free) refl;
  not_held =
      λ k. ap (λ b. holds k e || b) (c.not_held k) ∙ or_swap (holds k e) (str_eq msg k) (held k es);
}

abbrev pub IsTaken : Bytes → (Bytes → ℕ) → List ExtackEntry → Type 0
IsTaken msg f es =
    ((take_slot msg es ≡ none) × (free es ≡ false))
    ⊎ ((es' : List ExtackEntry) × IsHeld msg f es es')

pub take_slot_cases :
    (msg : Bytes) (f : Bytes → ℕ) (es : List ExtackEntry)
    → length msg ≤ 127
    → (free es ≡ true → f msg ≡ 0)
    → held msg es ≡ false
    → AreExact f es
    → AreDistinct es
    → IsTaken msg f es
unfolding take_slot
take_slot_cases msg f [] short new n x d = inl (refl, refl)
take_slot_cases msg f (e ∷ es) short new n x d =
    let (here, there) = or_false (holds msg e) (held msg es) n in
    elim (Bool-cases (e.count == 0)) [
      | inl z ↦ inr (
        record { msg = at_most 127 msg; count = 1 } ∷ es,
        here-IsHeld msg f e es z short (new (rw z refl)) there x.1 d.1,
      )
      | inr z ↦ elim (take_slot_cases msg f es short (λ k. new (rw (z, k) refl)) there x.1 d.1) [
        | inl (q, k) ↦ inl (rw (z, q) refl, rw (z, k) refl)
        | inr (es', c) ↦ inr (e ∷ es', there-IsHeld msg f e es es' z here x.0 d.0 c)
      ]
    ]
