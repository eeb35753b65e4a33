-- ===== src/Race/Slots.antt =====
-- What the slots of race_record_extack say of the messages that were recorded.
use gatebench.Base.{
  ℕ, suc, ◌+◌, ◌%◌, ◌<◌, ◌^◌, ◌≡◌, ◌∙◌, refl, ap, sym, subst, Bool, true, false, ◌||◌, ◌&&◌, none,
  some, List, [], ◌∷◌, u64_mod, ltb, ◌==◌, if◌then◌else◌, str_eq, str_eq_sound, str_eq_refl, length,
  arith, Bool-cases, ◌⊎◌, inl, inr,
}
use gatebench.Base.Libc.{Bytes}
use gatebench.Race.Extack.{ExtackEntry, holds, count_again}

-- How often a message was recorded.
abbrev pub occurrences : Bytes → List Bytes → ℕ
occurrences k [] = 0
occurrences k (m ∷ h) = (if str_eq k m then 1 else 0) + occurrences k h

abbrev pub counts : List ExtackEntry → ℕ
counts [] = 0
counts (e ∷ es) = e.count + counts es

abbrev pub held : Bytes → List ExtackEntry → Bool
held k [] = false
held k (e ∷ es) = holds k e || held k es

abbrev pub free : List ExtackEntry → Bool
free [] = false
free (e ∷ es) = (e.count == 0) || free es

-- Each slot in use counts its message as f does.
abbrev pub AreExact : (Bytes → ℕ) → List ExtackEntry → Type 0
AreExact f [] = Unit
AreExact f (e ∷ es) = (ltb 0 e.count ≡ true → e.count ≡ f e.msg) × AreExact f es

-- No two slots in use hold the same message.
abbrev pub AreDistinct : List ExtackEntry → Type 0
AreDistinct [] = Unit
AreDistinct (e ∷ es) = (ltb 0 e.count ≡ true → held e.msg es ≡ false) × AreDistinct es

abbrev pub more : Bytes → (Bytes → ℕ) → Bytes → ℕ
more msg f k = (if str_eq k msg then 1 else 0) + f k

pub or_false : (a b : Bool) → (a || b) ≡ false → (a ≡ false) × (b ≡ false)
or_false true b e = cc
or_false false b e = (refl, e)

pub and_false : (a b : Bool) → a ≡ true → (a && b) ≡ false → b ≡ false
and_false true b h e = e
and_false false b h e = cc

pub and_true : (a b : Bool) → (a && b) ≡ true → (a ≡ true) × (b ≡ true)
and_true true b e = (refl, e)
and_true false b e = cc

pub str_eq_comm : (a b : Bytes) → str_eq a b ≡ false → str_eq b a ≡ false
str_eq_comm a b e = elim (Bool-cases (str_eq b a)) [
  | inl h ↦
      absurd
        (false_true (sym e ∙ (subst (λ k. str_eq k b ≡ true) (str_eq_sound b a h) (str_eq_refl b))))
  | inr h ↦ h
]
  where
    false_true : false ≡ true → ⊥
    false_true h = cc

pub head-unaffected :
    (msg : Bytes) (f : Bytes → ℕ) (e : ExtackEntry)
    → holds msg e ≡ false
    → (ltb 0 e.count ≡ true → e.count ≡ f e.msg)
    → ltb 0 e.count ≡ true
    → e.count ≡ more msg f e.msg
head-unaffected msg f e n x used =
    rw (and_false (ltb 0 e.count) (str_eq e.msg msg) used n) (omega (arith, x used))

pub unaffected :
    (msg : Bytes) (f : Bytes → ℕ) (es : List ExtackEntry)
    → held msg es ≡ false
    → AreExact f es
    → AreExact (more msg f) es
unaffected msg f [] n x = tt
unaffected msg f (e ∷ es) n x =
    let (here, there) = or_false (holds msg e) (held msg es) n in
    (head-unaffected msg f e here x.0, unaffected msg f es there x.1)

pub record IsCounted (msg : Bytes) (f : Bytes → ℕ) (es es' : List ExtackEntry) : Type 0 where
  pub pass : count_again msg es ≡ some es'
  pub was_held : held msg es ≡ true
  pub exact : AreExact (more msg f) es'
  pub distinct : AreDistinct es'
  pub one_more : counts es' ≡ counts es + 1
  pub same_length : length es' ≡ length es
  pub same_free : free es' ≡ free es
  pub same_held : (k : Bytes) → held k es' ≡ held k es

Ishere-IsCounted :
    (msg : Bytes) (f : Bytes → ℕ) (e : ExtackEntry) (es : List ExtackEntry)
    → holds msg e ≡ true
    → AreExact f (e ∷ es)
    → AreDistinct (e ∷ es)
    → counts (e ∷ es) + 1 < 2 ^ 64
    → IsCounted msg f (e ∷ es) (record e { count = (e.count + 1) % u64_mod } ∷ es)
unfolding count_again
Ishere-IsCounted msg f e es h x d small =
    let (used, same) = and_true (ltb 0 e.count) (str_eq e.msg msg) h in
    let others : held msg es ≡ false =
      subst (λ k. held k es ≡ false) (str_eq_sound e.msg msg same) (d.0 used) in
    let next : (e.count + 1) % u64_mod ≡ e.count + 1 = omega arith in
    let still : ltb 0 ((e.count + 1) % u64_mod) ≡ true = ground (arith, next) in
    record {
      pass = rw h refl;
      was_held = rw h refl;
      exact = (λ k. rw (next, same) (omega (arith, x.0 used)), unaffected msg f es others x.1);
      distinct = (λ k. d.0 used, d.1);
      one_more = omega (arith, next);
      same_length = refl;
      same_free = ground (arith, next, used);
      same_held = λ k. rw (still, used) refl;
    }

Isthere-IsCounted :
    (msg : Bytes) (f : Bytes → ℕ) (e : ExtackEntry) (es es' : List ExtackEntry)
    → holds msg e ≡ false
    → (ltb 0 e.count ≡ true → e.count ≡ f e.msg)
    → (ltb 0 e.count ≡ true → held e.msg es ≡ false)
    → IsCounted msg f es es'
    → IsCounted msg f (e ∷ es) (e ∷ es')
unfolding count_again
Isthere-IsCounted msg f e es es' n x d c = record {
  pass = rw (n, c.pass) refl;
  was_held = rw (n, c.was_held) refl;
  exact = (head-unaffected msg f e n x, c.exact);
  distinct = (λ used. c.same_held e.msg ∙ d used, c.distinct);
  one_more = omega (arith, c.one_more);
  same_length = ap suc c.same_length;
  same_free = ap (λ b. (e.count == 0) || b) c.same_free;
  same_held = λ k. ap (λ b. holds k e || b) (c.same_held k);
}

abbrev pub IsPassed : Bytes → (Bytes → ℕ) → List ExtackEntry → Type 0
IsPassed msg f es =
    ((count_again msg es ≡ none) × (held msg es ≡ false))
    ⊎ ((es' : List ExtackEntry) × IsCounted msg f es es')

pub count_again_cases :
    (msg : Bytes) (f : Bytes → ℕ) (es : List ExtackEntry)
    → AreExact f es
    → AreDistinct es
    → counts es + 1 < 2 ^ 64
    → IsPassed msg f es
unfolding count_again
count_again_cases msg f [] x d small = inl (refl, refl)
count_again_cases msg f (e ∷ es) x d small = elim (Bool-cases (holds msg e)) [
  | inl h ↦
      inr
        (record e { count = (e.count + 1) % u64_mod } ∷ es, Ishere-IsCounted msg f e es h x d small)
  | inr n ↦ elim (count_again_cases msg f es x.1 d.1 (omega arith)) [
    | inl (q, k) ↦ inl (rw (n, q) refl, rw (n, k) refl)
    | inr (es', c) ↦ inr (e ∷ es', Isthere-IsCounted msg f e es es' n x.0 d.0 c)
  ]
]
