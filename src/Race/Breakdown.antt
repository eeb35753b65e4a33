-- ===== src/Race/Breakdown.antt =====
-- race_print_err_breakdown of src/race.c from the counts to its lines.
use gatebench.Base.{
  ℕ, zero, suc, ◌+◌, ◌<◌, ◌≡◌, ◌∙◌, refl, sym, subst, false, some, List, [], ◌∷◌, ◌==◌, length, All,
  arith, Bool-cases, inl, inr, get_elem?,
}
use gatebench.Race.Top.{ErrTop, offer, offer_all, printed_tops}
use gatebench.Race.Exchange.{Lists, AtMost, Descends}
use gatebench.Race.Greatest.{Low, Fate, offer-Fate, offered-Fate, offer-All, length-offer}

pub offer_all-length :
    (counts : List ℕ) (err : ℕ) (ts : List ErrTop)
    → 0 < length ts
    → length (offer_all err counts ts) ≡ length ts
unfolding offer_all
offer_all-length [] err ts h = refl
offer_all-length (c ∷ counts) err ts h =
    let new : ErrTop = record { err = err; count = c } in
    let same = length-offer ts h new in
    offer_all-length counts (err + 1) (offer new ts) (omega (arith, same)) ∙ same

offer_all-Fate :
    (counts : List ℕ) (err : ℕ) (ts : List ErrTop) (x : ErrTop)
    → 0 < length ts
    → Fate x ts
    → Fate x (offer_all err counts ts)
unfolding offer_all
offer_all-Fate [] err ts x h f = f
offer_all-Fate (c ∷ counts) err ts x h f =
    let new : ErrTop = record { err = err; count = c } in
    offer_all-Fate counts (err + 1) (offer new ts) x (omega (arith, length-offer ts h new))
      (offer-Fate ts h new x f)

pub each_offered-Fate :
    (counts : List ℕ) (err : ℕ) (ts : List ErrTop) (i e c : ℕ)
    → 0 < length ts
    → get_elem? counts i ≡ some c
    → e ≡ err + i
    → Fate (record { err = e; count = c }) (offer_all err counts ts)
unfolding offer_all
each_offered-Fate [] err ts i e c h q n = cc
each_offered-Fate (d ∷ counts) err ts zero e c h q n =
    let new : ErrTop = record { err = err; count = d } in
    let at_err : e ≡ err = omega (arith, n) in
    let same : d ≡ c = ground arith in
    offer_all-Fate counts (err + 1) (offer new ts) (record { err = e; count = c })
      (omega (arith, length-offer ts h new))
      (subst (λ k. Fate (record { err = k; count = c }) (offer new ts)) (sym at_err)
        (subst (λ k. Fate (record { err = err; count = k }) (offer new ts)) same
          (offered-Fate ts h new)))
each_offered-Fate (d ∷ counts) err ts (suc i) e c h q n =
    let new : ErrTop = record { err = err; count = d } in
    each_offered-Fate counts (err + 1) (offer new ts) i e c (omega (arith, length-offer ts h new)) q
      (omega (arith, n))

pub offer_all-All :
    (P : ErrTop → Type 0) (counts : List ℕ) (err : ℕ) (ts : List ErrTop)
    → 0 < length ts
    → ((i c : ℕ) → get_elem? counts i ≡ some c → P (record { err = err + i; count = c }))
    → All P ts
    → All P (offer_all err counts ts)
unfolding offer_all
offer_all-All P [] err ts h p a = a
offer_all-All P (d ∷ counts) err ts h p a =
    let new : ErrTop = record { err = err; count = d } in
    offer_all-All P counts (err + 1) (offer new ts) (omega (arith, length-offer ts h new))
      (λ i c q. subst (λ k. P (record { err = k; count = c })) (omega arith) (p (suc i) c q))
      (offer-All ts h new P a
        (subst (λ k. P (record { err = k; count = d })) (omega arith) (p 0 d refl)))

abbrev pub of_top : ErrTop → ℕ
of_top t = t.count

AtMost-zero : (ts : List ErrTop) (x : ErrTop) → AtMost of_top 0 ts → Lists x ts → x.count ≡ 0
AtMost-zero [] x a l = absurd l
AtMost-zero (t ∷ ts) x a (inl e) = subst (λ (y : ErrTop). y.count ≡ 0) e (omega (arith, a.0))
AtMost-zero (t ∷ ts) x a (inr l) = AtMost-zero ts x a.1 l

-- The loop that prints passes over entries of count 0 only.
pub printed-Lists :
    (ts : List ErrTop) (x : ErrTop)
    → Descends of_top ts
    → 0 < x.count
    → Lists x ts
    → Lists x (printed_tops ts)
unfolding printed_tops
printed-Lists [] x d p l = l
printed-Lists (t ∷ ts) x d p l = elim (Bool-cases (t.count == 0)) [
  | inl z ↦ absurd (nothing (ground arith) l)
  | inr z ↦
      rw (printed_tops, z) (elim l [ inl e ↦ inl e | inr r ↦ inr (printed-Lists ts x d.1 p r) ])
]
  where
    nothing : t.count ≡ 0 → Lists x (t ∷ ts) → ⊥
    nothing z l =
        let none_left =
          AtMost-zero (t ∷ ts) x (omega (arith, z), subst (λ k. AtMost of_top k ts) z d.0) l in
        omega (arith, none_left, p)

pub printed-all : (ts : List ErrTop) (c : ℕ) → 0 < c → Low c ts → printed_tops ts ≡ ts
unfolding printed_tops
printed-all [] c p l = refl
printed-all (t ∷ ts) c p l =
    let more : (t.count == 0) ≡ false = ground (arith, l.0) in
    rw (printed_tops, more, printed-all ts c p l.1) refl

-- What is printed has a count above 0.
pub printed-All :
    (P Q : ErrTop → Type 0)
    → ((t : ErrTop) → (t.count == 0) ≡ false → P t → Q t)
    → (ts : List ErrTop) → All P ts
    → All Q (printed_tops ts)
unfolding printed_tops
printed-All P Q f [] a = tt
printed-All P Q f (t ∷ ts) a = elim (Bool-cases (t.count == 0)) [
  | inl z ↦ rw (printed_tops, z) tt
  | inr z ↦ rw (printed_tops, z) (f t z a.0, printed-All P Q f ts a.1)
]

printed-AtMost : (c : ℕ) (ts : List ErrTop) → AtMost of_top c ts → AtMost of_top c (printed_tops ts)
unfolding printed_tops
printed-AtMost c [] a = tt
printed-AtMost c (t ∷ ts) a = elim (Bool-cases (t.count == 0)) [
  | inl z ↦ rw (printed_tops, z) tt
  | inr z ↦ rw (printed_tops, z) (a.0, printed-AtMost c ts a.1)
]

pub printed-Descends : (ts : List ErrTop) → Descends of_top ts → Descends of_top (printed_tops ts)
unfolding printed_tops
printed-Descends [] d = tt
printed-Descends (t ∷ ts) d = elim (Bool-cases (t.count == 0)) [
  | inl z ↦ rw (printed_tops, z) tt
  | inr z ↦ rw (printed_tops, z) (printed-AtMost t.count ts d.0, printed-Descends ts d.1)
]
