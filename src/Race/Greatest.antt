-- ===== src/Race/Greatest.antt =====
-- The breakdown of race_print_err_breakdown of src/race.c shows the most frequent errors.
use gatebench.Base.{
  ℕ, zero, suc, ◌+◌, ◌≤◌, ◌<◌, ◌≡◌, refl, sym, subst, List, [], ◌∷◌, ltb, ◌==◌, length, length-set,
  All, arith, Bool-cases, ◌⊎◌, inl, inr, set, get_or,
}
use gatebench.Race.Top.{ErrTop, none_yet, min_from, min_idx, offer}
use gatebench.Race.Exchange.{Lists}

abbrev count_of : ErrTop → ℕ
count_of t = t.count

abbrev pub Low : ℕ → List ErrTop → Type 0
Low c ts = All (λ (t : ErrTop). c ≤ t.count) ts

-- Where min_from ends: at min_idx, or at an index of the list, with the least count.
record Least (ts : List ErrTop) (i min_idx low k : ℕ) : Type 0 where
  least : ℕ
  bound : least ≤ low
  lowest : Low least ts
  place :
      ((k ≡ min_idx) × (least ≡ low))
      ⊎ ((j : ℕ) × (k ≡ i + j) × (j < length ts) × (least ≡ (get_or ts j none_yet).count))

Low-trans : (a b : ℕ) (ts : List ErrTop) → a ≤ b → Low b ts → Low a ts
Low-trans a b [] h l = tt
Low-trans a b (t ∷ ts) h l = (omega (arith, l.0), Low-trans a b ts h l.1)

min_from-Least :
    (ts : List ErrTop) (i min_idx low : ℕ) → Least ts i min_idx low (min_from ts i min_idx low)
unfolding min_from
min_from-Least [] i min_idx low = record {
  least = low;
  bound = omega arith;
  lowest = tt;
  place = inl (refl, refl);
}
min_from-Least (t ∷ ts) i min_idx low = elim (Bool-cases (ltb t.count low)) [
  | inl e ↦
      let r = min_from-Least ts (i + 1) i t.count in
      rw (min_from, e)
        (record {
          least = r.least;
          bound = ground (arith, r.bound);
          lowest = (r.bound, r.lowest);
          place = elim r.place [
            | inl (p, q) ↦ inr (0, omega arith, omega arith, q)
            | inr (j, p, q, l) ↦ inr (suc j, omega arith, omega arith, l)
          ];
        })
  | inr e ↦
      let r = min_from-Least ts (i + 1) min_idx low in
      rw (min_from, e)
        (record {
          least = r.least;
          bound = r.bound;
          lowest = (ground (arith, r.bound), r.lowest);
          place = elim r.place [
            | inl (p, q) ↦ inl (p, q)
            | inr (j, p, q, l) ↦ inr (suc j, omega arith, omega arith, l)
          ];
        })
]

-- min_idx is the index of a least entry.
min_idx-Low :
    (ts : List ErrTop)
    → 0 < length ts
    → (min_idx ts < length ts) × Low (get_or ts (min_idx ts) none_yet).count ts
min_idx-Low [] h = absurd (omega arith)
min_idx-Low (t ∷ ts) h =
    let r = min_from-Least ts 1 0 t.count in
    elim r.place [
      | inl (p, q) ↦
          subst Fits (sym p)
            (omega arith, (omega arith, Low-trans t.count r.least ts (omega (arith, q)) r.lowest))
      | inr (j, p, q, l) ↦
          let at_j : suc j ≡ min_from ts 1 0 t.count = omega (arith, p) in
          subst Fits at_j (
            omega arith,
            (
              omega (arith, r.bound, l),
              Low-trans (get_or ts j none_yet).count r.least ts (omega (arith, l)) r.lowest,
            ),
          )
    ]
  where
    Fits : ℕ → Type 0
    Fits k = (k < length (t ∷ ts)) × Low (get_or (t ∷ ts) k none_yet).count (t ∷ ts)

Lists-set : (ts : List ErrTop) (k : ℕ) (v : ErrTop) → k < length ts → Lists v (set ts k v)
Lists-set [] k v h = absurd (omega arith)
Lists-set (t ∷ ts) zero v h = inl refl
Lists-set (t ∷ ts) (suc k) v h = inr (Lists-set ts k v (omega arith))

-- What stood in the list still does, or it is what was written over.
still_listed :
    (ts : List ErrTop) (k : ℕ) (x v : ErrTop)
    → Lists x ts
    → Lists x (set ts k v) ⊎ (get_or ts k none_yet ≡ x)
still_listed [] k x v h = absurd h
still_listed (t ∷ ts) zero x v h = elim h [ inl e ↦ inr e | inr r ↦ inl (inr r) ]
still_listed (t ∷ ts) (suc k) x v h = elim h [
  | inl e ↦ inl (inl e)
  | inr r ↦ elim (still_listed ts k x v r) [ inl l ↦ inl (inr l) | inr e ↦ inr e ]
]

All-set :
    (P : ErrTop → Type 0) (ts : List ErrTop) (k : ℕ) (v : ErrTop)
    → All P ts
    → P v
    → All P (set ts k v)
All-set P [] k v h p = tt
All-set P (t ∷ ts) zero v h p = (p, h.1)
All-set P (t ∷ ts) (suc k) v h p = (h.0, All-set P ts k v h.1 p)

Low-all :
    (P : ErrTop → Type 0) (ts : List ErrTop) (k : ℕ)
    → All P ts
    → k < length ts
    → P (get_or ts k none_yet)
Low-all P [] k h l = absurd (omega arith)
Low-all P (t ∷ ts) zero h l = h.0
Low-all P (t ∷ ts) (suc k) h l = Low-all P ts k h.1 (omega arith)

-- An error number with its count is among the five, or none of the five has a smaller count.
abbrev pub Fate : ErrTop → List ErrTop → Type 0
Fate x ts = Lists x ts ⊎ Low x.count ts

module _ (ts : List ErrTop) (some_cells : 0 < length ts) (new : ErrTop) where
  lowest : ErrTop
  lowest = get_or ts (min_idx ts) none_yet

  written-Fate :
      (x : ErrTop)
      → (get_or ts (min_idx ts) none_yet).count < new.count
      → Fate x ts
      → Fate x (set ts (min_idx ts) new)
  written-Fate x less f =
      let (inside, low) = min_idx-Low ts some_cells in
      elim f [
        | inl l ↦ elim (still_listed ts (min_idx ts) x new l) [
          | inl s ↦ inl s
          | inr e ↦ inr (
              All-set (λ t. x.count ≤ t.count) ts (min_idx ts) new
                (subst (λ (y : ErrTop). Low y.count ts) e low)
                (subst (λ (y : ErrTop). y.count ≤ new.count) e (omega arith)))
        ]
        | inr b ↦ inr (
            All-set (λ t. x.count ≤ t.count) ts (min_idx ts) new b
              (omega (arith, Low-all (λ (t : ErrTop). x.count ≤ t.count) ts (min_idx ts) b inside)))
      ]

  pub offer-Fate : (x : ErrTop) → Fate x ts → Fate x (offer new ts)
  offer-Fate x f = elim (Bool-cases (new.count == 0)) [
    | inl z ↦ rw (offer, z) f
    | inr z ↦ elim (Bool-cases (ltb (get_or ts (min_idx ts) none_yet).count new.count)) [
      | inl e ↦ rw (offer, z, e) (written-Fate x (ground arith) f)
      | inr e ↦ rw (offer, z, e) f
    ]
  ]

  zero-Low : (us : List ErrTop) → new.count ≡ 0 → Low new.count us
  zero-Low [] z = tt
  zero-Low (u ∷ us) z = (omega arith, zero-Low us z)

  pub offered-Fate : Fate new (offer new ts)
  offered-Fate =
      let (inside, low) = min_idx-Low ts some_cells in
      elim (Bool-cases (new.count == 0)) [
        | inl z ↦ rw (offer, z) (inr (zero-Low ts (ground arith)))
        | inr z ↦ elim (Bool-cases (ltb (get_or ts (min_idx ts) none_yet).count new.count)) [
          | inl e ↦ rw (offer, z, e) (inl (Lists-set ts (min_idx ts) new inside))
          | inr e ↦
              rw (offer, z, e)
                (inr (
                  Low-trans new.count (get_or ts (min_idx ts) none_yet).count ts (ground arith)
                    low))
        ]
      ]

  pub offer-All : (P : ErrTop → Type 0) → All P ts → P new → All P (offer new ts)
  offer-All P h p = elim (Bool-cases (new.count == 0)) [
    | inl z ↦ rw (offer, z) h
    | inr z ↦ elim (Bool-cases (ltb (get_or ts (min_idx ts) none_yet).count new.count)) [
      | inl e ↦ rw (offer, z, e) (All-set P ts (min_idx ts) new h p)
      | inr e ↦ rw (offer, z, e) h
    ]
  ]

  pub length-offer : length (offer new ts) ≡ length ts
  length-offer = elim (Bool-cases (new.count == 0)) [
    | inl z ↦ rw (offer, z) refl
    | inr z ↦ elim (Bool-cases (ltb (get_or ts (min_idx ts) none_yet).count new.count)) [
      | inl e ↦ rw (offer, z, e) (length-set ts (min_idx ts) new)
      | inr e ↦ rw (offer, z, e) refl
    ]
  ]
