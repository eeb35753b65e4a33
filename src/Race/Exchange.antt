-- ===== src/Race/Exchange.antt =====
-- The exchange sort of src/race.c: the same entries, in descending order.
use gatebench.Base.{
  ℕ, zero, suc, ◌≤◌, ◌≡◌, ◌∙◌, refl, ap, List, [], ◌∷◌, ltb, length, All, arith, Bool-cases, ◌⊎◌,
  inl, inr,
}
use gatebench.Race.Top.{exchange_behind, exchange_sort}

-- The list has the element.
abbrev pub Lists : {A : Type 0} → A → List A → Type 0
Lists a [] = ⊥
Lists a (x ∷ xs) = (x ≡ a) ⊎ Lists a xs

module _ {A : Type 0} (count_of : A → ℕ) where
  abbrev pub AtLeast : ℕ → List A → Type 0
  AtLeast c [] = Unit
  AtLeast c (x ∷ xs) = (c ≤ count_of x) × AtLeast c xs

  abbrev pub AtMost : ℕ → List A → Type 0
  AtMost c [] = Unit
  AtMost c (x ∷ xs) = (count_of x ≤ c) × AtMost c xs

  abbrev pub Descends : List A → Type 0
  Descends [] = Unit
  Descends (x ∷ xs) = AtMost (count_of x) xs × Descends xs

  -- Where the entries of a list go.
  pub record Moved (xs ys : List A) : Type 1 where
    pub lists : (a : A) → Lists a xs → Lists a ys
    pub each : (P : A → Type 0) → All P xs → All P ys
    pub same_length : length ys ≡ length xs

  unmoved : (xs : List A) → Moved xs xs
  unmoved xs = record { lists = λ a h. h; each = λ P h. h; same_length = refl }

  Moved-trans : (xs ys zs : List A) → Moved xs ys → Moved ys zs → Moved xs zs
  Moved-trans xs ys zs p q = record {
    lists = λ a h. q.lists a (p.lists a h);
    each = λ P h. q.each P (p.each P h);
    same_length = q.same_length ∙ p.same_length;
  }

  Moved-cons : (x : A) (xs ys : List A) → Moved xs ys → Moved (x ∷ xs) (x ∷ ys)
  Moved-cons x xs ys p = record {
    lists = λ a h. elim h [ inl e ↦ inl e | inr k ↦ inr (p.lists a k) ];
    each = λ P h. (h.0, p.each P h.1);
    same_length = ap suc p.same_length;
  }

  Moved-swap : (x y : A) (xs : List A) → Moved (x ∷ y ∷ xs) (y ∷ x ∷ xs)
  Moved-swap x y xs = record {
    lists = λ a h. elim h [
      | inl e ↦ inr (inl e)
      | inr k ↦ elim k [ inl e ↦ inl e | inr r ↦ inr (inr r) ]
    ];
    each = λ P h. (h.1.0, (h.0, h.1.1));
    same_length = refl;
  }

  AtMost-of : (c : ℕ) (xs : List A) → All (λ x. count_of x ≤ c) xs → AtMost c xs
  AtMost-of c [] h = tt
  AtMost-of c (x ∷ xs) h = (h.0, AtMost-of c xs h.1)

  AtMost-all : (c : ℕ) (xs : List A) → AtMost c xs → All (λ x. count_of x ≤ c) xs
  AtMost-all c [] h = tt
  AtMost-all c (x ∷ xs) h = (h.0, AtMost-all c xs h.1)

  record Behind (x : A) (ys : List A) (r : A × List A) : Type 1 where
    moved : Moved (x ∷ ys) (r.0 ∷ r.1)
    above : count_of x ≤ count_of r.0
    greatest : AtMost (count_of r.0) r.1

  exchange_behind-Behind : (x : A) (ys : List A) → Behind x ys (exchange_behind count_of x ys)
  unfolding exchange_behind
  exchange_behind-Behind x [] = record {
    moved = record { lists = λ a h. h; each = λ P h. h; same_length = refl };
    above = omega arith;
    greatest = tt;
  }
  exchange_behind-Behind x (y ∷ ys) = elim (Bool-cases (ltb (count_of x) (count_of y))) [
    | inl e ↦
        let r = exchange_behind count_of y ys in
        let b = exchange_behind-Behind y ys in
        rw (exchange_behind, e)
          (record {
            moved =
                Moved-trans (x ∷ y ∷ ys) (x ∷ r.0 ∷ r.1) (r.0 ∷ x ∷ r.1)
                  (Moved-cons x (y ∷ ys) (r.0 ∷ r.1) b.moved) (Moved-swap x r.0 r.1);
            above = ground (arith, b.above);
            greatest = (ground (arith, b.above), b.greatest);
          })
    | inr e ↦
        let r = exchange_behind count_of x ys in
        let b = exchange_behind-Behind x ys in
        rw (exchange_behind, e)
          (record {
            moved =
                Moved-trans (x ∷ y ∷ ys) (y ∷ r.0 ∷ r.1) (r.0 ∷ y ∷ r.1)
                  (Moved-trans (x ∷ y ∷ ys) (y ∷ x ∷ ys) (y ∷ r.0 ∷ r.1) (Moved-swap x y ys)
                    (Moved-cons y (x ∷ ys) (r.0 ∷ r.1) b.moved))
                  (Moved-swap y r.0 r.1);
            above = b.above;
            greatest = (ground (arith, b.above), b.greatest);
          })
  ]

  pub record Ordered (xs ys : List A) : Type 1 where
    pub moved : Moved xs ys
    pub descends : Descends ys

  pub exchange_sort-Ordered :
      (n : ℕ) (xs : List A) → length xs ≤ n → Ordered xs (exchange_sort count_of n xs)
  unfolding exchange_sort
  exchange_sort-Ordered zero [] h = record { moved = unmoved []; descends = tt }
  exchange_sort-Ordered zero (x ∷ xs) h = absurd (omega arith)
  exchange_sort-Ordered (suc n) [] h = record { moved = unmoved []; descends = tt }
  exchange_sort-Ordered (suc n) (x ∷ xs) h =
      let r = exchange_behind count_of x xs in
      let b = exchange_behind-Behind x xs in
      let rest = exchange_sort-Ordered n r.1 (omega (arith, b.moved.same_length)) in
      record {
        moved =
            Moved-trans (x ∷ xs) (r.0 ∷ r.1) (r.0 ∷ exchange_sort count_of n r.1) b.moved
              (Moved-cons r.0 r.1 (exchange_sort count_of n r.1) rest.moved);
        descends = (
          AtMost-of (count_of r.0) (exchange_sort count_of n r.1) (
              rest.moved.each (λ y. count_of y ≤ count_of r.0)
                (AtMost-all (count_of r.0) r.1 b.greatest)),
          rest.descends,
        );
      }
