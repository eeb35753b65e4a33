-- ===== src/Tests/SampleSort.antt =====
-- A qsort for the runs: insertion.
use mathlib.Core.List.{Perm}
use mathlib.Core.List.Perm
use gatebench.Base.{
  suc, ◌≡◌, refl, ap, ◌∙◌, List, [], ◌∷◌, ℤ, All, All-map, length, if◌then◌else◌, Bool-cases, inl,
  inr,
}
use gatebench.Base.Sort.{is_pos, LeBy, IsSortedBy, IsOrder, Qsort}

module _ {A : Type 0} (cmp : A → A → ℤ) where
  pub ordered_insert : A → List A → List A
  ordered_insert x [] = x ∷ []
  ordered_insert x (y ∷ ys) =
      let rest = ordered_insert x ys in if is_pos (cmp x y) then y ∷ rest else x ∷ y ∷ ys

  unfoldable pub sort : List A → List A
  unfolding ordered_insert
  sort [] = []
  sort (x ∷ xs) = ordered_insert x (sort xs)

  insert-Perm : (x : A) (l : List A) → Perm (ordered_insert x l) (x ∷ l)
  unfolding ordered_insert
  insert-Perm x [] = Perm.rfl
  insert-Perm x (y ∷ ys) = elim (Bool-cases (is_pos (cmp x y))) [
    | inl e ↦
        rw (ordered_insert, e) (Perm.trans (Perm.cons y (insert-Perm x ys)) (Perm.swap x y ys))
    | inr e ↦ rw (ordered_insert, e) Perm.rfl
  ]

  pub sort-Perm : (l : List A) → Perm (sort l) l
  unfolding sort
  sort-Perm [] = Perm.rfl
  sort-Perm (x ∷ xs) = Perm.trans (insert-Perm x (sort xs)) (Perm.cons x (sort-Perm xs))

  length-insert : (x : A) (l : List A) → length (ordered_insert x l) ≡ suc (length l)
  unfolding ordered_insert
  length-insert x [] = refl
  length-insert x (y ∷ ys) = elim (Bool-cases (is_pos (cmp x y))) [
    | inl e ↦ rw (ordered_insert, e) (ap suc (length-insert x ys))
    | inr e ↦ rw (ordered_insert, e) refl
  ]

  pub length-sort : (l : List A) → length (sort l) ≡ length l
  unfolding sort
  length-sort [] = refl
  length-sort (x ∷ xs) = length-insert x (sort xs) ∙ ap suc (length-sort xs)

  insert-All : (P : A → Type 0) (x : A) (l : List A) → P x → All P l → All P (ordered_insert x l)
  unfolding ordered_insert
  insert-All P x [] p h = (p, tt)
  insert-All P x (y ∷ ys) p h = elim (Bool-cases (is_pos (cmp x y))) [
    | inl e ↦ rw (ordered_insert, e) (h.0, insert-All P x ys p h.1)
    | inr e ↦ rw (ordered_insert, e) (p, h)
  ]

  module _ (o : IsOrder cmp) where
    insert-IsSortedBy :
        (x : A) (l : List A) → IsSortedBy cmp l → IsSortedBy cmp (ordered_insert x l)
    unfolding ordered_insert
    insert-IsSortedBy x [] s = (tt, tt)
    insert-IsSortedBy x (y ∷ ys) s = elim (Bool-cases (is_pos (cmp x y))) [
      | inl e ↦
          rw (ordered_insert, e)
            (insert-All (LeBy cmp y) x ys (o.total x y e) s.0, insert-IsSortedBy x ys s.1)
      | inr e ↦ rw (ordered_insert, e) ((e, All-map ys (λ z h. o.trans x y z e h) s.0), s)
    ]

    pub sort-IsSortedBy : (l : List A) → IsSortedBy cmp (sort l)
    unfolding sort
    sort-IsSortedBy [] = tt
    sort-IsSortedBy (x ∷ xs) = insert-IsSortedBy x (sort xs) (sort-IsSortedBy xs)

pub sample_qsort : {A : Type 0} → Qsort A
sample_qsort = record {
  qsort = sort;
  qsort-perm = sort-Perm;
  length-qsort = length-sort;
  qsort-IsSortedBy = λ cmp l o. sort-IsSortedBy cmp o l;
}
