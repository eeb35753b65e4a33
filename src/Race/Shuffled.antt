-- ===== src/Race/Shuffled.antt =====
-- A shuffle of src/race.c rearranges an array and reads no cell outside it.
use gatebench.Base.{
  ℕ, zero, suc, ◌+◌, ◌^◌, ◌<◌, ◌≡◌, ◌∙◌, refl, sym, some, List, [], ◌∷◌, ◌==◌, if◌then◌else◌,
  get_elem?, set, length, length-set, All, arith,
}
use gatebench.Race.{rng_range}
use gatebench.Race.Random.{rng_range-bound}
use gatebench.Race.Pairs.{swap_cells, shuffle}

-- The sum of a quantity over the elements.
abbrev pub weight : (ℕ → ℕ) → List ℕ → ℕ
weight f [] = 0
weight f (x ∷ xs) = f x + weight f xs

-- How often a number stands in a list.
abbrev pub copies : ℕ → List ℕ → ℕ
copies w [] = 0
copies w (x ∷ xs) = (if x == w then 1 else 0) + copies w xs

pub copies-weight : (w : ℕ) (xs : List ℕ) → copies w xs ≡ weight (λ x. if x == w then 1 else 0) xs
copies-weight w [] = refl
copies-weight w (x ∷ xs) = omega (arith, copies-weight w xs)

-- What stands in a list has the property that all numbers standing in it have.
pub All-of_copies : {P : ℕ → Type 0} (xs : List ℕ) → ((w : ℕ) → 0 < copies w xs → P w) → All P xs
All-of_copies [] h = tt
All-of_copies (x ∷ xs) h = (h x (ground arith), All-of_copies xs (λ w k. h w (omega arith)))

pub get_elem?-some :
    {A : Type 0} (xs : List A) (i : ℕ) → i < length xs → (a : A) × (get_elem? xs i ≡ some a)
get_elem?-some [] i h = absurd (omega arith)
get_elem?-some (x ∷ xs) zero h = (x, refl)
get_elem?-some (x ∷ xs) (suc i) h = get_elem?-some xs i (omega arith)

weight-set :
    (f : ℕ → ℕ) (xs : List ℕ) (i x y : ℕ)
    → get_elem? xs i ≡ some x
    → weight f (set xs i y) + f x ≡ weight f xs + f y
weight-set f [] i x y h = cc
weight-set f (a ∷ xs) zero x y h = ground arith
weight-set f (a ∷ xs) (suc i) x y h = omega (arith, weight-set f xs i x y h)

-- The other cell after a write.
get_elem?-set :
    (xs : List ℕ) (i j y z : ℕ)
    → get_elem? xs j ≡ some z
    → get_elem? (set xs i y) j ≡ some (if i == j then y else z)
get_elem?-set [] i j y z h = cc
get_elem?-set (x ∷ xs) zero zero y z h = refl
get_elem?-set (x ∷ xs) zero (suc j) y z h = ground arith
get_elem?-set (x ∷ xs) (suc i) zero y z h = ground arith
get_elem?-set (x ∷ xs) (suc i) (suc j) y z h = ground (arith, get_elem?-set xs i j y z h)

-- Rearranged: every quantity has the same sum.
pub record Rearranged (xs ys : List ℕ) : Type 0 where
  pub same : (f : ℕ → ℕ) → weight f ys ≡ weight f xs
  pub same_length : length ys ≡ length xs

pub copies-Rearranged : {xs ys : List ℕ} → Rearranged xs ys → (w : ℕ) → copies w ys ≡ copies w xs
copies-Rearranged {xs} {ys} r w = copies-weight w ys ∙ r.same _ ∙ sym (copies-weight w xs)

swap_cells-Rearranged :
    (a : List ℕ) (i j : ℕ)
    → i < length a
    → j < length a
    → (a' : List ℕ) × (swap_cells a i j ≡ some a') × Rearranged a a'
unfolding swap_cells
swap_cells-Rearranged a i j hi hj =
    let (x, ex) = get_elem?-some a i hi in
    let (y, ey) = get_elem?-some a j hj in
    (
      set (set a i y) j x,
      ground (arith, ex, ey),
      record {
        same = λ f. weights f x y ex ey;
        same_length = length-set (set a i y) j x ∙ length-set a i y;
      },
    )
  where
    weights :
        (f : ℕ → ℕ) (x y : ℕ)
        → get_elem? a i ≡ some x
        → get_elem? a j ≡ some y
        → weight f (set (set a i y) j x) ≡ weight f a
    weights f x y ex ey =
        let first = weight-set f a i x y ex in
        let second =
          weight-set f (set a i y) j (if i == j then y else y) x (get_elem?-set a i j y y ey) in
        ground arith

-- An array of which the cells up to n are there, with at most 2 ^ 32 - 2 of them, is rearranged by the
-- shuffle of these cells.
pub shuffle-Rearranged :
    (n : ℕ) (a : List ℕ) (seed : ℕ)
    → n < length a
    → n + 1 < 2 ^ 32
    → (a' : List ℕ) × (seed' : ℕ) × (shuffle n a seed ≡ some (a', seed')) × Rearranged a a'
unfolding shuffle
shuffle-Rearranged zero a seed h small =
    (a, seed, refl, record { same = λ f. refl; same_length = refl })
shuffle-Rearranged (suc n) a seed h small =
    let drawn = rng_range seed (suc n + 1) in
    let inside = rng_range-bound seed (suc n + 1) (omega arith) small in
    let (b, eb, rb) = swap_cells-Rearranged a (suc n) drawn.0 h (omega arith) in
    let (c, seed', ec, rc) =
      shuffle-Rearranged n b drawn.1 (omega (arith, rb.same_length)) (omega arith) in
    (
      c,
      seed',
      ground (arith, eb, ec),
      record { same = λ f. rc.same f ∙ rb.same f; same_length = rc.same_length ∙ rb.same_length },
    )
