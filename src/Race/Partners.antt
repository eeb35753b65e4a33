-- ===== src/Race/Partners.antt =====
-- The pairs of a phase of the race (src/race.c): every worker has one partner, on the other side.
use gatebench.Base.{
  ℕ, zero, suc, ◌+◌, ◌≤◌, ◌<◌, ◌≡◌, ◌∙◌, refl, ap, false, not, some, List, [], ◌∷◌, ◌==◌, get_elem?,
  set, length, length-set, All, All-map, arith, ◌⊎◌,
}
use gatebench.Race.{rng_range}
use gatebench.Race.Pairs.{
  race_worker_delete, race_worker_traffic_sync, Pair, Seat, seat_pair, pair_workers,
}
use gatebench.Race.Shuffled.{weight, copies}

-- The workers of the pairs.
abbrev pub members : List Pair → List ℕ
members [] = []
members (p ∷ ps) = p.first ∷ p.second ∷ members ps

-- The workers that replace the gate, and those that read it or load the loopback.
abbrev pub IsReplacer : ℕ → Type 0
IsReplacer w = (w ≡ 0) ⊎ (w ≡ 4) ⊎ (w ≡ 6)

abbrev pub IsReader : ℕ → Type 0
IsReader w = (w ≡ 1) ⊎ (w ≡ 2) ⊎ (w ≡ 3)

-- Two replacers, the deleter and a reader, a replacer and a reader, or a reader and the worker that
-- only keeps step.
abbrev pub IsHazard : ℕ → ℕ → Type 0
IsHazard v w =
    (IsReplacer v × IsReplacer w)
    ⊎ ((v ≡ race_worker_delete) × IsReader w)
    ⊎ (IsReplacer v × IsReader w)
    ⊎ (IsReader v × (w ≡ race_worker_traffic_sync))

-- The seats of the pairs from pair i on.
abbrev pub AreSeated : ℕ → List Pair → List Seat → Type 0
AreSeated i [] seats = Unit
AreSeated i (p ∷ ps) seats =
    (get_elem? seats p.first ≡ some (some (i, p.first_is_a)))
    × (get_elem? seats p.second ≡ some (some (i, p.second_is_a)))
    × (p.second_is_a ≡ not p.first_is_a)
    × AreSeated (i + 1) ps seats

module _ {A : Type 0} where
  get_elem?-set_self :
      (xs : List A) (i : ℕ) (a : A) → i < length xs → get_elem? (set xs i a) i ≡ some a
  get_elem?-set_self [] i a h = absurd (omega arith)
  get_elem?-set_self (x ∷ xs) zero a h = refl
  get_elem?-set_self (x ∷ xs) (suc i) a h = get_elem?-set_self xs i a (omega arith)

  get_elem?-set_other :
      (xs : List A) (i j : ℕ) (a : A) → (i == j) ≡ false → get_elem? (set xs i a) j ≡ get_elem? xs j
  get_elem?-set_other [] i j a h = refl
  get_elem?-set_other (x ∷ xs) zero zero a h = absurd (ground (arith, h))
  get_elem?-set_other (x ∷ xs) zero (suc j) a h = refl
  get_elem?-set_other (x ∷ xs) (suc i) zero a h = refl
  get_elem?-set_other (x ∷ xs) (suc i) (suc j) a h =
      get_elem?-set_other xs i j a (ground (arith, h))

-- What the loop over the pairs makes of an order of candidates.
pub record Described (pick : ℕ → ℕ × ℕ) (i : ℕ) (order : List ℕ) (seats seats' : List Seat)
    (ps : List Pair) : Type 0 where
  pub count : length ps ≡ length order
  pub room : length seats' ≡ length seats
  pub totals : (f : ℕ → ℕ) → weight f (members ps) ≡ weight (λ k. f (pick k).0 + f (pick k).1) order
  pub hazards : All (λ p. IsHazard p.first p.second) ps
  pub untouched : (w : ℕ) → copies w (members ps) ≡ 0 → get_elem? seats' w ≡ get_elem? seats w
  pub seated :
      ((w : ℕ) → copies w (members ps) ≤ 1)
      → All (λ w. w < length seats) (members ps)
      → AreSeated i ps seats'

-- The pair made of the candidate `e`.
abbrev made : ℕ × ℕ → ℕ → Pair
made (first, second) side = record {
  first = first;
  second = second;
  first_is_a = side == 0;
  second_is_a = not (side == 0);
}

length-seat_pair :
    (i : ℕ) (p : Pair) (seats : List Seat) → length (seat_pair i p seats) ≡ length seats
length-seat_pair i p seats = length-set _ p.second _ ∙ length-set seats p.first _

apart : (v w : ℕ) (ws : List ℕ) → copies v (v ∷ w ∷ ws) ≤ 1 → ((v == w) ≡ false) × (copies v ws ≡ 0)
apart v w ws h = ground arith

untouched_by :
    (v w x : ℕ) (ws : List ℕ)
    → copies x (v ∷ w ∷ ws) ≡ 0
    → ((v == x) ≡ false) × ((w == x) ≡ false) × (copies x ws ≡ 0)
untouched_by v w x ws h = ground arith

module _ (pick : ℕ → ℕ × ℕ) (i k : ℕ) (order : List ℕ) (seats seats' : List Seat) (side : ℕ)
    (ps : List Pair)
    (d : Described pick (i + 1) order (seat_pair i (made (pick k) side) seats) seats' ps)
    (hazard : IsHazard (pick k).0 (pick k).1) where
  first_kept :
      copies (pick k).0 (members (made (pick k) side ∷ ps)) ≤ 1
      → (pick k).0 < length seats
      → get_elem? seats' (pick k).0 ≡ some (some (i, side == 0))
  first_kept once inside =
      let (other, gone) = apart (pick k).0 (pick k).1 (members ps) once in
      d.untouched (pick k).0 gone
      ∙ get_elem?-set_other _ (pick k).1 (pick k).0 _ (ground (arith, other))
      ∙ get_elem?-set_self seats (pick k).0 _ inside

  second_kept :
      copies (pick k).1 (members (made (pick k) side ∷ ps)) ≤ 1
      → (pick k).1 < length seats
      → get_elem? seats' (pick k).1 ≡ some (some (i, not (side == 0)))
  second_kept once inside =
      d.untouched (pick k).1 (ground arith)
      ∙ get_elem?-set_self _ (pick k).1 _
          (omega (arith, length-set seats (pick k).0 (some (i, side == 0)), inside))

  Described-cons : Described pick i (k ∷ order) seats seats' (made (pick k) side ∷ ps)
  Described-cons = record {
    count = ap suc d.count;
    room = d.room ∙ length-seat_pair i (made (pick k) side) seats;
    totals = λ f. omega (arith, d.totals f);
    hazards = (hazard, d.hazards);
    untouched = λ w h.
        let (a, b, c) = untouched_by (pick k).0 (pick k).1 w (members ps) h in
        d.untouched w c
        ∙ get_elem?-set_other _ (pick k).1 w _ b
        ∙ get_elem?-set_other seats (pick k).0 w _ a;
    seated = λ once inside. (
      first_kept (once (pick k).0) inside.0,
      second_kept (once (pick k).1) inside.1.0,
      refl,
      d.seated (λ w. omega (arith, once w))
          (All-map (members ps)
            (λ w h. omega (arith, length-seat_pair i (made (pick k) side) seats, h)) inside.1.1),
    );
  }

-- The loop over the pairs, where the order lists candidates only, ends and does what is described.
pub pair_workers-Described :
    (candidates : List (ℕ × ℕ)) (pick : ℕ → ℕ × ℕ) (i : ℕ) (order : List ℕ) (seats : List Seat)
    (seed : ℕ)
    → All (λ k. (get_elem? candidates k ≡ some (pick k)) × IsHazard (pick k).0 (pick k).1) order
    → (seats' : List Seat) × (ps : List Pair) × (seed' : ℕ) × (pair_workers candidates i order seats
          seed
        ≡ some (seats', ps, seed'))
      × Described pick i order seats seats' ps
unfolding pair_workers
pair_workers-Described candidates pick i [] seats seed h = (
  seats,
  [],
  seed,
  refl,
  record {
    count = refl;
    room = refl;
    totals = λ f. refl;
    hazards = tt;
    untouched = λ w e. refl;
    seated = λ once inside. tt;
  },
)
pair_workers-Described candidates pick i (k ∷ order) seats seed h =
    let (side, seed1) = rng_range seed 2 in
    let (seats', ps, last, e, d) =
      pair_workers-Described candidates pick (i + 1) order (seat_pair i (made (pick k) side) seats)
        seed1 h.1 in
    (
      seats',
      made (pick k) side ∷ ps,
      last,
      rw (pair_workers, h.0.0) (rw (pair_workers, e) refl),
      Described-cons pick i k order seats seats' side ps d h.0.1,
    )
