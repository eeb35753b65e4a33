-- ===== src/Race/Phase.antt =====
-- A phase of the race (src/race.c) gives each of the eight workers a partner.
use gatebench.Base.{
  ℕ, zero, suc, ◌+◌, ◌≤◌, ◌<◌, ◌≡◌, ◌∙◌, refl, some, List, [], ◌∷◌, ◌==◌, if◌then◌else◌, leb,
  get_elem?, length, All, All-map, arith, inl, inr, Bool-cases,
}
use gatebench.Race.{rng_range}
use gatebench.Race.Pairs.{
  race_worker_delete, race_worker_traffic_sync, replacement_workers, reader_workers, pair_order,
  shuffle, Pair, Seat, candidate_pairs, paired, with_readers, with_replacements, phase_pairs,
}
use gatebench.Race.Shuffled.{
  weight, copies, copies-weight, All-of_copies, copies-Rearranged, shuffle-Rearranged,
}
use gatebench.Race.Partners.{
  members, IsReplacer, IsReader, IsHazard, AreSeated, pair_workers-Described,
}

abbrev four : ℕ × ℕ → ℕ × ℕ → ℕ × ℕ → ℕ × ℕ → ℕ → ℕ × ℕ
four a b c e k = if k == 0 then a else if k == 1 then b else if k == 2 then c else e

three : (xs : List ℕ) → length xs ≡ 3 → (x y z : ℕ) × (xs ≡ x ∷ y ∷ z ∷ [])
three [] h = absurd (omega arith)
three (x ∷ []) h = absurd (omega arith)
three (x ∷ y ∷ []) h = absurd (omega arith)
three (x ∷ y ∷ z ∷ []) h = (x, y, z, refl)
three (x ∷ y ∷ z ∷ a ∷ xs) h = absurd (omega arith)

replaces : (w : ℕ) → 0 < copies w replacement_workers → IsReplacer w
replaces w h = ground arith

reads : (w : ℕ) → 0 < copies w reader_workers → IsReader w
reads w h = ground arith

is_below : (w : ℕ) → 0 < copies w pair_order → w < 4
is_below w h = ground arith

-- A shuffle of three workers, each of them there.
shuffled_three :
    {P : ℕ → Type 0} (ws : List ℕ) (seed : ℕ)
    → length ws ≡ 3
    → ((w : ℕ) → 0 < copies w ws → P w)
    → (x y z seed' : ℕ) × (shuffle 2 ws seed ≡ some (x ∷ y ∷ z ∷ [], seed'))
      × (P x × P y × P z)
      × ((f : ℕ → ℕ) → f x + f y + f z ≡ weight f ws)
shuffled_three {P} ws seed h p =
    let (xs, seed', e, r) = shuffle-Rearranged 2 ws seed (omega arith) (omega arith) in
    let (x, y, z, q) = three xs (r.same_length ∙ h) in
    let each : All P xs = All-of_copies xs (λ w k. p w (omega (arith, copies-Rearranged r w))) in
    let each' : All P (x ∷ y ∷ z ∷ []) = rw q at each in
    (
      x,
      y,
      z,
      seed',
      rw (← q) e,
      (each'.0, each'.1.0, each'.1.1.0),
      λ f. totals f x y z xs q (r.same f),
    )
  where
    totals :
        (f : ℕ → ℕ) (x y z : ℕ) (xs : List ℕ)
        → xs ≡ x ∷ y ∷ z ∷ []
        → weight f xs ≡ weight f ws
        → f x + f y + f z ≡ weight f ws
    totals f x y z xs q e = let e' = (rw q at e) in omega arith

-- What a phase sets: four pairs, in which every worker stands once, each pair one of those that are
-- meant to race, and the two workers of a pair seated with it on opposite sides.
pub record IsPaired (seats : List Seat) (ps : List Pair) : Type 0 where
  pub room : length seats ≡ 8
  pub four_pairs : length ps ≡ 4
  pub once : (w : ℕ) → w < 8 → copies w (members ps) ≡ 1
  pub hazards : All (λ p. IsHazard p.first p.second) ps
  pub seated : AreSeated 0 ps seats

each_once :
    (r0 r1 r2 d0 d1 d2 w : ℕ)
    → copies w (r0 ∷ r1 ∷ r2 ∷ []) ≡ copies w replacement_workers
    → copies w (d0 ∷ d1 ∷ d2 ∷ []) ≡ copies w reader_workers
    → copies w (r0 ∷ r1 ∷ race_worker_delete ∷ d0 ∷ r2 ∷ d1 ∷ d2 ∷ race_worker_traffic_sync ∷ [])
      ≡ copies w (0 ∷ 1 ∷ 2 ∷ 3 ∷ 4 ∷ 5 ∷ 6 ∷ 7 ∷ [])
each_once r0 r1 r2 d0 d1 d2 w h k = omega (arith, h, k)

one_of_eight : (w : ℕ) → copies w (0 ∷ 1 ∷ 2 ∷ 3 ∷ 4 ∷ 5 ∷ 6 ∷ 7 ∷ []) ≡ (if leb w 7 then 1 else 0)
one_of_eight w = ground arith

-- Each worker is a cell of the array of the seats.
All-below_8 :
    (ws : List ℕ)
    → ((w : ℕ) → copies w ws ≡ copies w (0 ∷ 1 ∷ 2 ∷ 3 ∷ 4 ∷ 5 ∷ 6 ∷ 7 ∷ []))
    → All (λ w. w < 8) ws
All-below_8 ws h = All-of_copies ws (λ w k. inside w (omega (arith, h w, one_of_eight w)))
  where
    inside : (w : ℕ) → 0 < (if leb w 7 then 1 else 0) → w < 8
    inside w h = ground arith

-- What follows the shuffles of the workers, for any outcome of these.
module _ (r0 r1 r2 d0 d1 d2 : ℕ) (rs : IsReplacer r0 × IsReplacer r1 × IsReplacer r2)
    (ds : IsReader d0 × IsReader d1 × IsReader d2)
    (replacers : (f : ℕ → ℕ) → f r0 + f r1 + f r2 ≡ weight f replacement_workers)
    (readers : (f : ℕ → ℕ) → f d0 + f d1 + f d2 ≡ weight f reader_workers) where
  abbrev pick : ℕ → ℕ × ℕ
  pick = four (r0, r1) (race_worker_delete, d0) (r2, d1) (d2, race_worker_traffic_sync)

  abbrev four_candidates : List (ℕ × ℕ)
  four_candidates =
      (r0, r1) ∷ (race_worker_delete, d0) ∷ (r2, d1) ∷ (d2, race_worker_traffic_sync) ∷ []

  candidate :
      (k : ℕ)
      → k < 4
      → (get_elem? four_candidates k ≡ some (pick k)) × IsHazard (pick k).0 (pick k).1
  candidate zero h = (refl, inl (rs.0, rs.1))
  candidate (suc zero) h = (refl, inr (inl (refl, ds.0)))
  candidate (suc (suc zero)) h = (refl, inr (inr (inl (rs.2, ds.1))))
  candidate (suc (suc (suc zero))) h = (refl, inr (inr (inr (ds.2, refl))))
  candidate (suc (suc (suc (suc k)))) h = absurd (omega arith)

  members-copies :
      (order : List ℕ) (ms : List ℕ)
      → ((f : ℕ → ℕ) → weight f order ≡ weight f pair_order)
      → ((f : ℕ → ℕ) → weight f ms ≡ weight (λ k. f (pick k).0 + f (pick k).1) order)
      → (w : ℕ) → copies w ms ≡ copies w (0 ∷ 1 ∷ 2 ∷ 3 ∷ 4 ∷ 5 ∷ 6 ∷ 7 ∷ [])
  members-copies order ms o m w =
      let is_w : ℕ → ℕ = λ x. if x == w then 1 else 0 in
      let sum = m is_w ∙ o (λ k. is_w (pick k).0 + is_w (pick k).1) in
      copies-weight w ms ∙ omega (arith, sum, replacers is_w, readers is_w)

  pub paired-IsPaired :
      (seats : List Seat) (seed : ℕ)
      → length seats ≡ 8
      → (seats' : List Seat) × (ps : List Pair) × (seed' : ℕ) × (paired
            (some four_candidates)
            seats
            seed
          ≡ some (seats', ps, seed'))
        × IsPaired seats' ps
  paired-IsPaired seats seed eight =
      let (order, seed1, e, r) = shuffle-Rearranged 3 pair_order seed (omega arith) (omega arith) in
      let below : All (λ k. k < 4) order =
        All-of_copies order (λ w k. is_below w (omega (arith, copies-Rearranged r w, k))) in
      let (seats', ps, last, e', d) =
        pair_workers-Described four_candidates pick 0 order seats seed1
          (All-map order candidate below) in
      let each = members-copies order (members ps) r.same d.totals in
      (
        seats',
        ps,
        last,
        rw (paired, e) e',
        record {
          room = d.room ∙ eight;
          four_pairs = d.count ∙ r.same_length;
          once = λ w h. each w ∙ one_of_eight w ∙ ground arith;
          hazards = d.hazards;
          seated =
              d.seated (λ w. at_most_one w (each w ∙ one_of_eight w))
                (rw (← eight) at (All-below_8 (members ps) each));
        },
      )
    where
      at_most_one : {n : ℕ} (w : ℕ) → n ≡ (if leb w 7 then 1 else 0) → n ≤ 1
      at_most_one w h = ground arith

-- Whatever the seed and whatever the eight workers had before, the pairs of a phase are made without
-- an access outside an array. There are four of them; each of the eight workers stands in exactly one, and
-- is set to that pair, the two workers of a pair on opposite sides; and each pair is two replacers, the
-- deleter with a reader, a replacer with a reader, or a reader with the worker that only keeps step.
pub phase_pairs-IsPaired :
    (seats : List Seat) (pair_seed : ℕ)
    → length seats ≡ 8
    → (seats' : List Seat) × (ps : List Pair) × (seed' : ℕ) × (phase_pairs seats pair_seed
        ≡ some (seats', ps, seed'))
      × IsPaired seats' ps
unfolding phase_pairs
phase_pairs-IsPaired seats pair_seed eight =
    let (r0, r1, r2, seed1, er, rs, replacers) =
      shuffled_three {P = IsReplacer} replacement_workers pair_seed refl replaces in
    let (d0, d1, d2, seed2, ed, ds, readers) =
      shuffled_three {P = IsReader} reader_workers seed1 refl reads in
    let (flip, seed3) = rng_range seed2 2 in
    elim (Bool-cases (flip == 0)) [
      | inl e ↦
          let (seats', ps, last, q, i) =
            paired-IsPaired r0 r1 r2 d0 d1 d2 rs ds replacers readers seats seed3 eight in
          (
            seats',
            ps,
            last,
            rw (with_replacements, er) (rw (with_readers, ed) (rw (candidate_pairs, e) q)),
            i,
          )
      | inr e ↦
          let (seats', ps, last, q, i) =
            paired-IsPaired r0 r1 r2 d0 d2 d1 rs (ds.0, ds.2, ds.1) replacers
              (λ f. omega (arith, readers f)) seats seed3 eight in
          (
            seats',
            ps,
            last,
            rw (with_replacements, er) (rw (with_readers, ed) (rw (candidate_pairs, e) q)),
            i,
          )
    ]
