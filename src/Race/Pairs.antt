-- ===== src/Race/Pairs.antt =====
-- How the workers of src/race.c are paired for a phase of gb_race_run_with_summary: the shuffles, the
-- pairs and the assignment of a pair and a side to each worker.
use gatebench.Base.{
  ℕ, zero, suc, ◌+◌, Bool, not, Option, none, some, List, [], ◌∷◌, ◌==◌, if◌then◌else◌, get_elem?,
  set,
}
use gatebench.Race.{rng_range}

-- enum race_worker_id
abbrev pub race_worker_replace : ℕ
race_worker_replace = 0

abbrev pub race_worker_dump : ℕ
race_worker_dump = 1

abbrev pub race_worker_get : ℕ
race_worker_get = 2

abbrev pub race_worker_traffic : ℕ
race_worker_traffic = 3

abbrev pub race_worker_basetime : ℕ
race_worker_basetime = 4

abbrev pub race_worker_delete : ℕ
race_worker_delete = 5

abbrev pub race_worker_invalid : ℕ
race_worker_invalid = 6

abbrev pub race_worker_traffic_sync : ℕ
race_worker_traffic_sync = 7

-- tmp = a[i]; a[i] = a[j]; a[j] = tmp; `none` is an access outside the array.
unfoldable pub swap_cells : List ℕ → ℕ → ℕ → Option (List ℕ)
swap_cells a i j = elim (get_elem? a i) [
  | none ↦ none
  | some x ↦ elim (get_elem? a j) [ none ↦ none | some y ↦ some (set (set a i y) j x) ]
]

-- for (i = n; i > 0; i--): the array and the seed
unfoldable pub shuffle : ℕ → List ℕ → ℕ → Option (List ℕ × ℕ)
unfolding swap_cells rng_range
shuffle zero a seed = some (a, seed)
shuffle (suc i) a seed =
    let (j, seed') = rng_range seed (suc i + 1) in
    elim (swap_cells a (suc i) j) [ none ↦ none | some a' ↦ shuffle i a' seed' ]

-- pair_members and pair_member_is_a of one pair; the second side is the other one
pub record Pair : Type 0 where
  pub first : ℕ
  pub second : ℕ
  pub first_is_a : Bool
  pub second_is_a : Bool

-- The pair and the side of a worker, `none` before the first phase.
abbrev pub Seat : Type 0
Seat = Option (ℕ × Bool)

-- *worker_pair_refs[w] = ...; *worker_side_refs[w] = ...;
abbrev pub seat_pair : ℕ → Pair → List Seat → List Seat
seat_pair i p seats =
    set (set seats p.first (some (i, p.first_is_a))) p.second (some (i, p.second_is_a))

-- The loop over the pairs, from pair i on: the seats, the pairs and the seed.
unfoldable pub pair_workers :
    List (ℕ × ℕ) → ℕ → List ℕ → List Seat → ℕ → Option (List Seat × List Pair × ℕ)
unfolding rng_range
pair_workers candidates i [] seats seed = some (seats, [], seed)
pair_workers candidates i (k ∷ order) seats seed = elim (get_elem? candidates k) [
  | none ↦ none
  | some (first, second) ↦
      let (side, seed') = rng_range seed 2 in
      let p : Pair = record {
        first = first;
        second = second;
        first_is_a = side == 0;
        second_is_a = not (side == 0);
      } in
      elim (pair_workers candidates (i + 1) order (seat_pair i p seats) seed') [
        | none ↦ none
        | some (seats', ps, last) ↦ some (seats', p ∷ ps, last)
      ]
]

-- candidate_pairs, from the shuffled workers; `flip` exchanges the last two readers
abbrev pub candidate_pairs : List ℕ → List ℕ → Bool → Option (List (ℕ × ℕ))
candidate_pairs (r0 ∷ r1 ∷ r2 ∷ rs) (d0 ∷ d1 ∷ d2 ∷ ds) straight =
    let reader_for_a = if straight then d1 else d2 in
    let reader_for_tail = if straight then d2 else d1 in
    some (
      (r0, r1)
      ∷ (race_worker_delete, d0)
      ∷ (r2, reader_for_a)
      ∷ (reader_for_tail, race_worker_traffic_sync)
      ∷ [])
candidate_pairs rs ds straight = none

abbrev pub replacement_workers : List ℕ
replacement_workers = race_worker_replace ∷ race_worker_basetime ∷ race_worker_invalid ∷ []

abbrev pub reader_workers : List ℕ
reader_workers = race_worker_dump ∷ race_worker_get ∷ race_worker_traffic ∷ []

abbrev pub pair_order : List ℕ
pair_order = 0 ∷ 1 ∷ 2 ∷ 3 ∷ []

abbrev pub paired : Option (List (ℕ × ℕ)) → List Seat → ℕ → Option (List Seat × List Pair × ℕ)
paired none seats seed = none
paired (some candidates) seats seed = elim (shuffle 3 pair_order seed) [
  | none ↦ none
  | some (order, seed') ↦ pair_workers candidates 0 order seats seed'
]

-- From the shuffled replacement workers on.
abbrev pub with_readers :
    List ℕ → List Seat → Option (List ℕ × ℕ) → Option (List Seat × List Pair × ℕ)
with_readers rs seats none = none
with_readers rs seats (some (ds, seed)) =
    let (flip, seed') = rng_range seed 2 in paired (candidate_pairs rs ds (flip == 0)) seats seed'

abbrev pub with_replacements : List Seat → Option (List ℕ × ℕ) → Option (List Seat × List Pair × ℕ)
with_replacements seats none = none
with_replacements seats (some (rs, seed)) = with_readers rs seats (shuffle 2 reader_workers seed)

-- The pairs of a phase: what the workers get, the pairs, and pair_seed behind them.
unfoldable pub phase_pairs : List Seat → ℕ → Option (List Seat × List Pair × ℕ)
unfolding shuffle rng_range pair_workers
phase_pairs seats pair_seed = with_replacements seats (shuffle 2 replacement_workers pair_seed)
