-- ===== src/Race/Random.antt =====
-- The random numbers of the race workers stay in their ranges, and the entries fit their types.
use gatebench.Base.{
  ℕ, zero, suc, ◌+◌, ◌*◌, ◌%◌, ◌≤◌, ◌<◌, ◌^◌, ◌≡◌, refl, false, some, List, [], ◌∷◌, ◌++◌, neg,
  ◌==◌, if◌then◌else◌, length, All, arith, u32_mod, Bool-cases, inl, inr,
}
use gatebench.Gate.Types.{GateEntry, IsS32}
use gatebench.Gate.EntryTrip.{IsEntry}
use gatebench.Race.{
  rng_next, rng_range, race_random_maxoctets, random_entry, fill_random, race_fill_entries,
}

mul_lt : (a b n : ℕ) → a < b → 0 < n → a * n < b * n
mul_lt a b (suc zero) h k = omega arith
mul_lt a b (suc (suc n)) h k = ground (arith, mul_lt a b (suc n) h (omega arith))
mul_lt a b zero h k = absurd (omega arith)

rng_next_range : (state : ℕ) → rng_next state < 2 ^ 32
unfolding rng_next
rng_next_range state = omega arith

-- A random number below a positive bound of 32 bits is below it.
pub rng_range-bound : (state max : ℕ) → 0 < max → max < 2 ^ 32 → (rng_range state max).0 < max
unfolding rng_range
rng_range-bound state max some_room small =
    let product : rng_next state * max < 2 ^ 32 * max =
      mul_lt (rng_next state) (2 ^ 32) max (rng_next_range state) some_room in
    let test : (max == 0) ≡ false = ground arith in rw test (omega arith)

-- An entry that the workers make: it fits its types, and lasts 1 to `longest` ns.
pub record IsRandom (longest : ℕ) (e : GateEntry) : Type 0 where
  pub fits : IsEntry e
  pub shortest : 1 ≤ e.interval
  pub bounded : e.interval ≤ longest
  pub no_priority : e.ipv ≡ neg 1

maxoctets-IsS32 : (seed : ℕ) → IsS32 (race_random_maxoctets seed).0
unfolding race_random_maxoctets
maxoctets-IsS32 seed =
    let more = rng_range-bound (rng_range seed 4).1 65471 (omega arith) (omega arith) in
    elim (Bool-cases ((rng_range seed 4).0 == 0)) [
      | inl e ↦ rw e (omega arith)
      | inr e ↦ rw e (omega arith)
    ]

random_entry-IsRandom :
    (longest i seed : ℕ)
    → 0 < longest
    → longest < 2 ^ 32
    → IsRandom longest (random_entry longest i seed).0
unfolding random_entry
random_entry-IsRandom longest i seed some_time small =
    let drawn = rng_range-bound seed longest some_time small in
    record {
      fits = record {
        interval_u32 = omega arith;
        ipv_s32 = omega arith;
        maxoctets_s32 = maxoctets-IsS32 _;
      };
      shortest = omega arith;
      bounded = omega arith;
      no_priority = refl;
    }

fill_random-IsRandom :
    (longest i left : ℕ) (cells : List GateEntry) (seed : ℕ)
    → 0 < longest
    → longest < 2 ^ 32
    → left ≤ length cells
    → (new rest : List GateEntry) × (last : ℕ) × (fill_random longest i left cells seed
        ≡ some (new ++ rest, last))
      × (length new ≡ left)
      × All (IsRandom longest) new
unfolding fill_random
fill_random-IsRandom longest i zero cells seed some_time small room =
    ([], cells, seed, refl, refl, tt)
fill_random-IsRandom longest i (suc left) [] seed some_time small room = absurd (omega arith)
fill_random-IsRandom longest i (suc left) (c ∷ cells) seed some_time small room =
    let (new, rest, last, e, l, h) =
      fill_random-IsRandom longest (i + 1) left cells (random_entry longest i seed).1 some_time
        small (omega arith) in
    (
      (random_entry longest i seed).0 ∷ new,
      rest,
      last,
      rw e refl,
      omega (arith, l),
      (random_entry-IsRandom longest i seed some_time small, h),
    )

-- For an array of max_entries > 0 entries and bounds of 32 bits, race_fill_entries writes between 1 and max_entries cells and
-- none outside; each entry that it writes fits its types, lasts 1 to interval_max ns (1 ns if that is
-- 0) and has no priority.
pub race_fill_entries-IsRandom :
    (cells : List GateEntry) (max_entries interval_max seed : ℕ)
    → length cells ≡ max_entries
    → 0 < max_entries
    → max_entries < 2 ^ 32
    → interval_max < 2 ^ 32
    → (count : ℕ) × (new rest : List GateEntry) × (last : ℕ) × (race_fill_entries cells max_entries
          interval_max seed
        ≡ some (count, new ++ rest, last))
      × (1 ≤ count)
      × (count ≤ max_entries)
      × (length new ≡ count)
      × All (IsRandom (if interval_max == 0 then 1 else interval_max)) new
unfolding race_fill_entries
race_fill_entries-IsRandom cells max_entries interval_max seed e some_cells small bound =
    let drawn = rng_range-bound seed max_entries some_cells small in
    let longest = if interval_max == 0 then 1 else interval_max in
    let (new, rest, last, q, l, h) =
      fill_random-IsRandom longest 0 ((1 + (rng_range seed max_entries).0) % u32_mod) cells
        (rng_range seed max_entries).1 (ground arith) (ground arith) (omega arith) in
    (
      (1 + (rng_range seed max_entries).0) % u32_mod,
      new,
      rest,
      last,
      rw (race_fill_entries, q) refl,
      omega arith,
      omega arith,
      l,
      h,
    )
