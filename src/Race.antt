-- ===== src/Race.antt =====
-- The race workers (src/race.c): their random numbers, the random entries that they send, and the
-- count of their errors.
pub mod Random
pub mod Errors
pub mod Extack
pub mod Slots
pub mod FreeSlot
pub mod Told
pub mod Top
pub mod Exchange
pub mod Greatest
pub mod Breakdown
pub mod TopFive
pub mod Invalid
pub mod Updates
pub mod Cpus
pub mod Contents
pub mod Pairs
pub mod Shuffled
pub mod Partners
pub mod Phase
pub mod Thread
pub mod Workers
pub mod Invaders
pub mod Steps
pub mod Quiet
pub mod Signals
pub mod Invaded
pub mod Run
pub mod Seconds
use gatebench.Base.{
  ℕ, zero, suc, ◌+◌, ◌-◌, ◌*◌, ◌/◌, ◌%◌, ◌^◌, not, Option, none, some, List, [], ◌∷◌, ℤ, pos, neg,
  abs, u32_mod, u64_mod, ltb, ◌==◌, ◌==ℤ◌, if◌then◌else◌, get_or,
}
use gatebench.Gate.Types.{GateShape, GateEntry}
use gatebench.Config.{GbConfig, gb_max_entries}

-- The number is the new state.
unfoldable pub rng_next : ℕ → ℕ
rng_next state = (state * 1664525 % u32_mod + 1013904223) % u32_mod

-- The number and the new state. The product has 64 bits.
unfoldable pub rng_range : ℕ → ℕ → ℕ × ℕ
unfolding rng_next
rng_range state max =
    if max == 0
    then (0, state)
    else (rng_next state * max % u64_mod / 2 ^ 32 % u32_mod, rng_next state)

abbrev pub race_min_pkt : ℕ
race_min_pkt = 64

unfoldable pub race_random_maxoctets : ℕ → ℤ × ℕ
unfolding rng_range
race_random_maxoctets seed =
    let (unlimited, seed') = rng_range seed 4 in
    let (more, seed'') = rng_range seed' (65535 - race_min_pkt) in
    if unlimited == 0 then (neg 1, seed') else (pos (race_min_pkt + more), seed'')

-- entries[i], and the seed after it
unfoldable pub random_entry : ℕ → ℕ → ℕ → GateEntry × ℕ
unfolding rng_range race_random_maxoctets
random_entry interval_max i seed =
    let (interval, seed1) = rng_range seed interval_max in
    let (opened, seed2) = rng_range seed1 2 in
    let (octets, seed3) = race_random_maxoctets seed2 in
    (
      record {
        index = i;
        gate_state = not (opened == 0);
        interval = (1 + interval) % u32_mod;
        ipv = neg 1;
        maxoctets = octets;
      },
      seed3,
    )

-- The loop from index i on, over the cells from there; `none` is a write behind the array.
unfoldable pub fill_random : ℕ → ℕ → ℕ → List GateEntry → ℕ → Option (List GateEntry × ℕ)
unfolding random_entry
fill_random interval_max i zero cells seed = some (cells, seed)
fill_random interval_max i (suc left) [] seed = none
fill_random interval_max i (suc left) (c ∷ cells) seed =
    let (e, seed') = random_entry interval_max i seed in
    elim (fill_random interval_max (i + 1) left cells seed') [
      | none ↦ none
      | some (es, last) ↦ some (e ∷ es, last)
    ]

-- The count, the array and the seed.
unfoldable pub race_fill_entries : List GateEntry → ℕ → ℕ → ℕ → Option (ℕ × List GateEntry × ℕ)
unfolding rng_range fill_random
race_fill_entries entries max_entries interval_max seed =
    let (more, seed') = rng_range seed max_entries in
    let count = (1 + more) % u32_mod in
    elim (fill_random (if interval_max == 0 then 1 else interval_max) 0 count entries seed') [
      | none ↦ none
      | some (es, last) ↦ some (count, es, last)
    ]

abbrev pub race_shape_init : GbConfig → GateShape
race_shape_init cfg = record {
  clockid = cfg.clockid;
  base_time = cfg.base_time;
  cycle_time = cfg.cycle_time;
  cycle_time_ext = cfg.cycle_time_ext;
  interval_ns = cfg.interval_ns;
  entries = if ltb gb_max_entries cfg.entries then gb_max_entries else cfg.entries;
}

abbrev pub race_errno_max : ℕ
race_errno_max = 4096

-- err_counts[i] = v. A write behind the end of the array makes the list longer, so that it is seen.
abbrev pub put_count : List ℕ → ℕ → ℕ → List ℕ
put_count [] zero v = v ∷ []
put_count [] (suc i) v = 0 ∷ put_count [] i v
put_count (x ∷ xs) zero v = v ∷ xs
put_count (x ∷ xs) (suc i) v = x ∷ put_count xs i v

-- *errors and the array err_counts; `none` for NULL.
unfoldable pub race_record_err : Option ℕ → Option (List ℕ) → ℤ → Option ℕ × Option (List ℕ)
race_record_err none err_counts ret = (none, err_counts)
race_record_err (some errors) none ret = (some errors, none)
race_record_err (some errors) (some counts) ret =
    if ret ==ℤ pos 0
    then (some errors, some counts)
    else let err = abs ret in
      (
        some ((errors + 1) % u64_mod),
        some (
            if ltb err race_errno_max
            then put_count counts err ((get_or counts err 0 + 1) % u64_mod)
            else counts),
      )
