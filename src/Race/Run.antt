-- ===== src/Race/Run.antt =====
-- gb_race_run_with_summary of src/race.c: the workers are paired anew for each second and run in
-- threads. What a thread meets is given for each phase and each thread; the threads share only the
-- kernel, the flag that stops them and their pairs. What is printed, the tuning of the pairs
-- (race_sync_pair_init) and their cleaning are left out.
use Prim.Native.Nat.{bit_xor}
use gatebench.Base.{
  ℕ, zero, suc, ◌+◌, ◌-◌, ◌*◌, ◌/◌, ◌%◌, Bool, true, ◌||◌, Option, none, some, List, [], ◌∷◌, ℤ,
  pos, neg, ◌==◌, ltb, if◌then◌else◌, map, length, get_or, replicate, einval, u32_mod,
}
use gatebench.Config.{GbConfig, gb_max_entries}
use gatebench.Nl.{Arrived}
use gatebench.Bench.Act.{Machine, Scene}
use gatebench.Util.{Call, failed, success}
use gatebench.Race.{race_errno_max}
use gatebench.Race.Extack.{ExtackStats, race_extack_slots}
use gatebench.Race.Cpus.{race_collect_cpus}
use gatebench.Race.Pairs.{Seat, Pair, phase_pairs}
use gatebench.Race.Thread.{WorkerCtx, Thread}
use gatebench.Race.Workers.{
  RaceSetup, Around, race_replace_thread, race_dump_thread, race_get_thread, race_delete_thread,
  race_traffic_thread, race_sync_partner_thread,
}
use gatebench.Race.Invaders.{race_invalid_thread, race_basetime_thread}

-- RACE_THREAD_COUNT, RACE_PAIR_SWAP_SLICE_NS and RACE_SEED_BASE
abbrev pub race_thread_count : ℕ
race_thread_count = 8

abbrev pub race_pair_swap_slice_ns : ℕ
race_pair_swap_slice_ns = 1000000000

abbrev pub race_seed_base : ℕ
race_seed_base = 0x5a17c3d1

-- 1 for no entries, and at most GB_MAX_ENTRIES
abbrev pub race_entries : GbConfig → ℕ
race_entries cfg =
    let entries = if cfg.entries == 0 then 1 else cfg.entries in
    if ltb gb_max_entries entries then gb_max_entries else entries

-- A value that a uint32_t does not hold counts as none.
abbrev pub base_interval : GbConfig → ℕ
base_interval cfg =
    if (cfg.interval_ns == 0) || ltb (u32_mod - 1) cfg.interval_ns then 1000000 else cfg.interval_ns

unfoldable pub longest_interval : GbConfig → ℕ
longest_interval cfg =
    if ltb (base_interval cfg) ((u32_mod - 1) / 2) then base_interval cfg * 2 else u32_mod - 1

unfoldable pub invalid_base : GbConfig → ℕ
invalid_base cfg =
    let above = (cfg.index + 0x10000) % u32_mod in if ltb above cfg.index then cfg.index else above

-- What the context of a worker takes from the configuration; the invalid worker has indices of its own.
abbrev pub setup_of : GbConfig → ℕ → RaceSetup
setup_of cfg worker = record {
  cfg = cfg;
  index = if worker == 6 then invalid_base cfg else cfg.index;
  live_index = cfg.index;
  max_entries = race_entries cfg;
  interval_max = longest_interval cfg;
}

-- .seed; the workers without one have 0 here
abbrev pub seed_of : ℕ → ℕ
seed_of worker =
    if worker == 0
    then bit_xor race_seed_base 0x11111111
    else if worker == 5
    then bit_xor race_seed_base 0x33333333
    else if worker == 3
    then bit_xor race_seed_base 0x77777777
    else if worker == 6
    then bit_xor race_seed_base 0x99999999
    else if worker == 4
    then bit_xor race_seed_base 0x55555555
    else 0

abbrev pub no_extack : ExtackStats
no_extack = record {
  entries = replicate race_extack_slots (record { msg = []; count = 0 });
  other = 0;
}

-- A context before the first phase: no pair, and nothing counted.
abbrev pub first_ctx : ℕ → WorkerCtx
first_ctx worker = record {
  seat = none;
  seed = seed_of worker;
  ops = 0;
  errors = 0;
  err_counts = replicate race_errno_max 0;
  extack = no_extack;
}

abbrev pub first_ctxs : List WorkerCtx
first_ctxs = map first_ctx (0 ∷ 1 ∷ 2 ∷ 3 ∷ 4 ∷ 5 ∷ 6 ∷ 7 ∷ [])

-- .cpu = cpu_count > 0 ? cpus[worker % cpu_count] : -1
abbrev pub cpu_of : List ℕ → ℕ → ℤ
cpu_of [] worker = neg 1
cpu_of (c ∷ cs) worker = pos (get_or (c ∷ cs) (worker % length (c ∷ cs)) 0)

-- *worker_pair_refs[i] and *worker_side_refs[i] as the pairs set them
abbrev pub with_seats : List Seat → List WorkerCtx → List WorkerCtx
with_seats [] ctxs = ctxs
with_seats (seat ∷ seats) [] = []
with_seats (seat ∷ seats) (c ∷ ctxs) = record c { seat = seat } ∷ with_seats seats ctxs

abbrev pub seats_of : List WorkerCtx → List Seat
seats_of ctxs = map (λ (c : WorkerCtx). c.seat) ctxs

-- struct gb_race_worker_summary; the errors of the worker that keeps step are not kept
pub record WorkerSummary : Type 0 where
  pub cpu : ℤ
  pub ops : ℕ
  pub errors : ℕ

-- struct gb_race_summary, with its workers in the order of their numbers
pub record RaceSummary : Type 0 where
  pub completed : Bool
  pub duration_seconds : ℕ
  pub cpu_count : ℕ
  pub workers : List WorkerSummary

module _ (w : Machine) where
  open w use {mnl}

  -- What happens to one thread: how pthread_create ends, what it meets, and what its buffer for answers
  -- holds before it is written.
  pub record ThreadWorld : Type 0 where
    pub create : Call Unit
    pub around : Around
    pub scene : Scene mnl.Buf
    pub uninit : Arrived mnl.Buf

  -- worker_fns[worker]
  unfoldable pub race_thread : GbConfig → ℕ → Around → Thread mnl.Buf → Option (Thread mnl.Buf)
  unfolding race_replace_thread race_dump_thread race_get_thread race_traffic_thread
      race_basetime_thread race_delete_thread race_invalid_thread race_sync_partner_thread
  race_thread cfg worker a t =
      if worker == 0
      then race_replace_thread w (setup_of cfg worker) a t
      else if worker == 1
      then race_dump_thread w (setup_of cfg worker) a t
      else if worker == 2
      then race_get_thread w (setup_of cfg worker) a t
      else if worker == 3
      then race_traffic_thread w (setup_of cfg worker) a t
      else if worker == 4
      then race_basetime_thread w (setup_of cfg worker) a t
      else if worker == 5
      then race_delete_thread w (setup_of cfg worker) a t
      else if worker == 6
      then race_invalid_thread w (setup_of cfg worker) a t
      else race_sync_partner_thread w (setup_of cfg worker) a t

  abbrev pub begun : WorkerCtx → ThreadWorld → Thread mnl.Buf
  begun c x = record { ctx = c; scene = x.scene; resp = x.uninit; log = [] }

  -- The threads from `worker` on, until one cannot be made: its error or 0, and the contexts when those
  -- that were made have been joined. `none` is a thread that does not end.
  unfoldable pub run_threads :
      GbConfig → ℕ → List ThreadWorld → List WorkerCtx → Option (ℕ × List WorkerCtx)
  unfolding race_thread
  run_threads cfg worker xs [] = some (0, [])
  run_threads cfg worker [] (c ∷ ctxs) = none
  run_threads cfg worker (x ∷ xs) (c ∷ ctxs) =
      let rest = run_threads cfg (worker + 1) xs ctxs in
      elim x.create [
        | failed e ↦ some (e, c ∷ ctxs)
        | success u ↦ elim (race_thread cfg worker x.around (begun c x)) [
          | none ↦ none
          | some t ↦ elim rest [ none ↦ none | some (ret, ctxs') ↦ some (ret, t.ctx ∷ ctxs') ]
        ]
      ]

  -- A phase as it was set up: the seats, the pairs, and how long it lasted, unless a thread was missing.
  pub record RacePhase : Type 0 where
    pub seats : List Seat
    pub pairs : List Pair
    pub slept : Option ℕ

  -- ret, the contexts, and the phases, the first one first
  pub record Raced : Type 0 where
    pub ret : ℕ
    pub ctxs : List WorkerCtx
    pub phases : List RacePhase

  abbrev pub behind : RacePhase → Option Raced → Option Raced
  behind p none = none
  behind p (some r) = some (record r { phases = p ∷ r.phases })

  abbrev pub slice_of : ℕ → ℕ
  slice_of remaining_ns =
      if ltb race_pair_swap_slice_ns remaining_ns then race_pair_swap_slice_ns else remaining_ns

  -- What follows the threads of a phase; `go_on` is the rest of the loop.
  abbrev pub after_phase :
      List Seat
      → List Pair
      → ℕ
      → Option (ℕ × List WorkerCtx)
      → (List WorkerCtx → Option Raced)
      → Option Raced
  after_phase seats pairs phase_ns none go_on = none
  after_phase seats pairs phase_ns (some (zero, ctxs)) go_on =
      behind (record { seats = seats; pairs = pairs; slept = some phase_ns }) (go_on ctxs)
  after_phase seats pairs phase_ns (some (suc e, ctxs)) go_on = some (record {
    ret = suc e;
    ctxs = ctxs;
    phases = record { seats = seats; pairs = pairs; slept = none } ∷ [];
  })

  -- The body of the loop behind its pairs; `go_on` takes pair_seed and the contexts.
  abbrev pub run_phase :
      GbConfig
      → List ThreadWorld
      → ℕ
      → List WorkerCtx
      → Option (List Seat × List Pair × ℕ)
      → (ℕ → List WorkerCtx → Option Raced)
      → Option Raced
  run_phase cfg xs phase_ns ctxs none go_on = none
  run_phase cfg xs phase_ns ctxs (some (seats, pairs, seed)) go_on =
      after_phase seats pairs phase_ns (run_threads cfg 0 xs (with_seats seats ctxs)) (go_on seed)

  -- while (remaining_ns > 0 && ret == 0), over what happens in each phase
  unfoldable pub race_phases :
      GbConfig → List (List ThreadWorld) → ℕ → ℕ → List WorkerCtx → Option Raced
  unfolding phase_pairs run_threads
  race_phases cfg [] remaining_ns pair_seed ctxs =
      if remaining_ns == 0 then some (record { ret = 0; ctxs = ctxs; phases = [] }) else none
  race_phases cfg (xs ∷ later) remaining_ns pair_seed ctxs =
      let phase =
        run_phase cfg xs (slice_of remaining_ns) ctxs (phase_pairs (seats_of ctxs) pair_seed)
          (race_phases cfg later (remaining_ns - slice_of remaining_ns)) in
      if remaining_ns == 0 then some (record { ret = 0; ctxs = ctxs; phases = [] }) else phase

  abbrev pub summaries : List ℕ → ℕ → List WorkerCtx → List WorkerSummary
  summaries cpus worker [] = []
  summaries cpus worker (c ∷ ctxs) =
      record { cpu = cpu_of cpus worker; ops = c.ops; errors = c.errors }
      ∷ summaries cpus (worker + 1) ctxs

  abbrev pub summary_of : GbConfig → List ℕ → Raced → RaceSummary
  summary_of cfg cpus r = record {
    completed = r.ret == 0;
    duration_seconds = cfg.race_seconds;
    cpu_count = length cpus;
    workers = summaries cpus 0 r.ctxs;
  }

  -- The code, the summary, and what was run; `none` for the summary is one that is left cleared.
  pub record RaceEnd : Type 0 where
    pub code : ℤ
    pub summary : Option RaceSummary
    pub phases : List RacePhase

  abbrev pub ended_as : GbConfig → List ℕ → Option Raced → Option RaceEnd
  ended_as cfg cpus none = none
  ended_as cfg cpus (some r) =
      some (record { code = neg r.ret; summary = some (summary_of cfg cpus r); phases = r.phases })

  -- pair_seed before the first phase
  abbrev pub first_pair_seed : GbConfig → ℕ
  first_pair_seed cfg =
      bit_xor (bit_xor (bit_xor race_seed_base cfg.index) cfg.race_seconds) 0x9e3779b9

  -- `affinity` and `nproc` are what race_collect_cpus meets; the summary is there. `none` is a race that
  -- does not end.
  unfoldable pub gb_race_run_with_summary :
      Option (ℕ → Bool) → ℤ → List (List ThreadWorld) → Option GbConfig → Option RaceEnd
  unfolding race_collect_cpus race_phases
  gb_race_run_with_summary affinity nproc later none =
      some (record { code = neg einval; summary = none; phases = [] })
  gb_race_run_with_summary affinity nproc later (some cfg) =
      if cfg.race_seconds == 0
      then some (record { code = neg einval; summary = none; phases = [] })
      else ended_as cfg (race_collect_cpus true (pos race_thread_count) affinity nproc)
          (race_phases cfg later (cfg.race_seconds * 1000000000) (first_pair_seed cfg) first_ctxs)

  -- The code alone, with no summary to fill in.
  unfoldable pub gb_race_run :
      Option (ℕ → Bool) → ℤ → List (List ThreadWorld) → Option GbConfig → Option ℤ
  unfolding gb_race_run_with_summary
  gb_race_run affinity nproc later cfg = elim (gb_race_run_with_summary affinity nproc later cfg) [
    | none ↦ none
    | some r ↦ some r.code
  ]
