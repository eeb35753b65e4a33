-- ===== src/Tests/ThreadRuns.antt =====
-- src/race.c: its phases and its threads
use gatebench.Base.{
  ℕ, ◌≡◌, refl, true, false, is_some, Option, none, some, List, [], ◌∷◌, pos, All, length,
  replicate, arith,
}
use gatebench.Config.{GbConfig}
use gatebench.Mnl.Writing.{Draft}
use gatebench.Nl.Open.{open_failed}
use gatebench.Bench.Act.{kept}
use gatebench.Util.{failed, success}
use gatebench.Race.Pairs.{Seat, Pair, phase_pairs}
use gatebench.Race.Phase.{IsPaired, phase_pairs-IsPaired}
use gatebench.Race.Thread.{record_err, Thread, WorkerCtx, signalled}
use gatebench.Race.Workers.{Around}
use gatebench.Race.Steps.{rounds}
use gatebench.Race.Run.{
  ThreadWorld, RaceEnd, RaceSummary, begun, race_thread, gb_race_run_with_summary,
}
use gatebench.Race.Seconds.{AllEnd, IsSecond, race_thread-in_step, gb_race_run_with_summary-seconds}
use gatebench.Tests.SampleRun.{machine, short, ack}

phase_pairs-IsPaired_example :
    (seats : List Seat) × (ps : List Pair) × (seed : ℕ) × (phase_pairs (replicate 8 none) 0x5a17c3d1
      ≡ some (seats, ps, seed))
    × IsPaired seats ps
phase_pairs-IsPaired_example = phase_pairs-IsPaired (replicate 8 none) 0x5a17c3d1 refl

-- A thread on side A of pair 2, with two errors by number to count.
abbrev before : Thread Draft
before = record {
  ctx = record {
    seat = some (2, true);
    seed = 7;
    ops = 0;
    errors = 0;
    err_counts = 0 ∷ 0 ∷ [];
    extack = record { entries = []; other = 0 };
  };
  scene = record { sock = record { pid = 1; seq = 1 }; worlds = []; clocks = [] };
  resp = ack 0;
  log = [];
}

-- Two packets, of which the second is refused, before the thread is stopped.
abbrev two_packets : Around
two_packets = record {
  opening = open_failed 1;
  polls = (false, false) ∷ (false, false) ∷ (true, false) ∷ [];
  udp = success 3;
  sends = success 100 ∷ failed 1 ∷ [];
}

abbrev after : Thread Draft
after = kept before (race_thread machine short 3 two_packets before)

race_thread-in_step_example : (n : ℕ) × (after.log ≡ signalled 2 ∷ rounds 2 true n [])
unfolding race_thread record_err
race_thread-in_step_example =
    race_thread-in_step machine short 3 two_packets before after 2 true refl refl

-- A thread that can open nothing, and is stopped at once.
abbrev nothing : Around
nothing = record { opening = open_failed 1; polls = (true, true) ∷ []; udp = failed 1; sends = [] }

abbrev pub idle : ThreadWorld machine
idle = record {
  create = success tt;
  around = nothing;
  scene = record { sock = record { pid = 1; seq = 1 }; worlds = []; clocks = [] };
  uninit = ack 0;
}

found : {A : Type 0} (o : Option A) → is_some o ≡ true → (a : A) × (o ≡ some a)
found none h = cc
found (some a) h = (a, refl)

abbrev pub one_second : GbConfig
one_second = record short { race_mode = true; json = true; race_seconds = 1 }

idle_ends :
    (worker : ℕ)
    → ((c : WorkerCtx)
        → is_some (race_thread machine one_second worker nothing (begun machine c idle)) ≡ true)
    → (c : WorkerCtx)
    → (t : Thread Draft) × (race_thread machine one_second worker nothing (begun machine c idle)
        ≡ some t)
idle_ends worker h c = found _ (h c)

pub all_end : AllEnd machine one_second 0 (replicate 8 idle)
unfolding race_thread record_err
all_end = (
  refl,
  idle_ends 0 (λ c. refl),
  (
    refl,
    idle_ends 1 (λ c. refl),
    (
      refl,
      idle_ends 2 (λ c. refl),
      (
        refl,
        idle_ends 3 (λ c. refl),
        (
          refl,
          idle_ends 4 (λ c. refl),
          (
            refl,
            idle_ends 5 (λ c. refl),
            (refl, idle_ends 6 (λ c. refl), (refl, idle_ends 7 (λ c. refl), tt)),
          ),
        ),
      ),
    ),
  ),
)

gb_race_run_with_summary-seconds_example :
    (r : RaceEnd machine) × (s : RaceSummary) × (gb_race_run_with_summary machine none
        (pos 4)
        (replicate 8 idle ∷ [])
        (some one_second)
      ≡ some r)
    × (r.code ≡ pos 0)
    × (r.summary ≡ some s)
    × (s.completed ≡ true)
    × (s.duration_seconds ≡ 1)
    × (length s.workers ≡ 8)
    × (length r.phases ≡ 1)
    × All (IsSecond machine one_second) r.phases
gb_race_run_with_summary-seconds_example =
    gb_race_run_with_summary-seconds machine one_second none (pos 4) (replicate 8 idle ∷ [])
      (omega arith) refl ((refl, all_end), tt)
