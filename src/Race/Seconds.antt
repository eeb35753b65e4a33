-- ===== src/Race/Seconds.antt =====
-- The race of src/race.c runs a phase for each of its seconds, and its workers keep step with their
-- partners.
use gatebench.Base.{
  ℕ, suc, ◌+◌, ◌-◌, ◌*◌, ◌<◌, ◌≡◌, ◌∙◌, refl, ap, sym, Bool, true, false, Option, none, some, List,
  [], ◌∷◌, ℤ, pos, neg, ◌==◌, if◌then◌else◌, length, All, arith,
}
use gatebench.Config.{GbConfig}
use gatebench.Bench.Act.{Machine}
use gatebench.Util.{success}
use gatebench.Race.Cpus.{race_collect_cpus}
use gatebench.Race.Pairs.{Seat, Pair, phase_pairs}
use gatebench.Race.Phase.{IsPaired, phase_pairs-IsPaired}
use gatebench.Race.Thread.{WorkerCtx, Thread, SyncCall, signalled}
use gatebench.Race.Workers.{Around}
use gatebench.Race.Steps.{rounds, HasSeat, Signals}
use gatebench.Race.Signals.{
  race_replace_thread-Signals, race_dump_thread-Signals, race_get_thread-Signals,
  race_delete_thread-Signals, race_traffic_thread-Signals, race_sync_partner_thread-Signals,
}
use gatebench.Race.Invaded.{race_invalid_thread-Signals, race_basetime_thread-Signals}
use gatebench.Race.Run.{
  setup_of, with_seats, seats_of, ThreadWorld, race_thread, begun, run_threads, RacePhase, Raced,
  slice_of, after_phase, run_phase, race_phases, first_ctxs, first_pair_seed, RaceEnd, RaceSummary,
  summaries, ended_as, summary_of, gb_race_run_with_summary,
}

module _ (w : Machine) (cfg : GbConfig) where
  open w use {mnl}

  if-Signals :
      (k : ℕ) (is_a c : Bool) (l : List SyncCall) (x y : Option (Thread mnl.Buf))
      → Signals k is_a l x
      → Signals k is_a l y
      → Signals k is_a l (if c then x else y)
  if-Signals k is_a true l x y h g = h
  if-Signals k is_a false l x y h g = g

  Signals-some :
      (k : ℕ) (is_a : Bool) (l : List SyncCall) (o : Option (Thread mnl.Buf)) (u : Thread mnl.Buf)
      → Signals k is_a l o
      → o ≡ some u
      → (n : ℕ) × (u.log ≡ signalled k ∷ rounds k is_a n l)
  Signals-some k is_a l none u h e = cc
  Signals-some k is_a l (some v) u (n, q) e = (n, ground (arith, q, e))

  race_thread-Signals :
      (worker : ℕ) (a : Around) (t : Thread mnl.Buf) (k : ℕ) (is_a : Bool)
      → HasSeat k is_a t
      → Signals k is_a t.log (race_thread w cfg worker a t)
  unfolding race_thread
  race_thread-Signals worker a t k is_a h =
      let s = setup_of cfg worker in
      if-Signals k is_a (worker == 0) t.log _ _ (race_replace_thread-Signals w s k is_a a t h) (
        if-Signals k is_a (worker == 1) t.log _ _ (race_dump_thread-Signals w s k is_a a t h) (
          if-Signals k is_a (worker == 2) t.log _ _ (race_get_thread-Signals w s k is_a a t h) (
            if-Signals k is_a (worker == 3) t.log _ _ (race_traffic_thread-Signals w s k is_a a t h)
              (if-Signals k is_a (worker == 4) t.log _ _
                (race_basetime_thread-Signals w s k is_a a t h)
                (if-Signals k is_a (worker == 5) t.log _ _
                  (race_delete_thread-Signals w s k is_a a t h)
                  (if-Signals k is_a (worker == 6) t.log _ _
                    (race_invalid_thread-Signals w s k is_a a t h)
                    (race_sync_partner_thread-Signals w s k is_a a t h)))))))

  -- Whichever of the eight workers a thread is and whatever it meets, if it has a pair and a side and
  -- ends, then it has entered and left whole races of that pair on that side, one after the other, and has
  -- last set the flag that lets its partner go, also where it gave up before its loop.
  pub race_thread-in_step :
      (worker : ℕ) (a : Around) (t u : Thread mnl.Buf) (k : ℕ) (is_a : Bool)
      → t.ctx.seat ≡ some (k, is_a)
      → race_thread w cfg worker a t ≡ some u
      → (n : ℕ) × (u.log ≡ signalled k ∷ rounds k is_a n t.log)
  race_thread-in_step worker a t u k is_a h e =
      Signals-some k is_a t.log (race_thread w cfg worker a t) u
        (race_thread-Signals worker a t k is_a h) e

  -- The threads from a worker on can be made and end, whatever their contexts hold.
  abbrev pub AllEnd : ℕ → List (ThreadWorld w) → Type 0
  AllEnd worker [] = Unit
  AllEnd worker (x ∷ xs) =
      (x.create ≡ success tt)
      × ((c : WorkerCtx)
          → (t : Thread mnl.Buf) × (race_thread w cfg worker x.around (begun w c x) ≡ some t))
      × AllEnd (worker + 1) xs

  run_threads-ends :
      (worker : ℕ) (xs : List (ThreadWorld w)) (ctxs : List WorkerCtx)
      → length xs ≡ length ctxs
      → AllEnd worker xs
      → (ctxs' : List WorkerCtx) × (run_threads w cfg worker xs ctxs ≡ some (0, ctxs'))
        × (length ctxs' ≡ length ctxs)
  unfolding run_threads
  run_threads-ends worker [] [] h e = ([], refl, refl)
  run_threads-ends worker [] (c ∷ ctxs) h e = absurd (omega arith)
  run_threads-ends worker (x ∷ xs) [] h e = absurd (omega arith)
  run_threads-ends worker (x ∷ xs) (c ∷ ctxs) h (made, ends, later) =
      let (t, q) = ends c in
      let (rest, r, same) = run_threads-ends (worker + 1) xs ctxs (omega arith) later in
      (t.ctx ∷ rest, rw (run_threads, made) (rw (run_threads, q) (rw r refl)), ap suc same)

  length-seats_of : (ctxs : List WorkerCtx) → length (seats_of ctxs) ≡ length ctxs
  length-seats_of [] = refl
  length-seats_of (c ∷ ctxs) = ap suc (length-seats_of ctxs)

  length-with_seats :
      (seats : List Seat) (ctxs : List WorkerCtx)
      → length seats ≡ length ctxs
      → length (with_seats seats ctxs) ≡ length ctxs
  length-with_seats [] ctxs h = refl
  length-with_seats (seat ∷ seats) [] h = absurd (omega arith)
  length-with_seats (seat ∷ seats) (c ∷ ctxs) h =
      ap suc (length-with_seats seats ctxs (omega arith))

  length-summaries :
      (cpus : List ℕ) (worker : ℕ) (ctxs : List WorkerCtx)
      → length (summaries w cpus worker ctxs) ≡ length ctxs
  length-summaries cpus worker [] = refl
  length-summaries cpus worker (c ∷ ctxs) = ap suc (length-summaries cpus (worker + 1) ctxs)

  slice_lem :
      (n : ℕ)
      → (slice_of w (suc n * 1000000000) ≡ 1000000000)
        × ((suc n * 1000000000 == 0) ≡ false)
        × (suc n * 1000000000 - 1000000000 ≡ n * 1000000000)
  slice_lem n = (ground arith, ground arith, omega arith)

  -- A phase for which the threads were given a second, with its workers well paired.
  abbrev pub IsSecond : RacePhase w → Type 0
  IsSecond p = IsPaired p.seats p.pairs × (p.slept ≡ some 1000000000)

  record LastsFor (n : ℕ) (r : Raced w) : Type 0 where
    no_error : r.ret ≡ 0
    eight : length r.ctxs ≡ 8
    count : length r.phases ≡ n
    each : All IsSecond r.phases

  race_phases-step :
      (xs : List (ThreadWorld w)) (later : List (List (ThreadWorld w)))
      (remaining pair_seed seed : ℕ) (ctxs ctxs' : List WorkerCtx) (seats : List Seat)
      (pairs : List Pair) (r : Raced w)
      → (remaining == 0) ≡ false
      → slice_of w remaining ≡ 1000000000
      → phase_pairs (seats_of ctxs) pair_seed ≡ some (seats, pairs, seed)
      → run_threads w cfg 0 xs (with_seats seats ctxs) ≡ some (0, ctxs')
      → race_phases w cfg later (remaining - 1000000000) seed ctxs' ≡ some r
      → race_phases w cfg (xs ∷ later) remaining pair_seed ctxs
        ≡ some (record r {
          phases = record { seats = seats; pairs = pairs; slept = some 1000000000 } ∷ r.phases;
        })
  unfolding race_phases
  race_phases-step xs later remaining pair_seed seed ctxs ctxs' seats pairs r more second paired ran
        raced =
      rw (more, run_phase, paired) (rw (after_phase, ran) (rw second (rw raced refl)))

  race_phases-LastsFor :
      (later : List (List (ThreadWorld w))) (pair_seed : ℕ) (ctxs : List WorkerCtx)
      → length ctxs ≡ 8
      → All (λ xs. (length xs ≡ 8) × AllEnd 0 xs) later
      → (r : Raced w) × (race_phases w cfg later (length later * 1000000000) pair_seed ctxs
          ≡ some r)
        × LastsFor (length later) r
  unfolding race_phases
  race_phases-LastsFor [] pair_seed ctxs eight h = (
    record { ret = 0; ctxs = ctxs; phases = [] },
    refl,
    record { no_error = refl; eight = eight; count = refl; each = tt },
  )
  race_phases-LastsFor (xs ∷ later) pair_seed ctxs eight ((count, ends), h) =
      let (second, more, less) = slice_lem (length later) in
      let (seats, pairs, seed, paired, good) =
        phase_pairs-IsPaired (seats_of ctxs) pair_seed (length-seats_of ctxs ∙ eight) in
      let seated = length-with_seats seats ctxs (good.room ∙ sym eight) in
      let (ctxs', ran, same) =
        run_threads-ends 0 xs (with_seats seats ctxs) (count ∙ sym (seated ∙ eight)) ends in
      let (r, raced, lasts) = race_phases-LastsFor later seed ctxs' (same ∙ seated ∙ eight) h in
      let p : RacePhase w = record { seats = seats; pairs = pairs; slept = some 1000000000 } in
      (
        record r { phases = p ∷ r.phases },
        race_phases-step xs later (suc (length later) * 1000000000) pair_seed seed ctxs ctxs' seats
            pairs r more second paired ran (rw less raced),
        record {
          no_error = lasts.no_error;
          eight = lasts.eight;
          count = ap suc lasts.count;
          each = ((good, refl), lasts.each);
        },
      )

  -- Where the configuration asks for some seconds, and in each of them all eight threads can be made and
  -- end, whatever their contexts hold: the race ends with code 0 and a completed summary of eight workers
  -- with the seconds that were asked for, after exactly one phase for each second; in each phase the
  -- threads were given 10 ^ 9 ns, and the eight workers stood in four pairs of partners on opposite sides.
  pub gb_race_run_with_summary-seconds :
      (affinity : Option (ℕ → Bool)) (nproc : ℤ) (later : List (List (ThreadWorld w)))
      → 0 < cfg.race_seconds
      → length later ≡ cfg.race_seconds
      → All (λ xs. (length xs ≡ 8) × AllEnd 0 xs) later
      → (r : RaceEnd w) × (s : RaceSummary) × (gb_race_run_with_summary w affinity nproc later
            (some cfg)
          ≡ some r)
        × (r.code ≡ pos 0)
        × (r.summary ≡ some s)
        × (s.completed ≡ true)
        × (s.duration_seconds ≡ cfg.race_seconds)
        × (length s.workers ≡ 8)
        × (length r.phases ≡ cfg.race_seconds)
        × All IsSecond r.phases
  unfolding gb_race_run_with_summary
  gb_race_run_with_summary-seconds affinity nproc later some_time count ends =
      let cpus = race_collect_cpus true (pos 8) affinity nproc in
      let (r, raced, lasts) =
        race_phases-LastsFor later (first_pair_seed w cfg) first_ctxs refl ends in
      let raced' = (rw count at raced) in
      let asked : (cfg.race_seconds == 0) ≡ false = ground arith in
      (
        record { code = neg r.ret; summary = some (summary_of w cfg cpus r); phases = r.phases },
        summary_of w cfg cpus r,
        rw (asked, ended_as, raced') refl,
        ap neg lasts.no_error,
        refl,
        ap (λ ret. ret == 0) lasts.no_error,
        refl,
        length-summaries cpus 0 r.ctxs ∙ lasts.eight,
        lasts.count ∙ count,
        lasts.each,
      )
