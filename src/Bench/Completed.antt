-- ===== src/Bench/Completed.antt =====
-- A whole run of the benchmark beside a kernel that answers.
use gatebench.Base.{
  ℕ, suc, ◌*◌, ◌≤◌, ◌<◌, ◌^◌, ◌≡◌, refl, false, Option, some, List, ◌∷◌, arith, enoent,
}
use gatebench.Config.{GbConfig}
use gatebench.Nl.Exchange.{Message}
use gatebench.Stats.{GbStats, is_empty, sort_stats}
use gatebench.Stats.Growth.{IsValid}
use gatebench.Stats.Summarised.{still_holds, gb_stats_calculate-answers}
use gatebench.Bench.Act.{Machine, Scene, Result, ok}
use gatebench.Bench.Run.{RunResult, Meter, result_of, refused_but, timed_run}
use gatebench.Bench.Served.{Request, Ready, send-Sent, now-Read}
use gatebench.Bench.Taken.{taken}
use gatebench.Bench.Measured.{rounds, readings, measure-Went, warm-Warmed}

module _ (w : Machine) (cfg : GbConfig) where
  open w use {mnl, double, sort}

  -- What one run asks the kernel for: the warming up, one delete, the measured rounds, one delete.
  abbrev pub run_requests : ℕ → ℕ → ℕ → List Request → List Request
  run_requests c r d rs =
      rounds w cfg c r cfg.warmup
        ((d, refused_but enoent) ∷ rounds w cfg c r cfg.iters ((d, λ ret. false) ∷ rs))

  -- How often it reads the clock.
  abbrev pub run_readings : ℕ → ℕ
  run_readings n = suc (readings w cfg cfg.iters (suc n))

  pub record Completed (n : ℕ) (rs : List Request)
      (o : Option (Result (RunResult double.F) × Scene mnl.Buf)) : Type 0 where
    pub result : RunResult double.F
    pub after : Scene mnl.Buf
    pub eq : o ≡ some (ok result, after)
    pub ready : Ready mnl n rs after

  pub timed_run-Completed :
      (n c r d : ℕ) (rs : List Request) (create replace del : Message mnl.Buf) (stats : GbStats)
      (sc : Scene mnl.Buf)
      → create.len ≤ create.cap
      → replace.len ≤ replace.cap
      → del.len ≤ del.cap
      → create.len ≡ c
      → replace.len ≡ r
      → del.len ≡ d
      → IsValid stats
      → stats.count ≡ 0
      → 2 * cfg.iters ≤ stats.capacity
      → stats.capacity < 2 ^ 53
      → 0 < taken cfg 0 cfg.iters
      → Ready mnl (run_readings n) (run_requests c r d rs) sc
      → Completed n rs (timed_run w cfg create replace del stats sc)
  unfolding timed_run
  timed_run-Completed n c r d rs create replace del stats sc fc fr fd ec er ed v empty room small
        some_taken ready =
      let measured = rounds w cfg c r cfg.iters ((d, λ ret. false) ∷ rs) in
      let wu =
        warm-Warmed w cfg cfg.warmup (run_readings n) c r ((d, refused_but enoent) ∷ measured)
          create replace sc fc fr ec er ready in
      let dl =
        send-Sent mnl del d (refused_but enoent) (run_readings n) measured wu.after fd ed
          wu.ready in
      let st = now-Read mnl (readings w cfg cfg.iters (suc n)) measured dl.after dl.ready in
      let start : Meter mnl.Buf = record {
        create = wu.create;
        replace = wu.replace;
        stats = stats;
      } in
      let me =
        measure-Went w cfg cfg.iters 0 (suc n) c r ((d, λ ret. false) ∷ rs) start st.after
          (record {
            create_fits = wu.create_fits;
            replace_fits = wu.replace_fits;
            create_same = wu.create_same;
            replace_same = wu.replace_same;
          })
          v (omega arith) (omega arith) st.ready in
      let en = now-Read mnl n ((d, λ ret. false) ∷ rs) me.after me.ready in
      let dl' =
        send-Sent mnl (record del { buf = dl.buf }) d (λ ret. false) n rs en.after fd ed en.ready in
      let t = me.meter.stats in
      let more : 0 < t.count = omega (arith, me.counted) in
      let cells : t.count ≤ 2 ^ 53 = omega (arith, me.valid.fits, me.same_capacity) in
      let some_kept : is_empty t ≡ false =
        still_holds t.values t.count t.capacity t.sorted (omega (arith, me.valid.counted)) more in
      let (x, ex) = gb_stats_calculate-answers sort double t me.valid some_kept cells in
      record {
        result =
            result_of w cfg create.len replace.len del.len st.time en.time (sort_stats sort t, x);
        after = dl'.after;
        eq = rw (wu.eq, dl.runs, dl.goes_on, st.runs, me.eq, en.runs, dl'.runs, ex) refl;
        ready = dl'.ready;
      }
