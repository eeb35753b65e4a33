-- ===== src/Bench/AllRuns.antt =====
-- gb_bench_run beside a kernel that answers.
use Prim.Native.Nat.{bit_or}
use gatebench.Base.{
  ℕ, zero, suc, ◌*◌, ◌%◌, ◌≤◌, ◌<◌, ◌^◌, ◌≡◌, ◌∙◌, refl, ap, Bool, true, Option, some, List, [],
  ◌∷◌, map, pos, arith, length, u64_mod,
}
use gatebench.Config.{GbConfig}
use gatebench.Gate.Numbers.{nlm_f_create, nlm_f_excl, nlm_f_replace}
use gatebench.Nl.Exchange.{World}
use gatebench.Nl.Open.{bound, gb_nl_open}
use gatebench.Util.{Call, Timespec}
use gatebench.Stats.Middle.{gb_stats_median_uint64-answers, gb_stats_median_double-answers}
use gatebench.Bench.Act.{Machine, Scene, Result, ok}
use gatebench.Bench.Run.{RunResult}
use gatebench.Bench.Aggregate.{
  GbSummary, live, filed, least, greatest, sums, spread, gb_summary_free, runs_from, aggregate,
  gb_bench_run, null,
}
use gatebench.Bench.Served.{Request, Ready, Serves, Ticks}
use gatebench.Bench.Taken.{taken}
use gatebench.Bench.Completed.{run_requests, run_readings}
use gatebench.Bench.SingleRun.{gate_length, benchmark_single_run-Completed}

length-map : {A B : Type 0} (f : A → B) (l : List A) → length (map f l) ≡ length l
length-map f [] = refl
length-map f (x ∷ l) = ap suc (length-map f l)

module _ (w : Machine) (cfg : GbConfig) where
  open w use {mnl, double, sort, sort_double, malloc, socket_buffer}

  -- What so many runs ask the kernel for, and how often they read the clock.
  abbrev pub all_requests : ℕ → List Request
  all_requests zero = []
  all_requests (suc left) =
      run_requests w cfg (gate_length w cfg (bit_or nlm_f_create nlm_f_excl))
        (gate_length w cfg (bit_or nlm_f_create nlm_f_replace)) 48 (all_requests left)

  abbrev pub all_readings : ℕ → ℕ
  all_readings zero = 0
  all_readings (suc left) = run_readings w cfg (all_readings left)

  record AllRan (left : ℕ) (o : Option (Result (List (RunResult double.F)) × Scene mnl.Buf))
      : Type 0 where
    results : List (RunResult double.F)
    after : Scene mnl.Buf
    eq : o ≡ some (ok results, after)
    counted : length results ≡ left

  record Aggregated (rs : List (RunResult double.F))
      (o : Option (Result (Unit {0}) × GbSummary double.F)) : Type 0 where
    summary : GbSummary double.F
    eq : o ≡ some (ok tt, summary)
    same_runs : summary.runs ≡ live rs
    same_count : summary.run_count ≡ cfg.runs

  aggregate-Aggregated :
      (grant : ℕ → ℕ → Bool) (rs : List (RunResult double.F))
      → ((k n : ℕ) → grant k n ≡ true)
      → 0 < cfg.runs
      → length rs ≡ cfg.runs
      → Aggregated rs (aggregate w grant cfg rs (filed w cfg rs))
  unfolding aggregate
  aggregate-Aggregated grant [] all some_runs e = absurd (omega arith)
  aggregate-Aggregated grant (r ∷ rs) all some_runs e =
      let n = cfg.runs in
      let latency = λ (pick : RunResult double.F → ℕ) (k : ℕ).
        gb_stats_median_uint64-answers sort (grant k) (map pick (r ∷ rs)) n
          (length-map pick (r ∷ rs) ∙ e) some_runs (all k (n * 8 % u64_mod)) in
      let ops = map (λ (x : RunResult double.F). x.ops_per_sec) (r ∷ rs) in
      let (m, em) =
        gb_stats_median_double-answers double sort_double (grant 1) ops n
          (length-map (λ (x : RunResult double.F). x.ops_per_sec) (r ∷ rs) ∙ e) some_runs
          (all 1 (n * 8 % u64_mod)) in
      let (a, ea) = latency (λ x. x.summary.p50) 6 in
      let (b, eb) = latency (λ x. x.summary.p95) 7 in
      let (c, ec) = latency (λ x. x.summary.p99) 8 in
      let (d, ed) = latency (λ x. x.summary.p999) 9 in
      record {
        summary = record {
          runs = live (r ∷ rs);
          run_count = n;
          median_ops_per_sec = m;
          min_ops_per_sec =
              least double r.ops_per_sec (map (λ (x : RunResult double.F). x.ops_per_sec) rs);
          max_ops_per_sec =
              greatest double r.ops_per_sec (map (λ (x : RunResult double.F). x.ops_per_sec) rs);
          stddev_ops_per_sec = spread double n (sums double double.f0 double.f0 ops);
          median_p50_ns = a;
          median_p95_ns = b;
          median_p99_ns = c;
          median_p999_ns = d;
        };
        eq =
            rw
              (
                all 0 (n * 8),
                em,
                all 2 (n * 8),
                all 3 (n * 8),
                all 4 (n * 8),
                all 5 (n * 8),
                ea,
                eb,
                ec,
                ed,
              )
              refl;
        same_runs = refl;
        same_count = refl;
      }

  module _ (granted : (n : ℕ) → malloc n ≡ true) (some_time : 0 < cfg.interval_ns)
      (small_time : cfg.interval_ns < 2 ^ 32) (low : socket_buffer ≤ 8192)
      (few_iters : cfg.iters * 2 < 2 ^ 32) (some_taken : 0 < taken cfg 0 cfg.iters) where
    runs_from-AllRan :
        (left : ℕ) (sc : Scene mnl.Buf)
        → Ready mnl (all_readings left) (all_requests left) sc
        → AllRan left (runs_from w cfg left sc)
    unfolding runs_from
    runs_from-AllRan zero sc ready = record { results = []; after = sc; eq = refl; counted = refl }
    runs_from-AllRan (suc left) sc ready =
        let one =
          benchmark_single_run-Completed w cfg granted some_time small_time low few_iters some_taken
            (all_readings left) (all_requests left) sc ready in
        let rest = runs_from-AllRan left one.after one.ready in
        record {
          results = one.result ∷ rest.results;
          after = rest.after;
          eq = rw (runs_from, one.eq, rest.eq) refl;
          counted = ap suc rest.counted;
        }

    -- With memory for everything, a socket that is opened, a socket buffer size of at most 8192 as
    -- libmnl has it, at least one run, an interval of 1 to 2 ^ 32 - 1 ns, fewer than 2 ^ 31 iterations,
    -- so that their double does not wrap around, at least one index whose latencies are kept, a kernel
    -- that answers every request with a code that the benchmark goes on with, and clocks that can be
    -- read: gb_bench_run returns 0, its summary holds as many runs as were asked for, and
    -- gb_summary_free gives them back.
    pub gb_bench_run-returns :
        (grant : ℕ → ℕ → Bool) (port : ℕ) (worlds : List (World mnl.Buf))
        (clocks : List (Call Timespec))
        → ((k n : ℕ) → grant k n ≡ true)
        → 0 < cfg.runs
        → Serves (record { pid = port; seq = 1 }) (all_requests cfg.runs) worlds
        → Ticks (all_readings cfg.runs) clocks
        → (s : GbSummary double.F) × (rs : List (RunResult double.F)) × (gb_bench_run w grant
              (bound port)
              worlds
              clocks
              cfg
            ≡ some (pos 0, s))
          × (s.runs ≡ live rs)
          × (length rs ≡ cfg.runs)
          × (gb_summary_free s ≡ some (record s { runs = null; run_count = 0 }))
    unfolding gb_bench_run gb_nl_open gb_summary_free
    gb_bench_run-returns grant port worlds clocks all some_runs serves ticks =
        let run =
          runs_from-AllRan cfg.runs
            (record { sock = record { pid = port; seq = 1 }; worlds = worlds; clocks = clocks })
            (record { serves = serves; ticks = ticks }) in
        let sum = aggregate-Aggregated grant run.results all some_runs run.counted in
        (
          sum.summary,
          run.results,
          rw (granted 16, granted (cfg.runs * 112), run.eq, sum.eq) refl,
          sum.same_runs,
          run.counted,
          rw (gb_summary_free, sum.same_runs) refl,
        )
