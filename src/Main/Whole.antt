-- ===== src/Main/Whole.antt =====
-- The program from its arguments to its end in benchmark mode.
use gatebench.Base.{
  ℕ, ◌≡◌, ◌<◌, ◌≤◌, ◌*◌, ◌^◌, ◌∙◌, refl, ap, true, false, none, some, List, ℤ, pos, neg, is_neg,
  einval, if◌then◌else◌, if_true, if_false, length,
}
use gatebench.Base.Libc.{Bytes}
use gatebench.Config.{GbConfig}
use gatebench.Cli.{returned, gb_cli_parse}
use gatebench.Util.{gb_util_pin_cpu}
use gatebench.Selftest.{gb_selftest_run}
use gatebench.Nl.Open.{bound, gb_nl_open}
use gatebench.Bench.Run.{RunResult}
use gatebench.Bench.Aggregate.{GbSummary, live, no_summary, gb_bench_run}
use gatebench.Bench.Served.{Serves, Ticks}
use gatebench.Bench.Taken.{taken}
use gatebench.Bench.AllRuns.{all_requests, all_readings, gb_bench_run-returns}
use gatebench.Bench.Release.{gb_bench_run-no_runs}
use gatebench.Main.{
  benchmark, dump_proof, race, in_benchmark, pin_cpu, Report, faults, ends, Outside, F, mode_of,
  released, so_far, fail, out, run_race, after_bench, after_selftests, run_rest, parsed,
  argv_requests_json, main,
}

module _ (o : Outside) where
  open o use {machine}

  selftested : GbConfig → ℤ × GbConfig
  selftested cfg = gb_selftest_run o.suites (gb_nl_open machine.malloc o.selftest_socket true).0 cfg

  -- The options ask for the benchmark on any CPU, and the selftests let it start with cfg'.
  pub record Starts (args : List Bytes) (cfg cfg' : GbConfig) (ret : ℤ) : Type 0 where
    pub accepted : gb_cli_parse o.libc o.getopt_long args ≡ returned (pos 0) cfg
    pub any_cpu : is_neg cfg.cpu ≡ true
    pub no_race : cfg.race_mode ≡ false
    pub no_proof : cfg.dump_proof ≡ false
    pub still_no_proof : cfg'.dump_proof ≡ false
    pub tested :
        gb_selftest_run o.suites (gb_nl_open machine.malloc o.selftest_socket true).0 cfg
        ≡ (ret, cfg')
    pub fine : is_neg ret ≡ false

  tested_report : ℤ → Report (F o)
  tested_report ret = record (so_far o benchmark) { selftests_ran = true; selftests_result = ret }

  reaches :
      (args : List Bytes) (cfg cfg' : GbConfig) (ret : ℤ)
      → Starts args cfg cfg' ret
      → main o args
        ≡ after_bench o cfg'
            (tested_report ret)
            (gb_bench_run machine o.grant o.bench_socket o.worlds o.clocks cfg')
  unfolding main tested_report
  reaches args cfg cfg' ret s =
      ap (λ k. parsed o (argv_requests_json args) k) s.accepted
      ∙ (ap
            (λ k.
              if is_neg k
              then out o cfg (fail o pin_cpu k (so_far o (mode_of cfg))) (no_summary machine.double)
              else if cfg.race_mode
              then run_race o cfg
              else run_rest o cfg)
            (if_true (pos 0) (gb_util_pin_cpu o.setaffinity cfg.cpu) s.any_cpu)
          ∙ (if_false (run_race o cfg) (run_rest o cfg) s.no_race
              ∙ (ap (λ k. after_selftests o k.1 (mode_of cfg) k.0) s.tested
                  ∙ (ap (λ k. after_selftests o cfg' k ret)
                        (if_false race (if cfg.dump_proof then dump_proof else benchmark) s.no_race
                          ∙ if_false dump_proof benchmark s.no_proof)
                      ∙ (if_false _ _ s.fine ∙ if_false _ _ s.still_no_proof)))))

  -- With options that ask for the benchmark with 0 runs and for no CPU to pin, selftests that let it
  -- start, a socket and the memory that is asked for, main uses memory that it gave back.
  pub main-no_runs :
      (args : List Bytes) (cfg cfg' : GbConfig) (ret : ℤ) (port : ℕ)
      → Starts args cfg cfg' ret
      → cfg'.runs ≡ 0
      → o.bench_socket ≡ bound port
      → machine.malloc 16 ≡ true
      → machine.malloc 0 ≡ true
      → o.grant 0 0 ≡ true
      → main o args ≡ faults
  main-no_runs args cfg cfg' ret port s none_asked socket granted granted_runs granted_ops =
      let (sum, e, f) =
        gb_bench_run-no_runs machine o.grant port o.worlds o.clocks cfg' none_asked granted
          granted_runs granted_ops in
      reaches args cfg cfg' ret s
      ∙ (ap
            (λ k.
              after_bench o cfg' (tested_report ret)
                (gb_bench_run machine o.grant k o.worlds o.clocks cfg'))
            socket
          ∙ (ap (after_bench o cfg' (tested_report ret)) e
              ∙ ap (released o cfg' (fail o in_benchmark (neg einval) (tested_report ret))) f))

  -- With options that ask for the benchmark and for no CPU to pin, selftests that let it start, a
  -- socket that is opened, memory for everything, a socket buffer size of at most 8192 as libmnl has
  -- it, at least one run, an interval of 1 to 2 ^ 32 - 1 ns, fewer than 2 ^ 31 iterations, so that
  -- their double does not wrap around, at least one index whose latencies are kept, a kernel that
  -- answers every request with a code that the benchmark goes on with, and clocks that can be read:
  -- main returns 0, and the report, printed if it was asked for, is a success with as many runs as
  -- were asked for.
  pub main-returns :
      (args : List Bytes) (cfg cfg' : GbConfig) (ret : ℤ) (port : ℕ)
      → Starts args cfg cfg' ret
      → o.bench_socket ≡ bound port
      → ((n : ℕ) → machine.malloc n ≡ true)
      → ((k n : ℕ) → o.grant k n ≡ true)
      → machine.socket_buffer ≤ 8192
      → 0 < cfg'.interval_ns
      → cfg'.interval_ns < 2 ^ 32
      → cfg'.iters * 2 < 2 ^ 32
      → 0 < taken cfg' 0 cfg'.iters
      → 0 < cfg'.runs
      → Serves (record { pid = port; seq = 1 }) (all_requests machine cfg' cfg'.runs) o.worlds
      → Ticks (all_readings machine cfg' cfg'.runs) o.clocks
      → (r : Report (F o)) × (s : GbSummary (F o)) × (rs : List (RunResult (F o))) × (main o args
          ≡ ends 0 (if cfg'.json then some r else none))
        × (r.ok ≡ true)
        × (r.benchmark_out ≡ some s)
        × (s.runs ≡ live rs)
        × (length rs ≡ cfg'.runs)
  unfolding tested_report
  main-returns args cfg cfg' ret port st socket granted all low some_time small_time few_iters
        some_taken some_runs serves ticks =
      let (s, rs, e, l, n, f) =
        gb_bench_run-returns machine cfg' granted some_time small_time low few_iters some_taken
          o.grant port o.worlds o.clocks all some_runs serves ticks in
      let r : Report (F o) = record (tested_report ret) { benchmark_out = some s } in
      (
        r,
        s,
        rs,
        reaches args cfg cfg' ret st
            ∙ (ap
                  (λ k.
                    after_bench o cfg' (tested_report ret)
                      (gb_bench_run machine o.grant k o.worlds o.clocks cfg'))
                  socket
                ∙ (ap (after_bench o cfg' (tested_report ret)) e ∙ ap (released o cfg' r) f)),
        refl,
        refl,
        l,
        n,
      )
