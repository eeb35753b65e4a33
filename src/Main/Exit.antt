-- ===== src/Main/Exit.antt =====
-- The exit code of main and what its report says.
use gatebench.Base.{
  ℕ, ◌≡◌, refl, ap, sym, subst, ◌∙◌, not, ◌&&◌, Bool, true, false, Option, none, some, List, ℤ, pos,
  ltb, ◌==◌, is_neg, if◌then◌else◌, if_true, if_false, Bool-cases, inl, inr, is_some,
}
use gatebench.Base.Libc.{Bytes}
use gatebench.Config.{GbConfig}
use gatebench.Cli.{Outcome, returned, exited, gb_cli_parse}
use gatebench.Selftest.{
  Suites, Tally, lower_entries, unpatched_base, run_test_suite, gb_selftest_run,
}
use gatebench.Nl.Open.{gb_nl_open}
use gatebench.Race.Run.{RaceSummary}
use gatebench.Proof.{gb_proof_run}
use gatebench.Proof.Prepare.{GbDumpSummary}
use gatebench.Proof.Pcap.{Capture}
use gatebench.Bench.Aggregate.{GbSummary, no_summary, gb_summary_free, gb_bench_run}
use gatebench.Main.{
  Mode, benchmark, dump_proof, race, Phase, cli_parse, pin_cpu, in_race, selftests, in_dump_proof,
  in_benchmark, Report, Ending, waits, faults, leaves, ends, Outside, F, mode_of, exit_code,
  released, out, so_far, fail, fail_if_neg, after_bench, after_proof, after_race, race_result,
  run_race, after_selftests, run_rest, run_parsed, parsed, pin, argv_requests_json, main,
}

abbrev pub is_benchmark : Mode → Bool
is_benchmark benchmark = true
is_benchmark dump_proof = false
is_benchmark race = false

-- A report tells how the program ends: the exit code is 0 exactly for a success; exactly a failure
-- has a phase of error and a negative code; exactly a success in benchmark mode has a benchmark.
pub record IsHonest {F : Type 0} (code : ℕ) (r : Report F) : Type 0 where
  pub told : code ≡ exit_code r.ok
  pub phase : is_some r.error_phase ≡ not r.ok
  pub negative : is_neg r.error_code ≡ not r.ok
  pub measured : is_some r.benchmark_out ≡ (r.ok && is_benchmark r.mode)

abbrev Tells : {F : Type 0} → Ending F → Type 0
Tells waits = Unit
Tells faults = Unit
Tells leaves = Unit
Tells (ends code none) = Unit
Tells (ends code (some r)) = IsHonest code r

if-Tells :
    {F : Type 0} (b : Bool) (x y : Ending F)
    → (b ≡ true → Tells x)
    → (b ≡ false → Tells y)
    → Tells (if b then x else y)
if-Tells true x y h k = h refl
if-Tells false x y h k = k refl

module _ (o : Outside) where
  open o use {machine}

  released-Tells :
      (cfg : GbConfig) (r : Report (F o)) (s : Option (GbSummary (F o)))
      → IsHonest (exit_code r.ok) r
      → Tells (released o cfg r s)
  released-Tells cfg r none h = tt
  released-Tells cfg r (some s) h = elim (Bool-cases cfg.json) [ inl e ↦ rw e h | inr e ↦ rw e tt ]

  fail-IsHonest :
      (phase : Phase) (ret : ℤ) (r : Report (F o))
      → is_neg ret ≡ true
      → is_some r.benchmark_out ≡ false
      → IsHonest 1 (fail o phase ret r)
  fail-IsHonest phase ret r n b = record { told = refl; phase = refl; negative = n; measured = b }

  succeeded :
      (r : Report (F o))
      → r.ok ≡ true
      → r.error_phase ≡ none
      → r.error_code ≡ pos 0
      → is_some r.benchmark_out ≡ is_benchmark r.mode
      → IsHonest (exit_code r.ok) r
  succeeded r k p c b = record {
    told = refl;
    phase = rw (k, p) refl;
    negative = rw (k, c) refl;
    measured = rw (k, b) refl;
  }

  fail_if_neg-Tells :
      (cfg : GbConfig) (phase : Phase) (ret : ℤ) (r : Report (F o))
      → r.ok ≡ true
      → r.error_phase ≡ none
      → r.error_code ≡ pos 0
      → r.benchmark_out ≡ none
      → is_benchmark r.mode ≡ false
      → Tells (out o cfg (fail_if_neg o phase ret r) (no_summary machine.double))
  unfolding gb_summary_free
  fail_if_neg-Tells cfg phase ret r k p c b m = elim (Bool-cases (is_neg ret)) [
    | inl e ↦ rw e (
        released-Tells cfg (fail o phase ret r) (gb_summary_free (no_summary machine.double))
          (fail-IsHonest phase ret r e (rw b refl)))
    | inr e ↦ rw e (
        released-Tells cfg r (gb_summary_free (no_summary machine.double))
          (succeeded r k p c (rw (b, m) refl)))
  ]

  after_race-Tells :
      (cfg : GbConfig) (p : Option (ℤ × Option (Option RaceSummary)))
      → is_benchmark (mode_of cfg) ≡ false
      → Tells (after_race o cfg p)
  after_race-Tells cfg none m = tt
  after_race-Tells cfg (some (ret, race_out)) m =
      fail_if_neg-Tells cfg in_race ret (record (so_far o (mode_of cfg)) { race_out = race_out })
        refl refl refl refl m

  run_race-Tells : (cfg : GbConfig) → is_benchmark (mode_of cfg) ≡ false → Tells (run_race o cfg)
  unfolding run_race
  run_race-Tells cfg m = after_race-Tells cfg (race_result o cfg) m

  ran : Mode → ℤ → Report (F o)
  ran mode ret = record (so_far o mode) { selftests_ran = true; selftests_result = ret }

  after_bench-Tells :
      (cfg : GbConfig) (ret : ℤ) (b : Option (ℤ × GbSummary (F o)))
      → Tells (after_bench o cfg (ran benchmark ret) b)
  unfolding ran
  after_bench-Tells cfg ret none = tt
  after_bench-Tells cfg ret (some (code, s)) = elim (Bool-cases (is_neg code)) [
    | inl e ↦ rw e (
        released-Tells cfg (fail o in_benchmark code (ran benchmark ret)) (gb_summary_free s)
          (fail-IsHonest in_benchmark code (ran benchmark ret) e refl))
    | inr e ↦ rw e (
        released-Tells cfg (record (ran benchmark ret) { benchmark_out = some s })
          (gb_summary_free s)
          (succeeded (record (ran benchmark ret) { benchmark_out = some s }) refl refl refl refl))
  ]

  after_proof-Tells :
      (cfg : GbConfig) (mode : Mode) (ret : ℤ) (p : Option (ℤ × GbDumpSummary × Capture))
      → is_benchmark mode ≡ false
      → Tells (after_proof o cfg (ran mode ret) p)
  unfolding ran
  after_proof-Tells cfg mode ret none m = tt
  after_proof-Tells cfg mode ret (some (code, s, c)) m =
      fail_if_neg-Tells cfg in_dump_proof code (record (ran mode ret) { dump_out = some s }) refl
        refl refl refl m

  bench : GbConfig → Option (ℤ × GbSummary (F o))
  bench cfg = gb_bench_run machine o.grant o.bench_socket o.worlds o.clocks cfg

  after_selftests-Tells :
      (cfg : GbConfig) (mode : Mode) (ret : ℤ)
      → mode ≡ (if cfg.dump_proof then dump_proof else benchmark)
      → Tells (after_selftests o cfg mode ret)
  unfolding ran bench
  after_selftests-Tells cfg mode ret m =
      if-Tells (is_neg ret) _ _
        (λ e.
          released-Tells cfg (fail o selftests ret (ran mode ret))
            (gb_summary_free (no_summary machine.double))
            (fail-IsHonest selftests ret (ran mode ret) e refl))
        (λ e.
          if-Tells cfg.dump_proof _ _
            (λ d.
              after_proof-Tells cfg mode ret
                (gb_proof_run machine o.pcap o.proof_socket o.proof_worlds cfg)
                (ap is_benchmark (m ∙ if_true dump_proof benchmark d)))
            (λ d.
              subst (λ k. Tells (after_bench o cfg (ran k ret) (bench cfg)))
                (sym (m ∙ if_false dump_proof benchmark d))
                (after_bench-Tells cfg ret (bench cfg))))

  lower_entries_proof :
      (t : ℤ × Tally) (cfg : GbConfig) → (lower_entries t cfg).dump_proof ≡ cfg.dump_proof
  lower_entries_proof (ret, t) cfg = go (
      (ltb 0 t.soft_failed && (t.failed == t.soft_failed))
      && (t.large_dump_failed && ltb 50 cfg.entries))
    where
      go : (b : Bool) → (if b then record cfg { entries = 50 } else cfg).dump_proof ≡ cfg.dump_proof
      go true = refl
      go false = refl

  gb_selftest_run-proof :
      (suites : Suites) (opened : ℤ) (cfg : GbConfig)
      → (gb_selftest_run suites opened cfg).1.dump_proof ≡ cfg.dump_proof
  unfolding gb_selftest_run
  gb_selftest_run-proof suites opened cfg = elim (Bool-cases (is_neg opened)) [
    | inl e ↦ rw e refl
    | inr e ↦ rw e (
        lower_entries_proof
          (run_test_suite suites.unpatched_fail_tests (unpatched_base suites cfg)
            suites.unpatched_tests)
          cfg)
  ]

  run_rest-Tells : (cfg : GbConfig) → cfg.race_mode ≡ false → Tells (run_rest o cfg)
  run_rest-Tells cfg r =
      let x = gb_selftest_run o.suites (gb_nl_open machine.malloc o.selftest_socket true).0 cfg in
      after_selftests-Tells x.1 (mode_of cfg) x.0 (
        if_false race (if cfg.dump_proof then dump_proof else benchmark) r
        ∙ ap (λ b. if b then dump_proof else benchmark)
            (sym (
              gb_selftest_run-proof o.suites (gb_nl_open machine.malloc o.selftest_socket true).0
                cfg)))

  run_parsed-Tells : (cfg : GbConfig) → Tells (run_parsed o cfg)
  run_parsed-Tells cfg =
      if-Tells (is_neg (pin o cfg)) _ _
        (λ e.
          released-Tells cfg (fail o pin_cpu (pin o cfg) (so_far o (mode_of cfg)))
            (gb_summary_free (no_summary machine.double))
            (fail-IsHonest pin_cpu (pin o cfg) (so_far o (mode_of cfg)) e refl))
        (λ e.
          if-Tells cfg.race_mode _ _
            (λ r.
              run_race-Tells cfg (
                ap is_benchmark
                  (if_true race (if cfg.dump_proof then dump_proof else benchmark) r)))
            (run_rest-Tells cfg))

  parsed-Tells : (json : Bool) (r : Outcome) → Tells (parsed o json r)
  parsed-Tells json (exited cfg) = tt
  parsed-Tells json (returned ret cfg) =
      if-Tells (is_neg ret) _ _ (λ e. failed json e) (λ e. run_parsed-Tells cfg)
    where
      failed :
          (json : Bool)
          → is_neg ret ≡ true
          → Tells (ends 1 (if json then some (fail o cli_parse ret (so_far o benchmark)) else none))
      failed true e = fail-IsHonest cli_parse ret (so_far o benchmark) e refl
      failed false e = tt

  -- Whatever the arguments and the world outside are, a report that main prints is honest: its `ok` is
  -- true exactly with exit code 0; it has a phase of error and a negative code exactly if `ok` is false;
  -- and it has a benchmark exactly after a success in benchmark mode.
  pub main-IsHonest :
      (args : List Bytes) (code : ℕ) (r : Report (F o))
      → main o args ≡ ends code (some r)
      → IsHonest code r
  unfolding main
  main-IsHonest args code r e =
      subst Tells e
        (parsed-Tells (argv_requests_json args) (gb_cli_parse o.libc o.getopt_long args))
