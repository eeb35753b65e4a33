-- ===== src/Main.antt =====
-- The main program (src/main.c): which parts run, the report in JSON and the exit code. What is
-- printed as text is not modelled.
pub mod Json
pub mod JsonTrip
pub mod Exit
pub mod Whole
pub mod Races
use gatebench.Base.{
  ℕ, Bool, true, false, ◌||◌, Option, none, some, List, [], ◌∷◌, ℤ, pos, is_neg, str_eq,
  if◌then◌else◌,
}
use gatebench.Base.Libc.{Bytes, Libc}
use gatebench.Config.{GbConfig}
use gatebench.Cli.{Outcome, returned, exited, gb_cli_parse}
use gatebench.Cli.Options.{Reported}
use gatebench.Util.{Call, Timespec, gb_util_pin_cpu}
use gatebench.Selftest.{Suites, gb_selftest_run}
use gatebench.Nl.Open.{Opening, gb_nl_open}
use gatebench.Nl.Exchange.{World}
use gatebench.Bench.Act.{Machine}
use gatebench.Race.Run.{ThreadWorld, RaceEnd, RaceSummary, gb_race_run_with_summary, gb_race_run}
use gatebench.Proof.{gb_proof_run}
use gatebench.Proof.Prepare.{GbDumpSummary}
use gatebench.Proof.Pcap.{PcapWorld, Capture}
use gatebench.Bench.Aggregate.{GbSummary, no_summary, gb_summary_free, gb_bench_run}

-- for (int i = 1; i < argc; i++): the arguments behind the program's name
unfoldable pub argv_requests_json : List Bytes → Bool
argv_requests_json [] = false
argv_requests_json (a ∷ args) =
    (str_eq a (b'-' ∷ b'j' ∷ []) || str_eq a (b'-' ∷ b'-' ∷ b'j' ∷ b's' ∷ b'o' ∷ b'n' ∷ []))
    || argv_requests_json args

pub data Mode : Type 0 where
  benchmark : Mode
  dump_proof : Mode
  race : Mode

-- The names that error_phase gets.
pub data Phase : Type 0 where
  cli_parse : Phase
  pin_cpu : Phase
  in_race : Phase
  selftests : Phase
  in_dump_proof : Phase
  in_benchmark : Phase

-- What json_print_report gets, less the configuration. In `race_out` the inner `none` is
-- a summary that is as it was cleared.
pub record Report (F : Type 0) : Type 0 where
  pub mode : Mode
  pub ok : Bool
  pub selftests_ran : Bool
  pub selftests_result : ℤ
  pub benchmark_out : Option (GbSummary F)
  pub dump_out : Option GbDumpSummary
  pub race_out : Option (Option RaceSummary)
  pub error_phase : Option Phase
  pub error_code : ℤ

-- How the program ends: it waits for the kernel, uses memory that it gave back, leaves in the option
-- parser, or returns from main with an exit code and the report, if one was asked for.
pub data Ending (F : Type 0) : Type 0 where
  waits : Ending F
  faults : Ending F
  leaves : Ending F
  ends : ℕ → Option (Report F) → Ending F

-- What the program meets outside: the C library, the scheduler, the cases of the selftests and the
-- socket that they get, and what the race, the dump proof and the benchmark meet.
pub record Outside : Type 1 where
  pub libc : Libc
  pub getopt_long : List Bytes → List Reported
  pub setaffinity : ℕ → Call Unit
  pub suites : Suites
  pub selftest_socket : Opening
  pub machine : Machine
  pub affinity : Option (ℕ → Bool)
  pub nproc : ℤ
  pub race_seconds : List (List (ThreadWorld machine))
  pub pcap : PcapWorld
  pub proof_socket : Opening
  pub proof_worlds : List (World machine.mnl.Buf)
  pub grant : ℕ → ℕ → Bool
  pub bench_socket : Opening
  pub worlds : List (World machine.mnl.Buf)
  pub clocks : List (Call Timespec)

abbrev pub mode_of : GbConfig → Mode
mode_of cfg = if cfg.race_mode then race else if cfg.dump_proof then dump_proof else benchmark

abbrev pub exit_code : Bool → ℕ
exit_code ok = if ok then 0 else 1

module _ (o : Outside) where
  open o use {machine}

  abbrev pub F : Type 0
  F = machine.double.F

  -- The label `out`: the report, then gb_summary_free(&summary).
  abbrev pub released : GbConfig → Report F → Option (GbSummary F) → Ending F
  released cfg r none = faults
  released cfg r (some s) = ends (exit_code r.ok) (if cfg.json then some r else none)

  abbrev pub out : GbConfig → Report F → GbSummary F → Ending F
  out cfg r summary = released cfg r (gb_summary_free summary)

  -- The variables of main before anything has failed.
  abbrev pub so_far : Mode → Report F
  so_far mode = record {
    mode = mode;
    ok = true;
    selftests_ran = false;
    selftests_result = pos 0;
    benchmark_out = none;
    dump_out = none;
    race_out = none;
    error_phase = none;
    error_code = pos 0;
  }

  -- error_phase = ...; error_code = ret; exit_code = EXIT_FAILURE;
  abbrev pub fail : Phase → ℤ → Report F → Report F
  fail phase ret r = record r { ok = false; error_phase = some phase; error_code = ret }

  abbrev pub fail_if_neg : Phase → ℤ → Report F → Report F
  fail_if_neg phase ret r = if is_neg ret then fail phase ret r else r

  abbrev pub after_bench : GbConfig → Report F → Option (ℤ × GbSummary F) → Ending F
  after_bench cfg r none = waits
  after_bench cfg r (some (ret, summary)) =
      if is_neg ret
      then out cfg (fail in_benchmark ret r) summary
      else out cfg (record r { benchmark_out = some summary }) summary

  -- if (cfg.dump_proof) { ... goto out; }
  abbrev pub after_proof : GbConfig → Report F → Option (ℤ × GbDumpSummary × Capture) → Ending F
  after_proof cfg r none = waits
  after_proof cfg r (some (ret, summary, capture)) =
      out cfg (fail_if_neg in_dump_proof ret (record r { dump_out = some summary }))
        (no_summary machine.double)

  abbrev pub after_race : GbConfig → Option (ℤ × Option (Option RaceSummary)) → Ending F
  after_race cfg none = waits
  after_race cfg (some (ret, race_out)) =
      out cfg (fail_if_neg in_race ret (record (so_far (mode_of cfg)) { race_out = race_out }))
        (no_summary machine.double)

  -- race_out is the summary if there is a report to print.
  abbrev pub reported : Option (RaceEnd machine) → Option (ℤ × Option (Option RaceSummary))
  reported none = none
  reported (some r) = some (r.code, some r.summary)

  abbrev pub unreported : Option ℤ → Option (ℤ × Option (Option RaceSummary))
  unreported none = none
  unreported (some ret) = some (ret, none)

  -- cfg.json ? gb_race_run_with_summary(&cfg, &race_summary) : gb_race_run(&cfg), and race_out
  abbrev pub race_result : GbConfig → Option (ℤ × Option (Option RaceSummary))
  race_result cfg =
      if cfg.json
      then reported (gb_race_run_with_summary machine o.affinity o.nproc o.race_seconds (some cfg))
      else unreported (gb_race_run machine o.affinity o.nproc o.race_seconds (some cfg))

  -- if (cfg.race_mode) { ... goto out; }
  unfoldable pub run_race : GbConfig → Ending F
  unfolding gb_race_run_with_summary gb_race_run
  run_race cfg = after_race cfg (race_result cfg)

  abbrev pub after_selftests : GbConfig → Mode → ℤ → Ending F
  after_selftests cfg mode ret =
      let r = record (so_far mode) { selftests_ran = true; selftests_result = ret } in
      if is_neg ret
      then out cfg (fail selftests ret r) (no_summary machine.double)
      else if cfg.dump_proof
      then after_proof cfg r (gb_proof_run machine o.pcap o.proof_socket o.proof_worlds cfg)
      else after_bench cfg r (gb_bench_run machine o.grant o.bench_socket o.worlds o.clocks cfg)

  abbrev pub run_rest : GbConfig → Ending F
  run_rest cfg =
      let (ret, cfg') =
        gb_selftest_run o.suites (gb_nl_open machine.malloc o.selftest_socket true).0 cfg in
      after_selftests cfg' (mode_of cfg) ret

  -- gb_util_pin_cpu(cfg.cpu) if it is asked for
  abbrev pub pin : GbConfig → ℤ
  pin cfg = if is_neg cfg.cpu then pos 0 else gb_util_pin_cpu o.setaffinity cfg.cpu

  abbrev pub run_parsed : GbConfig → Ending F
  run_parsed cfg =
      if is_neg (pin cfg)
      then out cfg (fail pin_cpu (pin cfg) (so_far (mode_of cfg))) (no_summary machine.double)
      else if cfg.race_mode
      then run_race cfg
      else run_rest cfg

  -- From gb_cli_parse on.
  abbrev pub parsed : Bool → Outcome → Ending F
  parsed json_requested (exited cfg) = leaves
  parsed json_requested (returned ret cfg) =
      if is_neg ret
      then ends 1 (if json_requested then some (fail cli_parse ret (so_far benchmark)) else none)
      else run_parsed cfg

  -- `args` are the arguments behind the program's name.
  unfoldable pub main : List Bytes → Ending F
  unfolding gb_cli_parse gb_util_pin_cpu gb_selftest_run gb_bench_run gb_proof_run run_race
      argv_requests_json
  main args = parsed (argv_requests_json args) (gb_cli_parse o.libc o.getopt_long args)
