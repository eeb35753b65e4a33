-- ===== src/Tests/MainRuns.antt =====
-- src/main.c
use gatebench.Base.{
  ℕ, ◌≡◌, refl, true, false, none, some, List, [], ◌∷◌, ◌++◌, pos, neg, length, replicate, arith,
  if◌then◌else◌,
}
use gatebench.Base.Libc.{Bytes}
use gatebench.Config.{GbConfig, gb_config_init}
use gatebench.Cli.{gb_cli_parse, check_config, check_rest}
use gatebench.Cli.Options.{Reported, choice, apply_option, apply_options}
use gatebench.Util.{failed}
use gatebench.Selftest.{Suites, gb_selftest_run, run_test_suite, run_cases}
use gatebench.Nl.Open.{bound, gb_nl_open}
use gatebench.Bench.Run.{RunResult}
use gatebench.Bench.Aggregate.{GbSummary, live}
use gatebench.Main.{
  Report, Outside, F, main, faults, ends, so_far, fail, benchmark, race, cli_parse,
  argv_requests_json,
}
use gatebench.Main.Json.{json_print_escaped_string}
use gatebench.Main.JsonTrip.{read_string, between, json_print_escaped_string-read}
use gatebench.Main.Exit.{IsHonest, main-IsHonest}
use gatebench.Main.Whole.{Starts, main-no_runs, main-returns}
use gatebench.Main.Races.{StartsRace, main-races}
use gatebench.Race.Run.{RaceSummary}
use gatebench.Tests.ThreadRuns.{idle, one_second, all_end}
use gatebench.Tests.SampleLibc.{sample_libc}
use gatebench.Tests.SampleRun.{machine, short, ack, acked_lem, worlds, clocks}

-- The option -i 1 -w 0 -e 1 -r n as getopt_long reports it; n is one digit.
abbrev options : ℕ → List Reported
options n =
    record { code = b'i'; optarg = some (b'1' ∷ []) }
    ∷ record { code = b'w'; optarg = some (b'0' ∷ []) }
    ∷ record { code = b'e'; optarg = some (b'1' ∷ []) }
    ∷ record { code = b'r'; optarg = some (n ∷ []) }
    ∷ []

abbrev suites : Suites
suites = record {
  internal_tests = [];
  stable_tests = record { name = b'b' ∷ []; func = λ i. neg 22; expected_err = neg 22 } ∷ [];
  historical_tests = [];
  unpatched_tests = [];
  historical_fail_tests = [];
  unpatched_fail_tests = [];
}

abbrev outside : List Reported → Outside
outside reported = record {
  libc = sample_libc;
  getopt_long = λ argv. reported;
  setaffinity = λ cpu. failed 22;
  suites = suites;
  selftest_socket = bound 6;
  affinity = none;
  nproc = pos 4;
  race_seconds = [];
  pcap = record { have_pcap = false; open_live = false; dump_open = false; thread = failed 11 };
  proof_socket = bound 8;
  proof_worlds = [];
  machine = machine;
  grant = λ k n. true;
  bench_socket = bound 7;
  worlds = worlds;
  clocks = clocks;
}

abbrev no_runs : GbConfig
no_runs = record short { runs = 0 }

short-Starts : Starts (outside (options b'1')) [] short short (pos 0)
unfolding gb_cli_parse apply_options apply_option choice check_config check_rest gb_config_init
    sample_libc gb_nl_open gb_selftest_run run_test_suite run_cases
short-Starts = record {
  accepted = refl;
  any_cpu = refl;
  no_race = refl;
  no_proof = refl;
  still_no_proof = refl;
  tested = refl;
  fine = refl;
}

no_runs-Starts : Starts (outside (options b'0')) [] no_runs no_runs (pos 0)
unfolding gb_cli_parse apply_options apply_option choice check_config check_rest gb_config_init
    sample_libc gb_nl_open gb_selftest_run run_test_suite run_cases
no_runs-Starts = record {
  accepted = refl;
  any_cpu = refl;
  no_race = refl;
  no_proof = refl;
  still_no_proof = refl;
  tested = refl;
  fine = refl;
}

main-no_runs_example : main (outside (options b'0')) [] ≡ faults
main-no_runs_example =
    main-no_runs (outside (options b'0')) [] no_runs no_runs (pos 0) 7 no_runs-Starts refl refl refl
      refl refl

main-returns_example :
    (r : Report (F (outside (options b'1')))) × (s : GbSummary (F (outside (options b'1'))))
    × (rs : List (RunResult (F (outside (options b'1'))))) × (main (outside (options b'1')) []
        ≡ ends 0 (if short.json then some r else none))
    × (r.ok ≡ true)
    × (r.benchmark_out ≡ some s)
    × (s.runs ≡ live rs)
    × (length rs ≡ 1)
unfolding gb_config_init
main-returns_example =
    main-returns (outside (options b'1')) [] short short (pos 0) 7 short-Starts refl (λ n. refl)
      (λ k n. refl) (omega arith) (omega arith) (omega arith) (omega arith) (omega arith)
      (omega arith)
      (
        refl,
        (pos 0, ack 1 ∷ [], acked_lem 1, refl),
        (
          refl,
          (pos 0, ack 2 ∷ [], acked_lem 2, refl),
          (
            refl,
            (pos 0, ack 3 ∷ [], acked_lem 3, refl),
            (refl, (pos 0, ack 4 ∷ [], acked_lem 4, refl), tt),
          ),
        ),
      )
      tt

-- --json with an unknown option
abbrev refused : Outside
refused = outside (record { code = b'?'; optarg = none } ∷ [])

abbrev json_args : List Bytes
json_args = (b'-' ∷ b'j' ∷ []) ∷ (b'-' ∷ b'q' ∷ []) ∷ []

main-IsHonest_example : IsHonest 1 (fail refused cli_parse (neg 22) (so_far refused benchmark))
unfolding main argv_requests_json gb_cli_parse apply_options apply_option choice
main-IsHonest_example =
    main-IsHonest refused json_args 1 (fail refused cli_parse (neg 22) (so_far refused benchmark))
      refl

json_print_escaped_string-read_example :
    (body : Bytes) × (json_print_escaped_string (some (b'a' ∷ 34 ∷ 31 ∷ 10 ∷ [])) ++ b',' ∷ []
      ≡ 34 ∷ body)
    × (read_string body between ≡ some (b'a' ∷ 34 ∷ 31 ∷ 10 ∷ [], b',' ∷ []))
json_print_escaped_string-read_example =
    json_print_escaped_string-read (b'a' ∷ 34 ∷ 31 ∷ 10 ∷ []) (b',' ∷ [])

-- A race of one second.
abbrev race_options : List Reported
race_options =
    record { code = 264; optarg = none }
    ∷ record { code = 265; optarg = some (b'1' ∷ []) }
    ∷ record { code = b'j'; optarg = none }
    ∷ options b'1'

abbrev racing : Outside
racing = record (outside race_options) { race_seconds = replicate 8 idle ∷ [] }

one_second-StartsRace : StartsRace racing [] one_second
unfolding gb_cli_parse apply_options apply_option choice check_config check_rest gb_config_init
    sample_libc
one_second-StartsRace = record { accepted = refl; any_cpu = refl; races = refl; reports = refl }

main-races_example :
    (r : Report (F racing)) × (s : RaceSummary) × (main racing [] ≡ ends 0 (some r))
    × (r.ok ≡ true)
    × (r.mode ≡ race)
    × (r.race_out ≡ some (some s))
    × (s.completed ≡ true)
    × (s.duration_seconds ≡ 1)
    × (length s.workers ≡ 8)
main-races_example =
    main-races racing [] one_second one_second-StartsRace (omega arith) refl ((refl, all_end), tt)
