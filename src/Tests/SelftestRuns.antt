-- ===== src/Tests/SelftestRuns.antt =====
-- src/selftest.c
use gatebench.Base.{◌≡◌, [], ◌∷◌, pos, neg}
use gatebench.Config.{gb_config_init}
use gatebench.Selftest.{Suites, gb_selftest_run, unpatched_large_dump}
use gatebench.Selftest.Verdict.{gb_selftest_run-verdict}

abbrev suites : Suites
suites = record {
  internal_tests = record { name = b'a' ∷ []; func = λ i. pos 0; expected_err = pos 0 } ∷ [];
  stable_tests = record { name = b'b' ∷ []; func = λ i. neg 22; expected_err = neg 22 } ∷ [];
  historical_tests = [];
  unpatched_tests =
      record { name = unpatched_large_dump; func = λ i. neg 105; expected_err = pos 0 } ∷ [];
  historical_fail_tests = [];
  unpatched_fail_tests = unpatched_large_dump ∷ [];
}

gb_selftest_run-verdict_example : (gb_selftest_run suites (pos 0) gb_config_init).0 ≡ pos 1
gb_selftest_run-verdict_example = gb_selftest_run-verdict suites gb_config_init
