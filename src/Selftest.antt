-- ===== src/Selftest.antt =====
-- The runner of the selftests (src/selftest.c): suites of cases that call a function on an index, the
-- tallies, and the verdict. What it prints is not modelled.
pub mod Verdict
use gatebench.Base.{
  ℕ, ◌+◌, ◌*◌, ◌%◌, Bool, true, false, ◌&&◌, ◌||◌, not, Option, none, some, List, [], ◌∷◌, ℤ, pos,
  neg, einval, u32_mod, ltb, ◌==◌, ◌==ℤ◌, if◌then◌else◌, length, str_eq, is_neg,
}
use gatebench.Base.Libc.{Bytes}
use gatebench.Config.{GbConfig}
use gatebench.Nl.Expected.{gb_nl_error_expected}

-- struct gb_selftest_case; `func` is the function on the open socket
pub record Case : Type 0 where
  pub name : Bytes
  pub func : ℕ → ℤ
  pub expected_err : ℤ

-- What run_test_suite counts.
pub record Tally : Type 0 where
  pub passed : ℕ
  pub failed : ℕ
  pub soft_failed : ℕ
  pub large_dump_failed : Bool

-- "large dump", "replace append entries", "create missing entry list", "create empty entry list"
abbrev pub unpatched_large_dump : Bytes
unpatched_large_dump = b'l' ∷ b'a' ∷ b'r' ∷ b'g' ∷ b'e' ∷ b' ' ∷ b'd' ∷ b'u' ∷ b'm' ∷ b'p' ∷ []

abbrev pub is_soft_fail : Bytes → List Bytes → Bool
is_soft_fail name [] = false
is_soft_fail name (s ∷ soft_fail_names) = str_eq name s || is_soft_fail name soft_fail_names

-- base_index + (uint32_t)(i * 1024u)
abbrev pub test_index : ℕ → ℕ → ℕ
test_index base_index i = (base_index + i * 1024 % u32_mod) % u32_mod

abbrev pub passes : ℕ → ℕ → Case → Bool
passes base_index i c = gb_nl_error_expected (c.func (test_index base_index i)) c.expected_err

abbrev pub count_case : List Bytes → ℕ → ℕ → Case → Tally → Tally
count_case soft base_index i c t =
    if passes base_index i c then record t { passed = t.passed + 1 } else record t {
      failed = t.failed + 1;
      soft_failed = if is_soft_fail c.name soft then t.soft_failed + 1 else t.soft_failed;
      large_dump_failed = str_eq c.name unpatched_large_dump || t.large_dump_failed;
    }

unfoldable pub run_cases : List Bytes → ℕ → ℕ → List Case → Tally → Tally
run_cases soft base_index i [] t = t
run_cases soft base_index i (c ∷ tests) t =
    run_cases soft base_index (i + 1) tests (count_case soft base_index i c t)

abbrev pub no_tally : Tally
no_tally = record { passed = 0; failed = 0; soft_failed = 0; large_dump_failed = false }

unfoldable pub run_test_suite : List Bytes → ℕ → List Case → ℤ × Tally
unfolding run_cases
run_test_suite soft base_index tests =
    let t = run_cases soft base_index 0 tests no_tally in
    (if t.failed == 0 then pos 0 else neg einval, t)

-- if (soft_failed > 0 && failed == soft_failed) ret = 0;
abbrev pub forgive : ℤ × Tally → ℤ
forgive (ret, t) = if ltb 0 t.soft_failed && (t.failed == t.soft_failed) then pos 0 else ret

-- The tables of src/selftest.c: the cases of the suites and the names that may fail softly.
pub record Suites : Type 0 where
  pub internal_tests : List Case
  pub stable_tests : List Case
  pub historical_tests : List Case
  pub unpatched_tests : List Case
  pub historical_fail_tests : List Bytes
  pub unpatched_fail_tests : List Bytes

abbrev pub lower_entries : ℤ × Tally → GbConfig → GbConfig
lower_entries (ret, t) cfg =
    if (ltb 0 t.soft_failed && (t.failed == t.soft_failed))
      && (t.large_dump_failed && ltb 50 cfg.entries)
    then record cfg { entries = 50 }
    else cfg

abbrev pub verdict : ℤ × Tally → ℤ × Tally → ℤ × Tally → ℤ × Tally → ℤ
verdict internal stable historical unpatched =
    if ((internal.0 ==ℤ pos 0) && (forgive stable ==ℤ pos 0))
      && ((forgive historical ==ℤ pos 0) && (forgive unpatched ==ℤ pos 0))
    then (if ltb 0 stable.1.soft_failed
          || (ltb 0 historical.1.soft_failed || ltb 0 unpatched.1.soft_failed)
        then pos 1
        else pos 0)
    else neg einval

-- The first indices of the suites.
abbrev pub historical_base : Suites → GbConfig → ℕ
historical_base suites cfg = (cfg.index + length suites.stable_tests * 1024 % u32_mod) % u32_mod

abbrev pub unpatched_base : Suites → GbConfig → ℕ
unpatched_base suites cfg =
    (cfg.index + (length suites.stable_tests + length suites.historical_tests) * 1024 % u32_mod)
    % u32_mod

-- `opened` is what gb_nl_open returns.
unfoldable pub gb_selftest_run : Suites → ℤ → GbConfig → ℤ × GbConfig
unfolding run_test_suite
gb_selftest_run suites opened cfg =
    let base = cfg.index in
    let internal = run_test_suite [] base suites.internal_tests in
    let stable = run_test_suite [] base suites.stable_tests in
    let historical =
      run_test_suite suites.historical_fail_tests (historical_base suites cfg)
        suites.historical_tests in
    let unpatched =
      run_test_suite suites.unpatched_fail_tests (unpatched_base suites cfg)
        suites.unpatched_tests in
    if is_neg opened
    then (opened, cfg)
    else (verdict internal stable historical unpatched, lower_entries unpatched cfg)
