-- ===== src/Selftest/Verdict.antt =====
-- The verdict of gb_selftest_run, from which cases fail.
use gatebench.Base.{
  ℕ, ◌+◌, ◌≡◌, refl, ◌&&◌, ◌||◌, not, List, [], ◌∷◌, pos, neg, einval, ltb, ◌==◌, ◌==ℤ◌,
  if◌then◌else◌, arith, Bool-cases, inl, inr,
}
use gatebench.Base.Libc.{Bytes}
use gatebench.Config.{GbConfig}
use gatebench.Selftest.{
  Case, Tally, Suites, is_soft_fail, passes, count_case, run_cases, no_tally, run_test_suite,
  forgive, historical_base, unpatched_base, gb_selftest_run,
}

-- The cases that fail without being allowed to, and those that fail and are.
abbrev pub hard_failures : List Bytes → ℕ → ℕ → List Case → ℕ
hard_failures soft base i [] = 0
hard_failures soft base i (c ∷ tests) =
    (if not (passes base i c) && not (is_soft_fail c.name soft) then 1 else 0)
    + hard_failures soft base (i + 1) tests

abbrev pub soft_failures : List Bytes → ℕ → ℕ → List Case → ℕ
soft_failures soft base i [] = 0
soft_failures soft base i (c ∷ tests) =
    (if not (passes base i c) && is_soft_fail c.name soft then 1 else 0)
    + soft_failures soft base (i + 1) tests

one_case :
    (soft : List Bytes) (base i : ℕ) (c : Case) (t : Tally)
    → ((count_case soft base i c t).failed
        ≡ t.failed + hard_failures soft base i (c ∷ []) + soft_failures soft base i (c ∷ []))
      × ((count_case soft base i c t).soft_failed
          ≡ t.soft_failed + soft_failures soft base i (c ∷ []))
one_case soft base i c t = elim (Bool-cases (passes base i c)) [
  | inl e ↦ rw e (omega arith, omega arith)
  | inr e ↦ elim (Bool-cases (is_soft_fail c.name soft)) [
    | inl k ↦ rw (e, k) (omega arith, omega arith)
    | inr k ↦ rw (e, k) (omega arith, omega arith)
  ]
]

tallied :
    (soft : List Bytes) (base i : ℕ) (tests : List Case) (t : Tally)
    → ((run_cases soft base i tests t).failed
        ≡ t.failed + hard_failures soft base i tests + soft_failures soft base i tests)
      × ((run_cases soft base i tests t).soft_failed
          ≡ t.soft_failed + soft_failures soft base i tests)
unfolding run_cases
tallied soft base i [] t = (omega arith, omega arith)
tallied soft base i (c ∷ tests) t =
    let here = one_case soft base i c t in
    let rest = tallied soft base (i + 1) tests (count_case soft base i c t) in
    (omega (arith, here.0, rest.0), omega (arith, here.1, rest.1))

-- A suite is fine, with its soft failures forgiven, if and only if it has no other failure.
suite_fine :
    (soft : List Bytes) (base : ℕ) (tests : List Case)
    → ((forgive (run_test_suite soft base tests) ==ℤ pos 0)
        ≡ (hard_failures soft base 0 tests == 0))
      × ((run_test_suite soft base tests).1.soft_failed ≡ soft_failures soft base 0 tests)
unfolding run_test_suite
suite_fine soft base tests =
    let counts = tallied soft base 0 tests no_tally in
    (rw (counts.0, counts.1) (ground arith), omega (arith, counts.1))

no_soft : (base i : ℕ) (tests : List Case) → soft_failures [] base i tests ≡ 0
no_soft base i [] = refl
no_soft base i (c ∷ tests) = ground (arith, no_soft base (i + 1) tests)

-- Without soft names the code of a suite needs no forgiveness.
strict_fine :
    (base : ℕ) (tests : List Case)
    → ((run_test_suite [] base tests).0 ==ℤ pos 0) ≡ (hard_failures [] base 0 tests == 0)
unfolding run_test_suite
strict_fine base tests =
    let counts = tallied [] base 0 tests no_tally in
    rw (counts.0, no_soft base 0 tests) (ground arith)

-- Once the socket is open, gb_selftest_run returns -EINVAL if some case fails that is not named as a
-- soft failure of its suite; otherwise 1 if some case fails softly, and 0 if every case passes. The
-- internal and the stable suite have no soft names.
pub gb_selftest_run-verdict :
    (suites : Suites) (cfg : GbConfig)
    → (gb_selftest_run suites (pos 0) cfg).0 ≡ (
        if ((hard_failures [] cfg.index 0 suites.internal_tests == 0)
            && (hard_failures [] cfg.index 0 suites.stable_tests == 0))
          && ((hard_failures suites.historical_fail_tests
                  (historical_base suites cfg)
                  0
                  suites.historical_tests
                == 0)
              && (hard_failures suites.unpatched_fail_tests
                    (unpatched_base suites cfg)
                    0
                    suites.unpatched_tests
                  == 0))
        then (if ltb 0 (
                soft_failures suites.historical_fail_tests
                  (historical_base suites cfg)
                  0
                  suites.historical_tests)
              || ltb 0 (
                  soft_failures suites.unpatched_fail_tests
                    (unpatched_base suites cfg)
                    0
                    suites.unpatched_tests)
            then pos 1
            else pos 0)
        else neg einval)
unfolding gb_selftest_run
gb_selftest_run-verdict suites cfg =
    let stable = suite_fine [] cfg.index suites.stable_tests in
    let historical =
      suite_fine suites.historical_fail_tests (historical_base suites cfg)
        suites.historical_tests in
    let unpatched =
      suite_fine suites.unpatched_fail_tests (unpatched_base suites cfg) suites.unpatched_tests in
    rw
      (
        gb_selftest_run,
        strict_fine cfg.index suites.internal_tests,
        stable.0,
        historical.0,
        unpatched.0,
        stable.1,
        historical.1,
        unpatched.1,
        no_soft cfg.index 0 suites.stable_tests,
      )
      refl
