-- ===== src/Nl/Expected.antt =====
-- gb_nl_error_expected of src/nl.c, which the selftests judge the kernel's errors by.
use gatebench.Base.{
  refl, ◌≡◌, ◌^◌, ◌-◌, Bool, ◌||◌, ◌&&◌, not, ℤ, pos, negsuc, neg, is_neg, ◌==ℤ◌, if◌then◌else◌,
  einval,
}

-- GB_NL_EXPECT_COMPAT is INT_MIN.
abbrev pub gb_nl_expect_compat : ℤ
gb_nl_expect_compat = negsuc (2 ^ 31 - 1)

abbrev pub gb_nl_error_expected : ℤ → ℤ → Bool
gb_nl_error_expected err expected =
    if expected ==ℤ gb_nl_expect_compat
    then err ==ℤ pos 0 || err ==ℤ neg einval
    else if not (is_neg expected)
    then err ==ℤ expected
    else is_neg err && err ==ℤ expected

-- gb_nl_error_expected accepts 0 and -EINVAL and nothing else for GB_NL_EXPECT_COMPAT; for every
-- other expectation, of either sign, it accepts that code and nothing else.
pub gb_nl_error_expected_lem :
    (err expected : ℤ)
    → gb_nl_error_expected err expected ≡ (
        if expected ==ℤ gb_nl_expect_compat
        then err ==ℤ pos 0 || err ==ℤ neg einval
        else err ==ℤ expected)
gb_nl_error_expected_lem (pos a) (pos b) = refl
gb_nl_error_expected_lem (pos a) (negsuc b) = refl
gb_nl_error_expected_lem (negsuc a) (pos b) = refl
gb_nl_error_expected_lem (negsuc a) (negsuc b) = refl
