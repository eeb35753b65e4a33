-- ===== src/Tests/RaceRuns.antt =====
-- src/race.c
use gatebench.Base.{
  get_or, ◌+◌, ℕ, ◌<◌, ◌==◌, Bool, pos, none, ◌⊎◌, zero, suc, ◌≤◌, ◌≡◌, refl, ap, some, List, [],
  ◌∷◌, ◌++◌, neg, length, replicate, All, arith, true,
}
use gatebench.Gate.Types.{GateEntry}
use gatebench.Race.{race_fill_entries, race_record_err, race_errno_max}
use gatebench.Race.Random.{IsRandom, race_fill_entries-IsRandom}
use gatebench.Race.Extack.{ExtackStats, race_record_extack}
use gatebench.Race.Told.{IsTold, race_record_extack-IsTold}
use gatebench.Race.Top.{ErrTop, race_print_err_breakdown}
use gatebench.Race.Exchange.{Lists, Descends}
use gatebench.Race.Greatest.{Low}
use gatebench.Race.TopFive.{IsGenuine, race_print_err_breakdown-top}
use gatebench.Mnl.Tlv.{leaf, cons, one}
use gatebench.Mnl.Writing.{header_only}
use gatebench.Gate.Build.{tc_gate_bytes}
use gatebench.Gate.Trees.{u32_attr, u64_attr}
use gatebench.Gate.Numbers.{
  tc_act_pipe, tca_gate_parms, tca_gate_clockid, tca_gate_base_time, tca_gate_cycle_time,
}
use gatebench.Race.Invalid.{
  race_message, bad_clockid, bad_base_time, bad_cycle_time, invalid_action,
}
use gatebench.Race.Cpus.{race_collect_cpus, Climbs, race_collect_cpus-allowed}
use gatebench.Race.Updates.{basetime_shape}
use gatebench.Race.Contents.{holding, invalid_contents, basetime_shape-cycle}
use gatebench.Tests.SampleMnl.{sample_mnl}
use gatebench.Race.Errors.{IsTallied, added, total, race_record_err-IsTallied}

abbrev blank : GateEntry
blank = record { index = 0; gate_state = true; interval = 0; ipv = neg 1; maxoctets = neg 1 }

race_fill_entries-IsRandom_example :
    (count : ℕ) × (new rest : List GateEntry) × (last : ℕ) × (race_fill_entries
        (blank ∷ blank ∷ blank ∷ [])
        3
        5000
        1
      ≡ some (count, new ++ rest, last))
    × (1 ≤ count)
    × (count ≤ 3)
    × (length new ≡ count)
    × All (IsRandom 5000) new
race_fill_entries-IsRandom_example =
    race_fill_entries-IsRandom (blank ∷ blank ∷ blank ∷ []) 3 5000 1 refl (omega arith)
      (omega arith) (omega arith)

length-zeros : (n : ℕ) → length {A = ℕ} (replicate n 0) ≡ n
length-zeros zero = refl
length-zeros (suc n) = ap suc (length-zeros n)

total-zeros : (n : ℕ) → total (replicate n 0) ≡ 0
total-zeros zero = refl
total-zeros (suc n) = omega (arith, total-zeros n)

no_errors : IsTallied 0 (replicate race_errno_max 0)
no_errors = record {
  room = length-zeros race_errno_max;
  covered = omega (arith, total-zeros race_errno_max);
}

race_record_err-IsTallied_example :
    (counts : List ℕ) × (race_record_err (some 0) (some (replicate race_errno_max 0)) (neg 17)
      ≡ (some 1, some counts))
    × IsTallied 1 counts
    × ((j : ℕ) → get_or counts j 0 ≡ get_or (replicate race_errno_max 0) j 0 + added (neg 17) j)
race_record_err-IsTallied_example =
    race_record_err-IsTallied 0 (replicate race_errno_max 0) (neg 17) no_errors (omega arith)

-- Six free slots
abbrev no_extack : ExtackStats
no_extack = record { entries = replicate 6 (record { msg = []; count = 0 }); other = 0 }

no_extack-IsTold : IsTold [] no_extack
no_extack-IsTold = record {
  slots = refl;
  exact = (λ u. cc, (λ u. cc, (λ u. cc, (λ u. cc, (λ u. cc, (λ u. cc, tt))))));
  distinct = (λ u. cc, (λ u. cc, (λ u. cc, (λ u. cc, (λ u. cc, (λ u. cc, tt))))));
  complete = λ k n f. refl;
  covered = refl;
}

race_record_extack-IsTold_example :
    (s : ExtackStats) × (race_record_extack (some no_extack) (some (b'n' ∷ b'o' ∷ [])) ≡ some s)
    × IsTold ((b'n' ∷ b'o' ∷ []) ∷ []) s
race_record_extack-IsTold_example =
    race_record_extack-IsTold (b'n' ∷ b'o' ∷ []) [] no_extack no_extack-IsTold (omega arith)
      (omega arith) refl

-- Counts for the error numbers 1 to 7
abbrev by_number : List ℕ
by_number = 3 ∷ 0 ∷ 9 ∷ 1 ∷ 4 ∷ 7 ∷ 2 ∷ []

race_print_err_breakdown-top_example :
    (lines : List ErrTop) × (race_print_err_breakdown 26 (0 ∷ by_number) ≡ some lines)
    × Descends (λ (t : ErrTop). t.count) lines
    × All (IsGenuine (0 ∷ by_number)) lines
    × (Lists (record { err = 4; count = 1 }) lines ⊎ ((length lines ≡ 5) × Low 1 lines))
race_print_err_breakdown-top_example =
    race_print_err_breakdown-top 0 by_number 26 3 1 refl refl (omega arith)

invalid_contents_example :
    (sample_mnl.draft (race_message sample_mnl 0x600 7 (bad_clockid sample_mnl 7) header_only)
      ≡ holding sample_mnl 0x600 7 (
          cons (leaf tca_gate_parms (tc_gate_bytes sample_mnl 7 tc_act_pipe)) (
            cons (u64_attr sample_mnl tca_gate_clockid 11) (
              cons
                (u64_attr sample_mnl tca_gate_base_time 0)
                (one (u64_attr sample_mnl tca_gate_cycle_time 1000000))))))
    × (sample_mnl.draft (race_message sample_mnl 0x600 7 (bad_base_time sample_mnl 7) header_only)
        ≡ holding sample_mnl 0x600 7 (
            cons (leaf tca_gate_parms (tc_gate_bytes sample_mnl 7 tc_act_pipe)) (
              cons (u32_attr sample_mnl tca_gate_clockid 11) (
                cons
                  (u32_attr sample_mnl tca_gate_base_time 0)
                  (one (u64_attr sample_mnl tca_gate_cycle_time 1000000))))))
    × (sample_mnl.draft (race_message sample_mnl 0x600 7 (bad_cycle_time sample_mnl 7) header_only)
        ≡ holding sample_mnl 0x600 7 (
            cons (leaf tca_gate_parms (tc_gate_bytes sample_mnl 7 tc_act_pipe)) (
              cons (u32_attr sample_mnl tca_gate_clockid 11) (
                cons
                  (u64_attr sample_mnl tca_gate_base_time 0)
                  (one (u32_attr sample_mnl tca_gate_cycle_time 1000000))))))
    × (sample_mnl.draft (race_message sample_mnl 0x600 7 (invalid_action sample_mnl 7) header_only)
        ≡ holding sample_mnl 0x600 7 (
            cons (leaf tca_gate_parms (tc_gate_bytes sample_mnl 7 0x7fffffff)) (
              cons (u32_attr sample_mnl tca_gate_clockid 11) (
                cons
                  (u64_attr sample_mnl tca_gate_base_time 0)
                  (one (u64_attr sample_mnl tca_gate_cycle_time 1000000))))))
invalid_contents_example = invalid_contents sample_mnl 0x600 7 header_only

basetime_shape-cycle_example : 0 < (basetime_shape none 5000 11 (blank ∷ [])).cycle_time
basetime_shape-cycle_example = basetime_shape-cycle none 5000 11 (blank ∷ [])

abbrev only_three : ℕ → Bool
only_three cpu = cpu == 3

race_collect_cpus-allowed_example :
    let cs = race_collect_cpus true (pos 2) (some only_three) (pos 8) in
    (0 < length cs) × (length cs ≤ 2) × Climbs 0 cs × All (λ c. only_three c ≡ true) cs
race_collect_cpus-allowed_example =
    race_collect_cpus-allowed only_three 2 3 (pos 8) (omega arith) (omega arith) (ground arith)
