-- ===== src/Cli/Validity.antt =====
-- What holds of a configuration that `gb_cli_parse` accepts.
use gatebench.Base.{
  ◌≤◌, ◌<◌, ◌^◌, ◌≡◌, true, Option, none, some, List, [], ◌∷◌, ℤ, pos, negsuc, arith, ltb, leb,
  is_some, refl, ◌&&◌,
}
use gatebench.Base.Libc.{Bytes, Libc}
use gatebench.Config.{GbConfig, gb_config_init, gb_max_entries}
use gatebench.Cli.Number.{IsInt, Stored, parse_u32-Stored, parse_u64-Stored, parse_int-Stored}
use gatebench.Cli.{returned, check_rest, check_config, finish, gb_cli_parse, accepted}
use gatebench.Cli.Options.{
  Reported, Choice, entries, iters, warmup, runs, interval_ns, index, cpu, timeout_ms, clockid,
  base_time, cycle_time, cycle_time_ext, sample_every, seconds, store, Step, next, reject, leave,
  choice, apply_option, apply_options, is_positive,
}

-- The values fit their C types, and what the loop itself checks holds.
pub record IsLoaded (cfg : GbConfig) : Type 0 where
  pub iters_u32 : cfg.iters < 2 ^ 32
  pub warmup_u32 : cfg.warmup < 2 ^ 32
  pub runs_u32 : cfg.runs < 2 ^ 32
  pub entries_u32 : cfg.entries < 2 ^ 32
  pub index_u32 : cfg.index < 2 ^ 32
  pub clockid_u32 : cfg.clockid < 2 ^ 32
  pub interval_u64 : cfg.interval_ns < 2 ^ 64
  pub base_time_u64 : cfg.base_time < 2 ^ 64
  pub cycle_time_u64 : cfg.cycle_time < 2 ^ 64
  pub cycle_time_ext_u64 : cfg.cycle_time_ext < 2 ^ 64
  pub cpu_int : IsInt cfg.cpu
  pub timeout_int : IsInt cfg.timeout_ms
  pub timeout_positive : is_positive cfg.timeout_ms ≡ true
  pub seconds_positive : 0 < cfg.race_seconds
  pub seconds_u32 : cfg.race_seconds < 2 ^ 32
  pub sampling : cfg.sample_mode ≡ ltb 0 cfg.sample_every

abbrev pub StepIsLoaded : Step → Type 0
StepIsLoaded (next cfg) = IsLoaded cfg
StepIsLoaded (reject cfg) = Unit
StepIsLoaded (leave cfg) = Unit

pub gb_config_init-IsLoaded : IsLoaded gb_config_init
unfolding gb_config_init
gb_config_init-IsLoaded = ground arith

store-IsLoaded :
    {A : Type 0} (P : A → Type 0) (r : ℤ × Option A) (cfg : GbConfig) (assign : A → GbConfig)
    → Stored P r
    → ((v : A) → P v → IsLoaded (assign v))
    → StepIsLoaded (store r cfg assign)
store-IsLoaded P (pos r, some v) cfg assign h keep = keep v h
store-IsLoaded P (pos r, none) cfg assign h keep = absurd h
store-IsLoaded P (negsuc r, out) cfg assign h keep = tt

module _ (libc : Libc) where
  apply_option-IsLoaded :
      (c : Choice) (arg : Option Bytes) (cfg : GbConfig)
      → IsLoaded cfg
      → StepIsLoaded (apply_option libc c arg cfg)
  unfolding apply_option
  apply_option-IsLoaded entries arg cfg h = ground (arith, parse_u32-Stored libc arg cfg.entries)
  apply_option-IsLoaded iters arg cfg h = ground (arith, parse_u32-Stored libc arg cfg.iters)
  apply_option-IsLoaded warmup arg cfg h = ground (arith, parse_u32-Stored libc arg cfg.warmup)
  apply_option-IsLoaded runs arg cfg h = ground (arith, parse_u32-Stored libc arg cfg.runs)
  apply_option-IsLoaded index arg cfg h = ground (arith, parse_u32-Stored libc arg cfg.index)
  apply_option-IsLoaded clockid arg cfg h = ground (arith, parse_u32-Stored libc arg cfg.clockid)
  apply_option-IsLoaded sample_every arg cfg h =
      ground (arith, parse_u32-Stored libc arg cfg.sample_every)
  apply_option-IsLoaded seconds arg cfg h =
      ground (arith, parse_u32-Stored libc arg cfg.race_seconds)
  apply_option-IsLoaded interval_ns arg cfg h =
      ground (arith, parse_u64-Stored libc arg cfg.interval_ns)
  apply_option-IsLoaded base_time arg cfg h =
      ground (arith, parse_u64-Stored libc arg cfg.base_time)
  apply_option-IsLoaded cycle_time arg cfg h =
      ground (arith, parse_u64-Stored libc arg cfg.cycle_time)
  apply_option-IsLoaded cycle_time_ext arg cfg h =
      ground (arith, parse_u64-Stored libc arg cfg.cycle_time_ext)
  apply_option-IsLoaded cpu arg cfg h = ground (arith, parse_int-Stored libc arg cfg.cpu)
  apply_option-IsLoaded timeout_ms arg cfg h =
      ground (arith, parse_int-Stored libc arg cfg.timeout_ms)
  apply_option-IsLoaded _ arg cfg h = ground arith

  apply_options-IsLoaded :
      (os : List Reported) (cfg : GbConfig)
      → IsLoaded cfg
      → StepIsLoaded (apply_options libc os cfg)
  unfolding apply_options
  apply_options-IsLoaded [] cfg h = h
  apply_options-IsLoaded (o ∷ os) cfg h =
      round (apply_option libc (choice o.code) o.optarg cfg) refl
        (apply_option-IsLoaded (choice o.code) o.optarg cfg h)
        (λ cfg' h'. apply_options-IsLoaded os cfg' h')
    where
      round :
          (s : Step)
          → apply_option libc (choice o.code) o.optarg cfg ≡ s
          → StepIsLoaded s
          → ((cfg' : GbConfig) → IsLoaded cfg' → StepIsLoaded (apply_options libc os cfg'))
          → StepIsLoaded (apply_options libc (o ∷ os) cfg)
      round (next cfg') e l rest = rw (e, apply_options) (rest cfg' l)
      round (reject cfg') e l rest = rw (e, apply_options) tt
      round (leave cfg') e l rest = rw (e, apply_options) tt

-- What the rest of the program relies on.
pub record IsValid (cfg : GbConfig) : Type 0 where
  pub loaded : IsLoaded cfg
  pub iters_positive : 0 < cfg.iters
  pub entries_positive : 0 < cfg.entries
  pub entries_capped : cfg.entries ≤ gb_max_entries
  pub interval_positive : 0 < cfg.interval_ns
  pub sample_fits : cfg.sample_every ≤ cfg.iters
  pub capture_dumps : is_some cfg.pcap_path ≡ true → cfg.dump_proof ≡ true

check_rest-IsValid :
    (cfg cfg' : GbConfig)
    → IsLoaded cfg
    → 0 < cfg.iters
    → 0 < cfg.entries
    → cfg.entries ≤ gb_max_entries
    → check_rest cfg ≡ returned (pos 0) cfg'
    → IsValid cfg'
unfolding check_rest
check_rest-IsValid cfg cfg' l hi he hc e = ground arith

check_config-IsValid :
    (cfg cfg' : GbConfig) → IsLoaded cfg → check_config cfg ≡ returned (pos 0) cfg' → IsValid cfg'
unfolding check_config
check_config-IsValid cfg cfg' l e = ground (
  arith,
  check_rest-IsValid cfg cfg' l,
  check_rest-IsValid (record cfg { entries = gb_max_entries }) cfg',
)

-- A configuration that gb_cli_parse accepts has positive iterations, between 1 and 64 entries, a
-- positive interval and timeout, a sampling period of at most the iterations, values within their C
-- types, and asks for the dump proof if it names a capture file; for every behaviour of
-- getopt_long, and every strtoul and strtol, with strtoull within 64 bits.
pub gb_cli_parse-IsValid :
    (libc : Libc) (getopt_long : List Bytes → List Reported) (argv : List Bytes) (cfg : GbConfig)
    → gb_cli_parse libc getopt_long argv ≡ returned (pos 0) cfg
    → IsValid cfg
unfolding gb_cli_parse
gb_cli_parse-IsValid libc getopt_long argv cfg e =
    ends (apply_options libc (getopt_long argv) gb_config_init) e
      (apply_options-IsLoaded libc (getopt_long argv) gb_config_init gb_config_init-IsLoaded)
  where
    ends : (s : Step) → finish s ≡ returned (pos 0) cfg → StepIsLoaded s → IsValid cfg
    ends (next c) e l = check_config-IsValid c cfg l e
    ends (reject c) e l = cc
    ends (leave c) e l = cc

-- Of a configuration that the option loop leaves, the checks behind it accept exactly those with
-- positive iterations, entries and interval and a sampling period of at most the iterations: the
-- checks of the race duration and of an empty sampling period never fire.
pub check_config_accepts :
    (cfg : GbConfig)
    → IsLoaded cfg
    → accepted (check_config cfg) ≡ (
        ltb 0 cfg.iters
        && (ltb 0 cfg.entries && (ltb 0 cfg.interval_ns && leb cfg.sample_every cfg.iters)))
unfolding check_config check_rest
check_config_accepts cfg l = ground arith
