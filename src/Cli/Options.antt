-- ===== src/Cli/Options.antt =====
-- The option loop of `gb_cli_parse` (src/cli.c): one case of its switch, and the loop over what
-- getopt_long reports. `getopt_long` itself is a parameter.
use gatebench.Base.{
  ℕ, Bool, true, false, Option, none, some, List, [], ◌∷◌, ℤ, pos, negsuc, ltb, ◌==◌, if◌then◌else◌,
}
use gatebench.Base.Libc.{Bytes, Libc}
use gatebench.Config.{GbConfig}
use gatebench.Cli.Number.{parse_u32, parse_u64, parse_int}

-- One return of getopt_long: the option's code and `optarg`.
pub record Reported : Type 0 where
  pub code : ℕ
  pub optarg : Option Bytes

-- The cases of the switch, by their long names.
pub data Choice : Type 0 where
  entries iters warmup runs interval_ns index cpu timeout_ms clockid base_time cycle_time : Choice
  cycle_time_ext json sample_every dump_proof pcap nlmon_iface race seconds verbose : Choice
  help version invalid unknown : Choice

unfoldable pub choice : ℕ → Choice
choice opt =
    if opt == b'e'
    then entries
    else if opt == b'i'
    then iters
    else if opt == b'w'
    then warmup
    else if opt == b'r'
    then runs
    else if opt == b'I'
    then interval_ns
    else if opt == b'x'
    then index
    else if opt == b'c'
    then cpu
    else if opt == b't'
    then timeout_ms
    else if opt == 256
    then clockid
    else if opt == 257
    then base_time
    else if opt == 258
    then cycle_time
    else if opt == 260
    then cycle_time_ext
    else if opt == b'j'
    then json
    else if opt == 259
    then sample_every
    else if opt == 261
    then dump_proof
    else if opt == 262
    then pcap
    else if opt == 263
    then nlmon_iface
    else if opt == 264
    then race
    else if opt == 265
    then seconds
    else if opt == 266
    then verbose
    else if opt == b'h'
    then help
    else if opt == b'v'
    then version
    else if opt == b'?'
    then invalid
    else unknown

-- How one round of the loop ends: with the next round, with `return -EINVAL`, or with `exit(0)`.
-- The configuration is what has been stored so far.
pub data Step : Type 0 where
  next : GbConfig → Step
  reject : GbConfig → Step
  leave : GbConfig → Step

-- if (parse_x(optarg, &cfg->field, name) < 0) return -EINVAL;
abbrev pub store : {A : Type 0} → ℤ × Option A → GbConfig → (A → GbConfig) → Step
store (pos r, some v) cfg assign = next (assign v)
store (pos r, none) cfg assign = next cfg
store (negsuc r, out) cfg assign = reject cfg

-- timeout_ms <= 0
abbrev pub is_positive : ℤ → Bool
is_positive (pos n) = ltb 0 n
is_positive (negsuc n) = false

abbrev pub check_timeout : Step → Step
check_timeout (next cfg) = if is_positive cfg.timeout_ms then next cfg else reject cfg
check_timeout (reject cfg) = reject cfg
check_timeout (leave cfg) = leave cfg

abbrev pub check_seconds : Step → Step
check_seconds (next cfg) = if cfg.race_seconds == 0 then reject cfg else next cfg
check_seconds (reject cfg) = reject cfg
check_seconds (leave cfg) = leave cfg

module _ (libc : Libc) where
  unfoldable pub apply_option : Choice → Option Bytes → GbConfig → Step
  unfolding parse_u32 parse_u64 parse_int
  apply_option entries arg cfg =
      store (parse_u32 libc arg (some cfg.entries)) cfg (λ v. record cfg { entries = v })
  apply_option iters arg cfg =
      store (parse_u32 libc arg (some cfg.iters)) cfg (λ v. record cfg { iters = v })
  apply_option warmup arg cfg =
      store (parse_u32 libc arg (some cfg.warmup)) cfg (λ v. record cfg { warmup = v })
  apply_option runs arg cfg =
      store (parse_u32 libc arg (some cfg.runs)) cfg (λ v. record cfg { runs = v })
  apply_option interval_ns arg cfg =
      store (parse_u64 libc arg (some cfg.interval_ns)) cfg (λ v. record cfg { interval_ns = v })
  apply_option index arg cfg =
      store (parse_u32 libc arg (some cfg.index)) cfg (λ v. record cfg { index = v })
  apply_option cpu arg cfg =
      store (parse_int libc arg (some cfg.cpu)) cfg (λ v. record cfg { cpu = v })
  apply_option timeout_ms arg cfg =
      check_timeout
        (store (parse_int libc arg (some cfg.timeout_ms)) cfg (λ v. record cfg { timeout_ms = v }))
  apply_option clockid arg cfg =
      store (parse_u32 libc arg (some cfg.clockid)) cfg (λ v. record cfg { clockid = v })
  apply_option base_time arg cfg =
      store (parse_u64 libc arg (some cfg.base_time)) cfg (λ v. record cfg { base_time = v })
  apply_option cycle_time arg cfg =
      store (parse_u64 libc arg (some cfg.cycle_time)) cfg (λ v. record cfg { cycle_time = v })
  apply_option cycle_time_ext arg cfg =
      store (parse_u64 libc arg (some cfg.cycle_time_ext)) cfg
        (λ v. record cfg { cycle_time_ext = v })
  apply_option json arg cfg = next (record cfg { json = true })
  apply_option sample_every arg cfg =
      store (parse_u32 libc arg (some cfg.sample_every)) cfg
        (λ v. record cfg { sample_every = v; sample_mode = ltb 0 v })
  apply_option dump_proof arg cfg = next (record cfg { dump_proof = true })
  apply_option pcap arg cfg = next (record cfg { pcap_path = arg })
  apply_option nlmon_iface arg cfg = next (record cfg { nlmon_iface = arg })
  apply_option race arg cfg = next (record cfg { race_mode = true })
  apply_option seconds arg cfg = check_seconds (
      store (parse_u32 libc arg (some cfg.race_seconds)) cfg (λ v. record cfg { race_seconds = v }))
  apply_option verbose arg cfg = next (record cfg { verbose = true })
  apply_option help arg cfg = leave cfg
  apply_option version arg cfg = leave cfg
  apply_option invalid arg cfg = reject cfg
  apply_option unknown arg cfg = reject cfg

  -- while ((opt = getopt_long(...)) != -1) switch (opt) ...
  unfoldable pub apply_options : List Reported → GbConfig → Step
  apply_options [] cfg = next cfg
  apply_options (o ∷ os) cfg = elim (apply_option (choice o.code) o.optarg cfg) [
    | next cfg' ↦ apply_options os cfg'
    | reject cfg' ↦ reject cfg'
    | leave cfg' ↦ leave cfg'
  ]
