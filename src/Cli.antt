-- ===== src/Cli.antt =====
-- src/cli.c: the options, the checks behind them, and what an accepted configuration satisfies.
pub mod Number
pub mod Options
pub mod Validity
use gatebench.Base.{
  ℕ, Bool, true, false, ◌==ℤ◌, ◌&&◌, not, List, ℤ, pos, neg, einval, ltb, ◌==◌, if◌then◌else◌,
  is_some,
}
use gatebench.Base.Libc.{Bytes, Libc}
use gatebench.Config.{GbConfig, gb_config_init, gb_max_entries}
use Options.{Reported, Step, next, reject, leave, apply_options}

-- How `gb_cli_parse` ends: it returns a code, or the process exits with status 0.
pub data Outcome : Type 0 where
  returned : ℤ → GbConfig → Outcome
  exited : GbConfig → Outcome

-- Whether the code returned is 0.
abbrev pub accepted : Outcome → Bool
accepted (returned ret cfg) = ret ==ℤ pos 0
accepted (exited cfg) = false

-- if (cfg->entries > GB_MAX_ENTRIES) cfg->entries = GB_MAX_ENTRIES;
abbrev pub cap_entries : GbConfig → GbConfig
cap_entries cfg =
    if ltb gb_max_entries cfg.entries then record cfg { entries = gb_max_entries } else cfg

-- if (cfg->pcap_path && !cfg->dump_proof) cfg->dump_proof = true;
abbrev pub imply_dump_proof : GbConfig → GbConfig
imply_dump_proof cfg =
    if is_some cfg.pcap_path && not cfg.dump_proof then record cfg { dump_proof = true } else cfg

-- The checks behind the cap.
unfoldable pub check_rest : GbConfig → Outcome
check_rest cfg =
    if cfg.interval_ns == 0
    then returned (neg einval) cfg
    else if cfg.race_mode && cfg.race_seconds == 0
    then returned (neg einval) cfg
    else if cfg.sample_mode && cfg.sample_every == 0
    then returned (neg einval) cfg
    else if cfg.sample_mode && ltb cfg.iters cfg.sample_every
    then returned (neg einval) cfg
    else returned (pos 0) (imply_dump_proof cfg)

-- The checks behind the option loop.
unfoldable pub check_config : GbConfig → Outcome
check_config cfg =
    if cfg.iters == 0
    then returned (neg einval) cfg
    else if cfg.entries == 0
    then returned (neg einval) cfg
    else check_rest (cap_entries cfg)

unfoldable pub finish : Step → Outcome
finish (next cfg) = check_config cfg
finish (reject cfg) = returned (neg einval) cfg
finish (leave cfg) = exited cfg

-- `getopt_long` maps the arguments to what it reports, call by call, up to the -1.
unfoldable pub gb_cli_parse : Libc → (List Bytes → List Reported) → List Bytes → Outcome
unfolding finish
gb_cli_parse libc getopt_long argv = finish (apply_options libc (getopt_long argv) gb_config_init)
