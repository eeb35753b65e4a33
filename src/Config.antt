-- ===== src/Config.antt =====
-- `struct gb_config` and its defaults (include/gatebench.h, src/cli.c).
use gatebench.Base.{ℕ, Bool, false, Option, none, some, [], ◌∷◌, ℤ, pos, neg}
use gatebench.Base.Libc.{Bytes}

-- GB_MAX_ENTRIES
abbrev pub gb_max_entries : ℕ
gb_max_entries = 64

pub record GbConfig : Type 0 where
  pub iters : ℕ
  pub warmup : ℕ
  pub runs : ℕ
  pub entries : ℕ
  pub interval_ns : ℕ
  pub index : ℕ
  pub cpu : ℤ
  pub timeout_ms : ℤ
  pub json : Bool
  pub verbose : Bool
  pub sample_mode : Bool
  pub sample_every : ℕ
  pub dump_proof : Bool
  pub pcap_path : Option Bytes
  pub nlmon_iface : Option Bytes
  pub race_mode : Bool
  pub race_seconds : ℕ
  pub clockid : ℕ
  pub base_time : ℕ
  pub cycle_time : ℕ
  pub cycle_time_ext : ℕ

-- CLOCK_TAI
abbrev pub clock_tai : ℕ
clock_tai = 11

-- DEFAULT_NLMON_IFACE
abbrev pub default_nlmon_iface : Bytes
default_nlmon_iface = b'n' ∷ b'l' ∷ b'm' ∷ b'o' ∷ b'n' ∷ b'0' ∷ []

unfoldable pub gb_config_init : GbConfig
gb_config_init = record {
  iters = 1000;
  warmup = 100;
  runs = 5;
  entries = gb_max_entries;
  interval_ns = 1000000;
  index = 1000;
  cpu = neg 1;
  timeout_ms = pos 1000;
  json = false;
  verbose = false;
  sample_mode = false;
  sample_every = 0;
  dump_proof = false;
  pcap_path = none;
  nlmon_iface = some default_nlmon_iface;
  race_mode = false;
  race_seconds = 60;
  clockid = clock_tai;
  base_time = 0;
  cycle_time = 0;
  cycle_time_ext = 0;
}
