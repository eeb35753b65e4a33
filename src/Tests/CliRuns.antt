-- ===== src/Tests/CliRuns.antt =====
-- src/cli.c
use gatebench.Base.{◌≡◌, refl, true, List, [], ◌∷◌, some, pos}
use gatebench.Config.{GbConfig, gb_config_init}
use gatebench.Cli.{returned, gb_cli_parse, check_config, accepted, check_rest}
use gatebench.Cli.Options.{Reported, choice, apply_option, apply_options}
use gatebench.Cli.Validity.{
  IsValid, gb_cli_parse-IsValid, check_config_accepts, gb_config_init-IsLoaded,
}
use gatebench.Tests.SampleLibc.{sample_libc}

-- gatebench --entries=100 --sample-every 7 --pcap=x
abbrev options : List Reported
options =
    record { code = b'e'; optarg = some (b'1' ∷ b'0' ∷ b'0' ∷ []) }
    ∷ record { code = 259; optarg = some (b'7' ∷ []) }
    ∷ record { code = 262; optarg = some (b'x' ∷ []) }
    ∷ []

abbrev chosen : GbConfig
chosen =
    unfold gb_config_init in
    record gb_config_init {
      entries = 64;
      sample_mode = true;
      sample_every = 7;
      dump_proof = true;
      pcap_path = some (b'x' ∷ []);
    }

options_accepted : gb_cli_parse sample_libc (λ argv. options) [] ≡ returned (pos 0) chosen
unfolding gb_cli_parse apply_options apply_option choice check_config check_rest gb_config_init
    sample_libc
options_accepted = refl

gb_cli_parse-IsValid_example : IsValid chosen
gb_cli_parse-IsValid_example =
    gb_cli_parse-IsValid sample_libc (λ argv. options) [] chosen options_accepted

check_config_accepts_example : accepted (check_config gb_config_init) ≡ true
unfolding gb_config_init
check_config_accepts_example = check_config_accepts gb_config_init gb_config_init-IsLoaded
