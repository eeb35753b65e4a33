-- ===== src/Main/Races.antt =====
-- The program from its arguments to its end in race mode.
use gatebench.Base.{
  ◌≡◌, ◌<◌, ◌∙◌, refl, ap, true, none, some, List, pos, is_neg, if◌then◌else◌, if_true, length, All,
}
use gatebench.Base.Libc.{Bytes}
use gatebench.Config.{GbConfig}
use gatebench.Cli.{returned, gb_cli_parse}
use gatebench.Util.{gb_util_pin_cpu}
use gatebench.Bench.Aggregate.{no_summary, gb_summary_free}
use gatebench.Race.Run.{RaceSummary, gb_race_run_with_summary, gb_race_run}
use gatebench.Race.Seconds.{AllEnd, gb_race_run_with_summary-seconds}
use gatebench.Main.{
  race, pin_cpu, Report, ends, Outside, F, mode_of, so_far, fail, out, after_race, reported,
  unreported, run_race, run_rest, parsed, argv_requests_json, main,
}

module _ (o : Outside) where
  open o use {machine}

  -- The options ask for a race on any CPU, and for a report.
  pub record StartsRace (args : List Bytes) (cfg : GbConfig) : Type 0 where
    pub accepted : gb_cli_parse o.libc o.getopt_long args ≡ returned (pos 0) cfg
    pub any_cpu : is_neg cfg.cpu ≡ true
    pub races : cfg.race_mode ≡ true
    pub reports : cfg.json ≡ true

  reaches_race :
      (args : List Bytes) (cfg : GbConfig) → StartsRace args cfg → main o args ≡ run_race o cfg
  unfolding main
  reaches_race args cfg s =
      ap (λ k. parsed o (argv_requests_json args) k) s.accepted
      ∙ (ap
            (λ k.
              if is_neg k
              then out o cfg (fail o pin_cpu k (so_far o (mode_of cfg))) (no_summary machine.double)
              else if cfg.race_mode
              then run_race o cfg
              else run_rest o cfg)
            (if_true (pos 0) (gb_util_pin_cpu o.setaffinity cfg.cpu) s.any_cpu)
          ∙ if_true (run_race o cfg) (run_rest o cfg) s.races)

  -- With options that ask for a race of some seconds, for a report and for no CPU to pin, and threads
  -- that in each of these seconds can all be made and end: main returns 0, and its report is a success in race mode
  -- with a completed summary of eight workers and the seconds that were asked for.
  pub main-races :
      (args : List Bytes) (cfg : GbConfig)
      → StartsRace args cfg
      → 0 < cfg.race_seconds
      → length o.race_seconds ≡ cfg.race_seconds
      → All (λ xs. (length xs ≡ 8) × AllEnd machine cfg 0 xs) o.race_seconds
      → (r : Report (F o)) × (s : RaceSummary) × (main o args ≡ ends 0 (some r))
        × (r.ok ≡ true)
        × (r.mode ≡ race)
        × (r.race_out ≡ some (some s))
        × (s.completed ≡ true)
        × (s.duration_seconds ≡ cfg.race_seconds)
        × (length s.workers ≡ 8)
  unfolding run_race gb_summary_free
  main-races args cfg st some_time count all_end =
      let (e, s, ran, code, told, completed, seconds, workers, phases, each) =
        gb_race_run_with_summary-seconds machine cfg o.affinity o.nproc o.race_seconds some_time
          count all_end in
      let r : Report (F o) = record (so_far o (mode_of cfg)) { race_out = some (some s) } in
      (
        r,
        s,
        reaches_race args cfg st
            ∙ (ap (after_race o cfg) (
                  if_true
                    (reported o (
                      gb_race_run_with_summary machine o.affinity o.nproc o.race_seconds
                        (some cfg)))
                    (unreported o
                      (gb_race_run machine o.affinity o.nproc o.race_seconds (some cfg)))
                    st.reports
                  ∙ ap (reported o) ran)
                ∙ (ap (λ k. after_race o cfg (some (k, some e.summary))) code
                    ∙ (ap (λ k. after_race o cfg (some (pos 0, some k))) told
                        ∙ ap (ends 0) (if_true (some r) none st.reports)))),
        refl,
        rw st.races refl,
        refl,
        completed,
        seconds,
        workers,
      )
