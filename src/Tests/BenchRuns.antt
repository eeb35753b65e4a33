-- ===== src/Tests/BenchRuns.antt =====
-- src/bench.c
use gatebench.Base.{◌≡◌, refl, true, some, List, [], ◌∷◌, pos, neg, length, All, arith, einval}
use gatebench.Gate.Types.{GateEntry}
use gatebench.Gate.EntryTrip.{IsEntry}
use gatebench.Config.{gb_config_init}
use gatebench.Nl.Open.{bound, gb_nl_open}
use gatebench.Stats.Order.{gb_stats_median_double}
use gatebench.Bench.{gb_fill_entries}
use gatebench.Bench.Filled.{ArePatterned, closed, duration, gb_fill_entries-Filled}
use gatebench.Bench.Run.{RunResult}
use gatebench.Bench.Aggregate.{
  null, live, freed, runs_from, aggregate, GbSummary, no_summary, gb_summary_free, gb_bench_run,
}
use gatebench.Bench.Release.{Settled, gb_bench_run-Settled}
use gatebench.Bench.AllRuns.{gb_bench_run-returns}
use gatebench.Tests.SampleRun.{blank, machine, short, ack, acked_lem, worlds, clocks}
use gatebench.Tests.SampleDouble.{sample_double}

abbrev cells : List GateEntry
cells =
    blank ∷ blank ∷ blank ∷ blank ∷ blank ∷ blank ∷ blank ∷ blank ∷ blank ∷ blank ∷ blank ∷ blank
    ∷ []

gb_fill_entries-Filled_example :
    (es : List GateEntry) × (gb_fill_entries (some cells) 12 1000000 ≡ some (pos 0, some es))
    × (length es ≡ 12)
    × All IsEntry es
    × ArePatterned 12 1000000 0 es
    × (closed es ≡ 1)
    × (duration es ≡ 12000000)
gb_fill_entries-Filled_example =
    gb_fill_entries-Filled cells 12 1000000 refl (omega arith) (omega arith) (omega arith)

gb_bench_run-returns_example :
    (s : GbSummary sample_double.F) × (rs : List (RunResult sample_double.F)) × (gb_bench_run
        machine
        (λ k n. true)
        (bound 7)
        worlds
        clocks
        short
      ≡ some (pos 0, s))
    × (s.runs ≡ live rs)
    × (length rs ≡ 1)
    × (gb_summary_free s ≡ some (record s { runs = null; run_count = 0 }))
unfolding gb_config_init
gb_bench_run-returns_example =
    gb_bench_run-returns machine short (λ n. refl) (omega arith) (omega arith) (omega arith)
      (omega arith) (omega arith) (λ k n. true) 7 worlds clocks (λ k n. refl) (omega arith)
      (
        refl,
        (pos 0, ack 1 ∷ [], acked_lem 1, refl),
        (
          refl,
          (pos 0, ack 2 ∷ [], acked_lem 2, refl),
          (
            refl,
            (pos 0, ack 3 ∷ [], acked_lem 3, refl),
            (refl, (pos 0, ack 4 ∷ [], acked_lem 4, refl), tt),
          ),
        ),
      )
      tt

gb_bench_run-Settled_example :
    Settled machine
      (record short { runs = 0 })
      (neg einval, record (no_summary sample_double) { runs = freed })
unfolding gb_bench_run gb_nl_open runs_from aggregate gb_stats_median_double
gb_bench_run-Settled_example =
    gb_bench_run-Settled machine (λ k n. true) (bound 7) [] [] (record short { runs = 0 })
      (neg einval, record (no_summary sample_double) { runs = freed }) refl
