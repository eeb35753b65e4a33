-- ===== src/Bench/Aggregate.antt =====
-- All runs of the benchmark and their summary: gb_bench_run of src/bench.c, and gb_run_result_free
-- and gb_summary_free of src/main.c.
use gatebench.Base.{
  ℕ, zero, suc, ◌*◌, Bool, ◌||◌, true, not, Option, none, some, List, [], ◌∷◌, map, ℤ, pos, neg,
  is_neg, if◌then◌else◌, enomem,
}
use gatebench.Base.Double.{Double}
use gatebench.Config.{GbConfig}
use gatebench.Nl.{NlSock}
use gatebench.Nl.Exchange.{World}
use gatebench.Nl.Open.{Opening, gb_nl_open}
use gatebench.Stats.Order.{gb_stats_median_uint64, gb_stats_median_double}
use gatebench.Util.{Call, Timespec}
use gatebench.Bench.Act.{Machine, Scene, Result, ok, err, Act, pure, ◌>>=◌, ◌>>◌, raise_if}
use gatebench.Bench.Run.{RunResult, benchmark_single_run}

-- The pointer `runs`: NULL, an array, or an array that was given back.
pub data Runs (F : Type 0) : Type 0 where
  null : Runs F
  live : List (RunResult F) → Runs F
  freed : Runs F

pub record GbSummary (F : Type 0) : Type 0 where
  pub runs : Runs F
  pub run_count : ℕ
  pub median_ops_per_sec : F
  pub min_ops_per_sec : F
  pub max_ops_per_sec : F
  pub stddev_ops_per_sec : F
  pub median_p50_ns : ℕ
  pub median_p95_ns : ℕ
  pub median_p99_ns : ℕ
  pub median_p999_ns : ℕ

abbrev pub gb_run_result_free : {F : Type 0} → RunResult F → RunResult F
gb_run_result_free result = record result { samples = none }

-- `none` is a use of memory that was given back.
unfoldable pub gb_summary_free : {F : Type 0} → GbSummary F → Option (GbSummary F)
gb_summary_free summary = elim summary.runs [
  | null ↦ some (record summary { run_count = 0 })
  | live rs ↦ some (record summary { runs = null; run_count = 0 })
  | freed ↦ none
]

-- free(runs), and what the summary's pointer is then
abbrev pub dangling : {F : Type 0} → GbSummary F → GbSummary F
dangling summary = record summary {
  runs = elim summary.runs [ null ↦ null | live rs ↦ freed | freed ↦ freed ];
}

module _ (d : Double) where
  open d use {F, lt, add, sub, mul, div, sqrt, of_ℕ, f0}

  -- memset(summary, 0, sizeof(*summary))
  abbrev pub no_summary : GbSummary F
  no_summary = record {
    runs = null;
    run_count = 0;
    median_ops_per_sec = f0;
    min_ops_per_sec = f0;
    max_ops_per_sec = f0;
    stddev_ops_per_sec = f0;
    median_p50_ns = 0;
    median_p95_ns = 0;
    median_p99_ns = 0;
    median_p999_ns = 0;
  }

  -- if (runs[i].ops_per_sec < min) min = ...; and the other way round
  unfoldable pub least : F → List F → F
  least low [] = low
  least low (x ∷ xs) = least (if lt x low then x else low) xs

  unfoldable pub greatest : F → List F → F
  greatest high [] = high
  greatest high (x ∷ xs) = greatest (if lt high x then x else high) xs

  -- sum and sum_sq
  unfoldable pub sums : F → F → List F → F × F
  sums sum sum_sq [] = (sum, sum_sq)
  sums sum sum_sq (x ∷ xs) = sums (add sum x) (add sum_sq (mul x x)) xs

  abbrev pub spread : ℕ → F × F → F
  spread n (sum, sum_sq) =
      let mean = div sum (of_ℕ n) in sqrt (sub (div sum_sq (of_ℕ n)) (mul mean mean))

  -- min and max start at runs[0]
  abbrev pub extremes : List F → Act (GbSummary F) (Unit {0})
  extremes [] s = none
  extremes (x ∷ xs) s =
      some (ok tt, record s { min_ops_per_sec = least x xs; max_ops_per_sec = greatest x xs })

-- What a call stores through &summary->...
module _ {F : Type 0} where
  abbrev pub put_median : F → GbSummary F → GbSummary F
  put_median x s = record s { median_ops_per_sec = x }

  abbrev pub put_p50 : ℕ → GbSummary F → GbSummary F
  put_p50 x s = record s { median_p50_ns = x }

  abbrev pub put_p95 : ℕ → GbSummary F → GbSummary F
  put_p95 x s = record s { median_p95_ns = x }

  abbrev pub put_p99 : ℕ → GbSummary F → GbSummary F
  put_p99 x s = record s { median_p99_ns = x }

  abbrev pub put_p999 : ℕ → GbSummary F → GbSummary F
  put_p999 x s = record s { median_p999_ns = x }

-- summary->stddev_ops_per_sec = x;
abbrev pub put_stddev : {F : Type 0} → F → Act (GbSummary F) (Unit {0})
put_stddev x s = some (ok tt, record s { stddev_ops_per_sec = x })

-- ret = gb_stats_median_...(..., &out); if (ret < 0) goto out; `store` puts what came through `out`
abbrev pub stored_by : {S A : Type 0} → (A → S → S) → Option (ℤ × Option A) → Act S (Unit {0})
stored_by store none s = none
stored_by store (some (ret, none)) s = some (err ret, s)
stored_by store (some (ret, some x)) s =
    if is_neg ret then some (err ret, store x s) else some (ok tt, store x s)

module _ (w : Machine) where
  open w use {mnl, double, sort, sort_double, malloc}

  -- The runs, the first failure of which ends the benchmark.
  unfoldable pub runs_from : GbConfig → ℕ → Act (Scene mnl.Buf) (List (RunResult double.F))
  unfolding benchmark_single_run
  runs_from cfg zero = pure []
  runs_from cfg (suc left) = do
    r ← benchmark_single_run w cfg
    rs ← runs_from cfg left
    pure (r ∷ rs)

  -- What follows the runs. `grant k` is what the k-th malloc from there says.
  unfoldable pub aggregate :
      (ℕ → ℕ → Bool) → GbConfig → List (RunResult double.F) → Act (GbSummary double.F) (Unit {0})
  unfolding gb_stats_median_double gb_stats_median_uint64 least greatest sums
  aggregate grant cfg rs =
      let n = cfg.runs in
      let ops = map (λ (r : RunResult double.F). r.ops_per_sec) rs in
      let p50s = map (λ (r : RunResult double.F). r.summary.p50) rs in
      let p95s = map (λ (r : RunResult double.F). r.summary.p95) rs in
      let p99s = map (λ (r : RunResult double.F). r.summary.p99) rs in
      let p999s = map (λ (r : RunResult double.F). r.summary.p999) rs in
      do
        raise_if (not (grant 0 (n * 8))) (neg enomem)
        stored_by put_median (gb_stats_median_double double sort_double (grant 1) (some ops) n true)
        extremes double ops
        raise_if
            (not (grant 2 (n * 8))
              || (not (grant 3 (n * 8)) || (not (grant 4 (n * 8)) || not (grant 5 (n * 8)))))
            (neg enomem)
        stored_by put_p50 (gb_stats_median_uint64 sort (grant 6) (some p50s) n true)
        stored_by put_p95 (gb_stats_median_uint64 sort (grant 7) (some p95s) n true)
        stored_by put_p99 (gb_stats_median_uint64 sort (grant 8) (some p99s) n true)
        stored_by put_p999 (gb_stats_median_uint64 sort (grant 9) (some p999s) n true)
        put_stddev (spread double n (sums double double.f0 double.f0 ops))

  -- The label `out`: a failure gives the runs back.
  abbrev pub closed_bench :
      Option (Result (Unit {0}) × GbSummary double.F) → Option (ℤ × GbSummary double.F)
  closed_bench none = none
  closed_bench (some (ok t, s)) = some (pos 0, s)
  closed_bench (some (err e, s)) = some (e, dangling s)

  -- summary->runs = runs; summary->run_count = cfg->runs;
  abbrev pub filed : GbConfig → List (RunResult double.F) → GbSummary double.F
  filed cfg rs = record (no_summary double) { runs = live rs; run_count = cfg.runs }

  -- From the runs on.
  abbrev pub summarised :
      (ℕ → ℕ → Bool)
      → GbConfig
      → Option (Result (List (RunResult double.F)) × Scene mnl.Buf)
      → Option (ℤ × GbSummary double.F)
  summarised grant cfg none = none
  summarised grant cfg (some (err e, sc)) = some (e, no_summary double)
  summarised grant cfg (some (ok rs, sc)) = closed_bench (aggregate grant cfg rs (filed cfg rs))

  -- From gb_nl_open on; a socket comes with code 0.
  abbrev pub benchmarked :
      (ℕ → ℕ → Bool)
      → List (World mnl.Buf)
      → List (Call Timespec)
      → GbConfig
      → ℤ × Option NlSock
      → Option (ℤ × GbSummary double.F)
  benchmarked grant worlds clocks cfg (ret, none) = some (ret, no_summary double)
  benchmarked grant worlds clocks cfg (ret, some sock) =
      if not (malloc (cfg.runs * 112))
      then some (neg enomem, no_summary double)
      else summarised grant cfg
          (runs_from cfg cfg.runs (record { sock = sock; worlds = worlds; clocks = clocks }))

  -- The code, and the summary that the caller's pointer leads to.
  unfoldable pub gb_bench_run :
      (ℕ → ℕ → Bool)
      → Opening
      → List (World mnl.Buf)
      → List (Call Timespec)
      → GbConfig
      → Option (ℤ × GbSummary double.F)
  unfolding gb_nl_open runs_from aggregate
  gb_bench_run grant opening worlds clocks cfg =
      benchmarked grant worlds clocks cfg (gb_nl_open malloc opening true)
