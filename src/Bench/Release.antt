-- ===== src/Bench/Release.antt =====
-- Who gives the array of the runs back.
use gatebench.Base.{
  ℕ, zero, suc, ◌*◌, ◌≡◌, ◌∙◌, subst, refl, ap, Bool, true, Option, none, some, List, ◌∷◌, ℤ, pos,
  neg, is_neg, einval, enomem, length, Bool-cases, inl, inr,
}
use gatebench.Config.{GbConfig}
use gatebench.Nl.{NlSock}
use gatebench.Nl.Exchange.{World}
use gatebench.Nl.Open.{Opening, bound, gb_nl_open}
use gatebench.Util.{Call, Timespec}
use gatebench.Stats.Order.{gb_stats_median_double}
use gatebench.Bench.Act.{Machine, Scene, Result, ok, err, Act, pure, then_act, ◌>>=◌}
use gatebench.Bench.Run.{RunResult, benchmark_single_run}
use gatebench.Bench.Kept.{Leaves, aggregate-Keeps}
use gatebench.Bench.Aggregate.{
  live, freed, GbSummary, gb_summary_free, dangling, no_summary, runs_from, aggregate, closed_bench,
  filed, summarised, benchmarked, gb_bench_run,
}

module _ (w : Machine) where
  open w use {mnl, double, sort, sort_double, malloc}

  -- How the benchmark can end for the array of the runs: it stands in the summary behind code 0, or
  -- the summary was never touched, or the array was given back and the summary still points to it.
  pub data Settled (cfg : GbConfig) : ℤ × GbSummary double.F → Type 0 where
    done :
        (s : GbSummary double.F) (rs : List (RunResult double.F))
        → s.runs ≡ live rs
        → length rs ≡ cfg.runs
        → s.run_count ≡ cfg.runs
        → Settled cfg (pos 0, s)
    early : (e : ℤ) → Settled cfg (e, no_summary double)
    late : (e : ℤ) (s : GbSummary double.F) → is_neg e ≡ true → s.runs ≡ freed → Settled cfg (e, s)

  abbrev Counted : ℕ → Option (Result (List (RunResult double.F)) × Scene mnl.Buf) → Type 0
  Counted n none = Unit
  Counted n (some (err e, sc)) = Unit
  Counted n (some (ok rs, sc)) = length rs ≡ n

  consed-Counted :
      (n : ℕ) (r : RunResult double.F)
      (o : Option (Result (List (RunResult double.F)) × Scene mnl.Buf))
      → Counted n o
      → Counted (suc n) (then_act o (λ rs. pure (r ∷ rs)))
  consed-Counted n r none h = tt
  consed-Counted n r (some (err e, sc)) h = tt
  consed-Counted n r (some (ok rs, sc)) h = ap suc h

  after_run-Counted :
      (n : ℕ) (o : Option (Result (RunResult double.F) × Scene mnl.Buf))
      (rest : Act (Scene mnl.Buf) (List (RunResult double.F)))
      → ((sc : Scene mnl.Buf) → Counted n (rest sc))
      → Counted (suc n) (then_act o (λ r. rest >>= λ rs. pure (r ∷ rs)))
  after_run-Counted n none rest h = tt
  after_run-Counted n (some (err e, sc)) rest h = tt
  after_run-Counted n (some (ok r, sc)) rest h = consed-Counted n r (rest sc) (h sc)

  runs_from-Counted :
      (cfg : GbConfig) (n : ℕ) (sc : Scene mnl.Buf) → Counted n (runs_from w cfg n sc)
  unfolding runs_from
  runs_from-Counted cfg zero sc = refl
  runs_from-Counted cfg (suc n) sc =
      after_run-Counted n (benchmark_single_run w cfg sc) (runs_from w cfg n)
        (runs_from-Counted cfg n)

  abbrev Outcome : GbConfig → Option (ℤ × GbSummary double.F) → Type 0
  Outcome cfg none = Unit
  Outcome cfg (some r) = Settled cfg r

  closed_bench-Settled :
      (cfg : GbConfig) (s : GbSummary double.F) (rs : List (RunResult double.F))
      (o : Option (Result (Unit {0}) × GbSummary double.F))
      → s.runs ≡ live rs
      → s.run_count ≡ cfg.runs
      → length rs ≡ cfg.runs
      → Leaves s o
      → Outcome cfg (closed_bench w o)
  closed_bench-Settled cfg s rs none l c n h = tt
  closed_bench-Settled cfg s rs (some (ok a, t)) l c n h = done t rs (h.0 ∙ l) n (h.1 ∙ c)
  closed_bench-Settled cfg s rs (some (err e, t)) l c n h =
      late e (dangling t) h.0 (rw (dangling, h.1.0, l) refl)

  summarised-Settled :
      (grant : ℕ → ℕ → Bool) (cfg : GbConfig)
      (o : Option (Result (List (RunResult double.F)) × Scene mnl.Buf))
      → Counted cfg.runs o
      → Outcome cfg (summarised w grant cfg o)
  summarised-Settled grant cfg none h = tt
  summarised-Settled grant cfg (some (err e, sc)) h = early e
  summarised-Settled grant cfg (some (ok rs, sc)) h =
      closed_bench-Settled cfg (filed w cfg rs) rs (aggregate w grant cfg rs (filed w cfg rs)) refl
        refl h ((aggregate-Keeps w grant cfg rs).leaves (filed w cfg rs))

  benchmarked-Settled :
      (grant : ℕ → ℕ → Bool) (worlds : List (World mnl.Buf)) (clocks : List (Call Timespec))
      (cfg : GbConfig) (opened : ℤ × Option NlSock)
      → Outcome cfg (benchmarked w grant worlds clocks cfg opened)
  benchmarked-Settled grant worlds clocks cfg (ret, none) = early ret
  benchmarked-Settled grant worlds clocks cfg (ret, some sock) =
      elim (Bool-cases (malloc (cfg.runs * 112))) [
        | inl e ↦ rw e (summarised-Settled grant cfg _ (runs_from-Counted cfg cfg.runs _))
        | inr e ↦ rw e (early (neg enomem))
      ]

  -- However the runs, the memory and the kernel behave: when gb_bench_run returns, either the code is
  -- 0 and the summary holds the live array of cfg.runs runs with their number, or the summary is as
  -- it was cleared, or the code is negative and the summary points to an array that is given back.
  pub gb_bench_run-Settled :
      (grant : ℕ → ℕ → Bool) (opening : Opening) (worlds : List (World mnl.Buf))
      (clocks : List (Call Timespec)) (cfg : GbConfig) (r : ℤ × GbSummary double.F)
      → gb_bench_run w grant opening worlds clocks cfg ≡ some r
      → Settled cfg r
  unfolding gb_bench_run
  gb_bench_run-Settled grant opening worlds clocks cfg r e =
      subst (Outcome cfg) e
        (benchmarked-Settled grant worlds clocks cfg (gb_nl_open malloc opening true))

  -- With -r 0 and the memory that is asked for, the benchmark reaches the median of no runs: the code
  -- is -EINVAL, and gb_summary_free on what main passes it uses memory that is given back.
  pub gb_bench_run-no_runs :
      (grant : ℕ → ℕ → Bool) (port : ℕ) (worlds : List (World mnl.Buf))
      (clocks : List (Call Timespec)) (cfg : GbConfig)
      → cfg.runs ≡ 0
      → malloc 16 ≡ true
      → malloc 0 ≡ true
      → grant 0 0 ≡ true
      → (s : GbSummary double.F) × (gb_bench_run w grant (bound port) worlds clocks cfg
          ≡ some (neg einval, s))
        × (gb_summary_free s ≡ none)
  unfolding gb_bench_run gb_nl_open runs_from aggregate gb_stats_median_double gb_summary_free
  gb_bench_run-no_runs grant port worlds clocks cfg none_asked granted granted_runs granted_ops = (
    record (no_summary double) { runs = freed },
    rw (granted, none_asked, granted_runs, granted_ops) refl,
    refl,
  )
