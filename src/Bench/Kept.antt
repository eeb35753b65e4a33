-- ===== src/Bench/Kept.antt =====
-- What follows the runs in gb_bench_run leaves the array of the runs in the summary alone.
use gatebench.Base.{
  ℕ, ◌*◌, ◌≡◌, ◌∙◌, refl, Bool, true, false, not, ◌||◌, Option, none, some, List, [], ◌∷◌, ℤ, pos,
  neg, is_neg, if◌then◌else◌, einval, enomem, first_cells, Bool-cases, inl, inr, map,
}
use gatebench.Base.Double.{Double}
use gatebench.Base.Sort.{Qsort}
use gatebench.Config.{GbConfig}
use gatebench.Stats.Order.{gb_stats_median_uint64, gb_stats_median_double}
use gatebench.Bench.Act.{Machine, Result, ok, err, Act, then_act, ◌>>=◌, raise_if}
use gatebench.Bench.Run.{RunResult}
use gatebench.Bench.Aggregate.{
  GbSummary, spread, put_stddev, put_median, put_p50, put_p95, put_p99, put_p999, extremes,
  stored_by, aggregate, sums,
}

-- The array and its length are left alone.
abbrev pub Same : {F : Type 0} → GbSummary F → GbSummary F → Type 0
Same s t = (t.runs ≡ s.runs) × (t.run_count ≡ s.run_count)

abbrev Refused : {A : Type 0} → Option (ℤ × Option A) → Type 0
Refused none = Unit
Refused (some (ret, none)) = is_neg ret ≡ true
Refused (some (ret, some x)) = Unit

module _ {F : Type 0} where
  -- Whatever an action does, it leaves the array alone, and a failure has a negative code.
  abbrev pub Leaves : {A : Type 0} → GbSummary F → Option (Result A × GbSummary F) → Type 0
  Leaves s none = Unit
  Leaves s (some (ok a, t)) = Same s t
  Leaves s (some (err e, t)) = (is_neg e ≡ true) × Same s t

  pub record Keeps {A : Type 0} (x : Act (GbSummary F) A) : Type 0 where
    pub leaves : (s : GbSummary F) → Leaves s (x s)

  Leaves-trans :
      {A : Type 0} (s t : GbSummary F) (o : Option (Result A × GbSummary F))
      → Same s t
      → Leaves t o
      → Leaves s o
  Leaves-trans s t none h k = tt
  Leaves-trans s t (some (ok a, u)) h k = (k.0 ∙ h.0, k.1 ∙ h.1)
  Leaves-trans s t (some (err e, u)) h k = (k.0, (k.1.0 ∙ h.0, k.1.1 ∙ h.1))

  then_act-Leaves :
      {A B : Type 0} (s : GbSummary F) (o : Option (Result A × GbSummary F))
      (f : A → Act (GbSummary F) B)
      → Leaves s o
      → ((a : A) → Keeps (f a))
      → Leaves s (then_act o f)
  then_act-Leaves s none f h k = tt
  then_act-Leaves s (some (ok a, t)) f h k = Leaves-trans s t (f a t) h ((k a).leaves t)
  then_act-Leaves s (some (err e, t)) f h k = h

  bind-Keeps :
      {A B : Type 0} (x : Act (GbSummary F) A) (f : A → Act (GbSummary F) B)
      → Keeps x
      → ((a : A) → Keeps (f a))
      → Keeps (x >>= f)
  bind-Keeps x f h k = record { leaves = λ s. then_act-Leaves s (x s) f (h.leaves s) k }

  raise_if-Keeps : (c : Bool) (e : ℤ) → is_neg e ≡ true → Keeps (raise_if c e)
  raise_if-Keeps true e n = record { leaves = λ s. (n, (refl, refl)) }
  raise_if-Keeps false e n = record { leaves = λ s. (refl, refl) }

  stored_by-Keeps :
      {A : Type 0} (store : A → GbSummary F → GbSummary F) (o : Option (ℤ × Option A))
      → ((x : A) (s : GbSummary F) → Same s (store x s))
      → Refused o
      → Keeps (stored_by store o)
  stored_by-Keeps store none h r = record { leaves = λ s. tt }
  stored_by-Keeps store (some (ret, none)) h r = record { leaves = λ s. (r, (refl, refl)) }
  stored_by-Keeps store (some (ret, some x)) h r = elim (Bool-cases (is_neg ret)) [
    | inl e ↦ record { leaves = λ s. rw (Leaves, e) (e, h x s) }
    | inr e ↦ record { leaves = λ s. rw (Leaves, e) (h x s) }
  ]

extremes-Keeps : (d : Double) (xs : List d.F) → Keeps (extremes d xs)
extremes-Keeps d [] = record { leaves = λ s. tt }
extremes-Keeps d (x ∷ xs) = record { leaves = λ s. (refl, refl) }

put_stddev-Keeps : (d : Double) (x : d.F) → Keeps (put_stddev x)
put_stddev-Keeps d x = record { leaves = λ s. (refl, refl) }

-- The two medians have the same shape: a cell of the sorted copy behind the tests.
copied-Refused :
    {A : Type 0} (bad no_memory : Bool) (cells : Option (List A)) (pick : List A → Option A)
    → Refused {A = A} (
        if bad
        then some (neg einval, none)
        else if no_memory
        then some (neg enomem, none)
        else elim cells [
          | none ↦ none
          | some copy ↦ elim (pick copy) [ none ↦ none | some x ↦ some (pos 0, some x) ]
        ])
copied-Refused true no_memory cells pick = refl
copied-Refused false true cells pick = refl
copied-Refused false false none pick = tt
copied-Refused false false (some copy) pick =
    elim (pick copy) as (λ o. Refused (elim o [ none ↦ none | some x ↦ some (pos 0, some x) ])) [
      | none ↦ tt
      | some x ↦ tt
    ]

median_double-Refused :
    (d : Double) (q : Qsort d.F) (malloc : ℕ → Bool) (xs : List d.F) (n : ℕ)
    → Refused (gb_stats_median_double d q malloc (some xs) n true)
unfolding gb_stats_median_double
median_double-Refused d q malloc xs n = copied-Refused _ _ (first_cells n xs) _

median_uint64-Refused :
    (q : Qsort ℕ) (malloc : ℕ → Bool) (xs : List ℕ) (n : ℕ)
    → Refused (gb_stats_median_uint64 q malloc (some xs) n true)
unfolding gb_stats_median_uint64
median_uint64-Refused q malloc xs n = copied-Refused _ _ (first_cells n xs) _

module _ (w : Machine) where
  open w use {mnl, double, sort, sort_double, malloc}

  pub aggregate-Keeps :
      (grant : ℕ → ℕ → Bool) (cfg : GbConfig) (rs : List (RunResult double.F))
      → Keeps (aggregate w grant cfg rs)
  unfolding aggregate
  aggregate-Keeps grant cfg rs =
      let n = cfg.runs in
      let ops = map (λ (r : RunResult double.F). r.ops_per_sec) rs in
      let latency = λ (pick : RunResult double.F → ℕ) (k : ℕ).
        gb_stats_median_uint64 sort (grant k) (some (map pick rs)) n true in
      let refused = λ (pick : RunResult double.F → ℕ) (k : ℕ).
        median_uint64-Refused sort (grant k) (map pick rs) n in
      bind-Keeps _ _ (raise_if-Keeps (not (grant 0 (n * 8))) (neg enomem) refl) λ _.
        bind-Keeps _ _
          (stored_by-Keeps put_median
            (gb_stats_median_double double sort_double (grant 1) (some ops) n true)
            (λ x s. (refl, refl)) (median_double-Refused double sort_double (grant 1) ops n))
          λ _. bind-Keeps _ _ (extremes-Keeps double ops) λ _.
            bind-Keeps _ _
              (raise_if-Keeps
                (not (grant 2 (n * 8))
                  || (not (grant 3 (n * 8)) || (not (grant 4 (n * 8)) || not (grant 5 (n * 8)))))
                (neg enomem) refl)
              λ _.
                bind-Keeps _ _
                  (stored_by-Keeps put_p50 (latency (λ r. r.summary.p50) 6) (λ x s. (refl, refl))
                    (refused (λ r. r.summary.p50) 6))
                  λ _.
                    bind-Keeps _ _
                      (stored_by-Keeps put_p95 (latency (λ r. r.summary.p95) 7)
                        (λ x s. (refl, refl)) (refused (λ r. r.summary.p95) 7))
                      λ _.
                        bind-Keeps _ _
                          (stored_by-Keeps put_p99 (latency (λ r. r.summary.p99) 8)
                            (λ x s. (refl, refl)) (refused (λ r. r.summary.p99) 8))
                          λ _.
                            bind-Keeps _ _
                              (stored_by-Keeps put_p999 (latency (λ r. r.summary.p999) 9)
                                (λ x s. (refl, refl)) (refused (λ r. r.summary.p999) 9))
                              λ _.
                                put_stddev-Keeps double
                                  (spread double n (sums double double.f0 double.f0 ops))
