-- ===== src/Bench/Taken.antt =====
-- Which latencies stats_add_sample of src/bench.c keeps.
use gatebench.Base.{
  ℕ, zero, suc, ◌+◌, ◌%◌, ◌<◌, ◌^◌, ◌≡◌, refl, Bool, true, false, not, ◌&&◌, ◌||◌, Option, some,
  leb, ◌==◌, if◌then◌else◌, arith, Bool-cases, inl, inr,
}
use gatebench.Config.{GbConfig}
use gatebench.Stats.{GbStats, push, gb_stats_add}
use gatebench.Stats.Growth.{IsValid, push-IsValid}
use gatebench.Bench.{stats_add_sample}

-- Whether the latencies of index i are kept.
abbrev pub takes : GbConfig → ℕ → Bool
takes cfg i = not cfg.sample_mode || (not (cfg.sample_every == 0) && (i % cfg.sample_every == 0))

-- How many latencies the indices from i on give, two for each that is taken.
abbrev pub taken : GbConfig → ℕ → ℕ → ℕ
taken cfg i zero = 0
taken cfg i (suc left) = (if takes cfg i then 2 else 0) + taken cfg (i + 1) left

-- A struct behind one call of stats_add_sample, with room before.
pub record Grown (s : GbStats) (yes : Bool) (o : Option GbStats) : Type 0 where
  pub stats : GbStats
  pub eq : o ≡ some stats
  pub valid : IsValid stats
  pub counted : stats.count ≡ s.count + (if yes then 1 else 0)
  pub same_capacity : stats.capacity ≡ s.capacity

push-Grown :
    (realloc : ℕ → Bool) (s : GbStats) (value : ℕ)
    → IsValid s
    → s.count < s.capacity
    → s.capacity < 2 ^ 59
    → Grown s true ((gb_stats_add realloc (some s) value).1)
unfolding gb_stats_add
push-Grown realloc s value v room small =
    let no : leb s.capacity s.count ≡ false = ground arith in
    rw no (record {
      stats = push s value;
      eq = refl;
      valid = push-IsValid s value v room small;
      counted = ground arith;
      same_capacity = refl;
    })

pub stats_add_sample-Grown :
    (realloc : ℕ → Bool) (s : GbStats) (cfg : GbConfig) (i value : ℕ)
    → IsValid s
    → s.count < s.capacity
    → s.capacity < 2 ^ 59
    → Grown s (takes cfg i) (stats_add_sample realloc s cfg i value)
unfolding stats_add_sample
stats_add_sample-Grown realloc s cfg i value v room small = elim (Bool-cases cfg.sample_mode) [
  | inr e ↦ rw e (push-Grown realloc s value v room small)
  | inl e ↦ elim (Bool-cases (cfg.sample_every == 0)) [
    | inl z ↦
        rw (e, z)
          (record { stats = s; eq = refl; valid = v; counted = omega arith; same_capacity = refl })
    | inr z ↦ elim (Bool-cases (i % cfg.sample_every == 0)) [
      | inl k ↦ rw (e, z, k) (push-Grown realloc s value v room small)
      | inr k ↦
          rw (e, z, k)
            (record {
              stats = s;
              eq = refl;
              valid = v;
              counted = omega arith;
              same_capacity = refl;
            })
    ]
  ]
]
