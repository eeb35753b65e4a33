-- ===== src/Bench.antt =====
-- The benchmark (src/bench.c): the entries that it sends, and which latencies it keeps.
pub mod Filled
pub mod Act
pub mod Run
pub mod Aggregate
pub mod Served
pub mod Taken
pub mod Measured
pub mod Completed
pub mod SingleRun
pub mod AllRuns
pub mod Kept
pub mod Release
use gatebench.Base.{
  ℕ, zero, suc, ◌+◌, ◌-◌, ◌%◌, Bool, true, false, ◌&&◌, ◌||◌, not, Option, none, some, List, [],
  ◌∷◌, ℤ, pos, neg, erange, u32_mod, ltb, leb, ◌==◌, if◌then◌else◌,
}
use gatebench.Gate.Types.{GateEntry}
use gatebench.Config.{GbConfig}
use gatebench.Stats.{GbStats, gb_stats_add}

-- entries[i] of n
abbrev pub slot : ℕ → ℕ → ℕ → GateEntry
slot n interval_ns i =
    if leb 10 n && ((i + 1) % 10 == 0)
    then record {
      index = i;
      gate_state = false;
      interval = interval_ns % u32_mod;
      ipv = neg 1;
      maxoctets = neg 1;
    }
    else if i % 2 == 0
    then record {
      index = i;
      gate_state = true;
      interval = interval_ns % u32_mod;
      ipv = pos 7;
      maxoctets = pos 8192;
    }
    else record {
      index = i;
      gate_state = true;
      interval = interval_ns % u32_mod;
      ipv = pos 0;
      maxoctets = pos 32768;
    }

-- The loop from index i on, over the cells from there: `left` of them are written, and `none` is a
-- write behind the array.
unfoldable pub fill_from : ℕ → ℕ → ℕ → ℕ → List GateEntry → Option (List GateEntry)
fill_from n interval_ns i zero cells = some cells
fill_from n interval_ns i (suc left) [] = none
fill_from n interval_ns i (suc left) (c ∷ cells) =
    elim (fill_from n interval_ns (i + 1) left cells) [
      | none ↦ none
      | some es ↦ some (slot n interval_ns i ∷ es)
    ]

-- `entries` is `none` for NULL.
unfoldable pub gb_fill_entries :
    Option (List GateEntry) → ℕ → ℕ → Option (ℤ × Option (List GateEntry))
unfolding fill_from
gb_fill_entries none n interval_ns = some (pos 0, none)
gb_fill_entries (some cells) n interval_ns =
    if n == 0
    then some (pos 0, some cells)
    else if ltb (u32_mod - 1) interval_ns || (interval_ns == 0)
    then some (neg erange, some cells)
    else elim (fill_from n interval_ns 0 n cells) [ none ↦ none | some es ↦ some (pos 0, some es) ]

-- What gb_stats_add returns is not looked at.
unfoldable pub stats_add_sample : (ℕ → Bool) → GbStats → GbConfig → ℕ → ℕ → Option GbStats
unfolding gb_stats_add
stats_add_sample realloc stats cfg i latency_ns =
    if not cfg.sample_mode
    then (gb_stats_add realloc (some stats) latency_ns).1
    else if cfg.sample_every == 0
    then some stats
    else if i % cfg.sample_every == 0
    then (gb_stats_add realloc (some stats) latency_ns).1
    else some stats
