-- ===== src/Stats.antt =====
-- src/stats.c: samples of latencies, their order statistics, mean and deviation.
-- A pointer to the struct is `none` for NULL. `values` is `none` for NULL, else the first `count`
-- cells of the array: the cells behind them are not initialised. A read outside is a fault, `none`.
pub mod Growth
pub mod Order
pub mod Moments
pub mod Sorting
pub mod Cells
pub mod Range
pub mod Percentile
pub mod Median
pub mod Middle
pub mod Summarised
use gatebench.Base.{
  ℕ, ◌+◌, ◌-◌, ◌*◌, ◌/◌, ◌%◌, Bool, true, false, ◌||◌, Option, none, some, List, [], ◌∷◌, ◌++◌, ℤ,
  pos, neg, einval, enomem, u64_mod, ltb, leb, ◌==◌, if◌then◌else◌, get_elem?, length, is_some, not,
}
use gatebench.Base.Sort.{Qsort}
use gatebench.Base.Double.{Double}

pub record GbStats : Type 0 where
  pub values : Option (List ℕ)
  pub count : ℕ
  pub capacity : ℕ
  pub sorted : Bool

-- What the array holds.
abbrev pub stored : GbStats → List ℕ
stored s = elim s.values [ none ↦ [] | some l ↦ l ]

-- (a > b) - (a < b)
unfoldable pub compare_u64 : ℕ → ℕ → ℤ
compare_u64 a b = if ltb b a then pos 1 else if ltb a b then neg 1 else pos 0

-- memset(stats, 0, sizeof(*stats))
abbrev pub zeroed : GbStats
zeroed = record { values = none; count = 0; capacity = 0; sorted = false }

-- `malloc` says whether it grants a number of bytes; so does `realloc` below.
unfoldable pub gb_stats_init : (ℕ → Bool) → Option GbStats → ℕ → ℤ × Option GbStats
gb_stats_init malloc none initial_capacity = (neg einval, none)
gb_stats_init malloc (some s) initial_capacity =
    if initial_capacity == 0
    then (pos 0, some zeroed)
    else if malloc (initial_capacity * 8 % u64_mod)
    then (pos 0, some (record zeroed { values = some []; capacity = initial_capacity }))
    else (neg enomem, some zeroed)

unfoldable pub gb_stats_free : Option GbStats → Option GbStats
gb_stats_free none = none
gb_stats_free (some s) = some zeroed

-- stats->values[stats->count++] = value; stats->sorted = false;
abbrev pub push : GbStats → ℕ → GbStats
push s value = record s {
  values = some (stored s ++ value ∷ []);
  count = (s.count + 1) % u64_mod;
  sorted = false;
}

abbrev pub new_capacity : GbStats → ℕ
new_capacity s = if s.capacity == 0 then 16 else s.capacity * 2 % u64_mod

unfoldable pub gb_stats_add : (ℕ → Bool) → Option GbStats → ℕ → ℤ × Option GbStats
gb_stats_add realloc none value = (neg einval, none)
gb_stats_add realloc (some s) value =
    if leb s.capacity s.count
    then (if realloc (new_capacity s * 8 % u64_mod)
        then (
          pos 0,
          some (push (record s { values = some (stored s); capacity = new_capacity s }) value),
        )
        else (neg enomem, some s))
    else (pos 0, some (push s value))

module _ (q : Qsort ℕ) where
  unfoldable pub sort_stats : GbStats → GbStats
  sort_stats s =
      if not (is_some s.values) || (s.count == 0 || s.sorted)
      then s
      else record s { values = some (q.qsort compare_u64 (stored s)); sorted = true }

  unfoldable pub gb_stats_sort : Option GbStats → Option GbStats
  unfolding sort_stats
  gb_stats_sort none = none
  gb_stats_sort (some s) = some (sort_stats s)

-- !stats->values || stats->count == 0
abbrev pub is_empty : GbStats → Bool
is_empty s = not (is_some s.values) || s.count == 0
