-- ===== src/Tests/UtilRuns.antt =====
-- src/util.c
use gatebench.Base.{◌+◌, ◌*◌, ◌<◌, ◌≡◌, some, [], ◌∷◌, pos, arith}
use gatebench.Util.{Timespec, slept, interrupted, gb_util_sleep_ns}
use gatebench.Util.Sleep.{gb_util_sleep_ns-signals}

gb_util_sleep_ns-signals_example :
    (first : Timespec) × (gb_util_sleep_ns (interrupted (1, 7) ∷ slept ∷ []) 2500000000
      ≡ (some (pos 0), first ∷ (1, 7) ∷ []))
    × (first.0 * 1000000000 + first.1 ≡ 2500000000)
    × (first.1 < 1000000000)
gb_util_sleep_ns-signals_example =
    gb_util_sleep_ns-signals ((1, 7) ∷ []) [] 2500000000 (omega arith)
