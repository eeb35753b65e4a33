-- ===== src/Util/Sleep.antt =====
-- gb_util_sleep_ns survives signals.
use gatebench.Base.{
  ℕ, ◌+◌, ◌*◌, ◌/◌, ◌%◌, ◌<◌, ◌≡◌, refl, ap, some, false, List, [], ◌∷◌, ◌++◌, map, pos, ◌==◌,
  arith,
}
use gatebench.Util.{Nap, Timespec, slept, interrupted, sleep_loop, gb_util_sleep_ns}

loop-signals :
    (rems : List Timespec) (more : List Nap) (req : Timespec)
    → sleep_loop (map interrupted rems ++ slept ∷ more) req ≡ (some (pos 0), req ∷ rems)
unfolding sleep_loop
loop-signals [] more req = refl
loop-signals (r ∷ rems) more req = ap (λ p. (p.0, req ∷ p.1)) (loop-signals rems more r)

-- For a time above 0 that any number of signals interrupt, gb_util_sleep_ns returns 0 once a call
-- sleeps through; the first call asks for exactly that time, with less than 10 ^ 9 ns in tv_nsec, and
-- each further call for exactly the time that the one before it left.
pub gb_util_sleep_ns-signals :
    (rems : List Timespec) (more : List Nap) (ns : ℕ)
    → 0 < ns
    → (first : Timespec) × (gb_util_sleep_ns (map interrupted rems ++ slept ∷ more) ns
        ≡ (some (pos 0), first ∷ rems))
      × (first.0 * 1000000000 + first.1 ≡ ns)
      × (first.1 < 1000000000)
unfolding gb_util_sleep_ns
gb_util_sleep_ns-signals rems more ns some_time =
    let test : (ns == 0) ≡ false = ground arith in
    (
      (ns / 1000000000, ns % 1000000000),
      rw (gb_util_sleep_ns, test) (loop-signals rems more _),
      omega arith,
      omega arith,
    )
