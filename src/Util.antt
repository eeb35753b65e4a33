-- ===== src/Util.antt =====
-- Clocks, priorities, waits and numbers (src/util.c). What a system call does is an argument: its
-- result, or the errno with which it fails.
pub mod Sleep
use gatebench.Base.{
  ℕ, ◌+◌, ◌-◌, ◌*◌, ◌/◌, ◌%◌, ◌^◌, Bool, true, false, not, ◌||◌, Option, none, some, List, [], ◌∷◌,
  ℤ, pos, negsuc, neg, is_neg, einval, erange, eperm, eintr, u64_mod, u32_mod, ltb, leb, ◌==◌,
  ◌==ℤ◌, if◌then◌else◌, length,
}
use gatebench.Base.Libc.{Bytes, Libc}
use gatebench.Cli.Number.{bad_end}

-- A system call that fails with an errno, or succeeds with a value.
pub data Call (A : Type 0) : Type 0 where
  failed : ℕ → Call A
  success : A → Call A

-- -errno, or 0
abbrev pub code : {A : Type 0} → Call A → ℤ
code (failed e) = neg e
code (success a) = pos 0

-- CPU_SETSIZE
abbrev pub cpu_setsize : ℕ
cpu_setsize = 1024

-- `setaffinity` is sched_setaffinity for one CPU.
unfoldable pub gb_util_pin_cpu : (ℕ → Call Unit) → ℤ → ℤ
gb_util_pin_cpu setaffinity (negsuc n) = pos 0
gb_util_pin_cpu setaffinity (pos cpu) =
    if leb cpu_setsize cpu then neg einval else code (setaffinity cpu)

-- CLOCK_MONOTONIC, CLOCK_MONOTONIC_RAW, CLOCK_TAI, CLOCK_REALTIME and CLOCK_BOOTTIME, else CLOCK_MONOTONIC
abbrev pub known_clock : ℤ → ℤ
known_clock clk =
    if (clk ==ℤ pos 1)
      || ((clk ==ℤ pos 4) || ((clk ==ℤ pos 11) || ((clk ==ℤ pos 0) || (clk ==ℤ pos 7))))
    then clk
    else pos 1

-- tv_sec and tv_nsec
abbrev pub Timespec : Type 0
Timespec = ℕ × ℕ

abbrev pub to_ns : Call Timespec → Option ℕ → ℤ × Option ℕ
to_ns (failed e) out = (neg e, out)
to_ns (success (sec, nsec)) out = (pos 0, some ((sec * 1000000000 + nsec) % u64_mod))

unfoldable pub gb_util_ns_now : (ℤ → Call Timespec) → Option ℕ → ℤ → ℤ × Option ℕ
gb_util_ns_now gettime none clockid = (neg einval, none)
gb_util_ns_now gettime (some old) clockid = to_ns (gettime (known_clock clockid)) (some old)

-- sched_setscheduler for SCHED_FIFO, then for SCHED_RR unless permission is missing
abbrev pub schedule : Call Unit → Call Unit → ℤ
schedule (success u) rr = pos 0
schedule (failed e) rr = if e == eperm then neg e else code rr

unfoldable pub gb_util_set_priority : Call ℕ → Call ℕ → (ℕ → Call Unit) → (ℕ → Call Unit) → ℤ → ℤ
gb_util_set_priority lowest highest fifo rr (negsuc n) = pos 0
gb_util_set_priority (failed e) highest fifo rr (pos priority) = neg e
gb_util_set_priority (success low) (failed e) fifo rr (pos priority) = neg e
gb_util_set_priority (success low) (success high) fifo rr (pos priority) =
    if ltb priority low || ltb high priority
    then neg erange
    else schedule (fifo priority) (rr priority)

unfoldable pub gb_util_get_cpu : Call ℕ → Option ℕ → ℤ × Option ℕ
gb_util_get_cpu getcpu none = (neg einval, none)
gb_util_get_cpu (failed e) (some old) = (neg e, some old)
gb_util_get_cpu (success cpu) (some old) = (pos 0, some cpu)

-- How a call of nanosleep ends: after the time, by a signal with the time that remains, or otherwise.
pub data Nap : Type 0 where
  slept : Nap
  interrupted : Timespec → Nap
  refused : ℕ → Nap

-- The loop: the code, `none` if the calls given do not end it, and the times that were asked for.
unfoldable pub sleep_loop : List Nap → Timespec → Option ℤ × List Timespec
sleep_loop [] req = (none, [])
sleep_loop (slept ∷ naps) req = (some (pos 0), req ∷ [])
sleep_loop (refused e ∷ naps) req = (some (neg e), req ∷ [])
sleep_loop (interrupted rem ∷ naps) req =
    let (ret, asked) = sleep_loop naps rem in (ret, req ∷ asked)

unfoldable pub gb_util_sleep_ns : List Nap → ℕ → Option ℤ × List Timespec
unfolding sleep_loop
gb_util_sleep_ns naps ns =
    if ns == 0 then (some (pos 0), []) else sleep_loop naps (ns / 1000000000, ns % 1000000000)

module _ (libc : Libc) where
  -- strtoumax is strtoull: uintmax_t has 64 bits.
  unfoldable pub gb_util_parse_uint64 : Option Bytes → Option ℕ → ℤ × Option ℕ
  gb_util_parse_uint64 none val = (neg einval, val)
  gb_util_parse_uint64 (some s) none = (neg einval, none)
  gb_util_parse_uint64 (some s) (some old) =
      let c = libc.strtoull s in
      if (c.stop == 0) || ltb c.stop (length s)
      then (neg einval, some old)
      else if (c.errno == erange) || ltb (u64_mod - 1) c.value
      then (neg erange, some old)
      else if not (c.errno == 0)
      then (neg einval, some old)
      else (pos 0, some c.value)

  unfoldable pub gb_util_parse_uint32 : Option Bytes → Option ℕ → ℤ × Option ℕ
  gb_util_parse_uint32 none val = (neg einval, val)
  gb_util_parse_uint32 (some s) none = (neg einval, none)
  gb_util_parse_uint32 (some s) (some old) =
      let c = libc.strtoul s in
      if bad_end s c.errno c.stop || ltb (u32_mod - 1) c.value
      then (neg einval, some old)
      else (pos 0, some c.value)
