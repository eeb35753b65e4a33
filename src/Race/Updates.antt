-- ===== src/Race/Updates.antt =====
-- The requests of src/race.c that replace a gate: race_send_bad_interval and race_send_basetime_update.
-- The pointers to the messages are not NULL, as the workers pass them.
use Prim.Native.Nat.{bit_or}
use gatebench.Base.{
  ℕ, ◌+◌, ◌%◌, Bool, true, not, ◌&&◌, ◌||◌, Option, none, some, List, [], ◌∷◌, ℤ, neg, is_neg,
  u64_mod, ◌==◌, ◌==ℤ◌, if◌then◌else◌, length, eexist,
}
use gatebench.Config.{GbConfig, clock_tai}
use gatebench.Mnl.{Mnl}
use gatebench.Gate.Types.{GateShape, GateEntry, NlMsg}
use gatebench.Gate.Build.{build_gate_newaction}
use gatebench.Gate.Numbers.{nlm_f_create, nlm_f_excl, nlm_f_replace}
use gatebench.Bench.Act.{Act, pure, ◌>>=◌, kept}
use gatebench.Race.Thread.{Thread, built_with, send_recv}
use gatebench.Nl.{NlSock}
use gatebench.Nl.Exchange.{Message, World, Exchanged, Answer, gb_nl_send_recv}
use gatebench.Race.Invalid.{race_invalid_interval_ns}

-- sum += (uint64_t)entries[i].interval
unfoldable pub intervals : ℕ → List GateEntry → ℕ
intervals sum [] = sum
intervals sum (e ∷ es) = intervals ((sum + e.interval) % u64_mod) es

-- cfg ? cfg->interval_ns : 0, and the same for two other fields
abbrev pub interval_of : Option GbConfig → ℕ
interval_of none = 0
interval_of (some c) = c.interval_ns

abbrev pub cycle_of : Option GbConfig → ℕ
cycle_of none = 0
cycle_of (some c) = c.cycle_time

abbrev pub cycle_ext_of : Option GbConfig → ℕ
cycle_ext_of none = 0
cycle_ext_of (some c) = c.cycle_time_ext

-- The sum if it was asked for and is not 0, else the interval of the configuration, else 1 ms; no
-- configuration is `none`.
abbrev pub or_interval : Option GbConfig → ℕ → ℕ
or_interval cfg cycle =
    if not (cycle == 0) then cycle else if interval_of cfg == 0 then 1000000 else interval_of cfg

abbrev pub update_cycle : Option GbConfig → List GateEntry → ℕ
update_cycle cfg entries =
    or_interval cfg (if cycle_of cfg == 0 then intervals 0 entries else cycle_of cfg)

-- The shape that race_send_basetime_update sends with the entries; its number of entries stays 0.
unfoldable pub basetime_shape : Option GbConfig → ℕ → ℕ → List GateEntry → GateShape
unfolding intervals
basetime_shape cfg basetime clockid entries = record {
  clockid = clockid;
  base_time = basetime;
  cycle_time = update_cycle cfg entries;
  cycle_time_ext = cycle_ext_of cfg;
  interval_ns = 0;
  entries = 0;
}

module _ (m : Mnl) where
  open m use {Buf}

  -- From what build_gate_newaction leaves on.
  abbrev pub send_built :
      Option NlSock
      → Message Buf
      → Bool
      → World Buf
      → Option (ℤ × Option (NlMsg Buf))
      → Option (Exchanged Buf (Answer m))
  send_built sock msg has_resp world none = none
  send_built sock msg has_resp world (some (ret, none)) =
      some (record { result = some (ret, []); sock = sock; request = some msg.buf })
  send_built sock msg has_resp world (some (ret, some b)) =
      let msg' : Message Buf = record { buf = kept msg.buf b.buf; cap = b.cap; len = b.len } in
      if is_neg ret
      then some (record { result = some (ret, []); sock = sock; request = some msg'.buf })
      else some (gb_nl_send_recv m sock (some msg') has_resp world)

  -- The message without its contents, as gb_nl_msg_reset leaves it.
  abbrev pub cleared : Message Buf → NlMsg Buf
  cleared msg = record { buf = some msg.buf; cap = msg.cap; len = 0 }

  -- `none` is a read behind the entries. The callers pass as many entries as the array has.
  unfoldable pub race_send_basetime_update :
      Option NlSock
      → Message Buf
      → Bool
      → Option GbConfig
      → ℕ
      → ℕ
      → ℕ
      → List GateEntry
      → World Buf
      → Option (Exchanged Buf (Answer m))
  unfolding basetime_shape build_gate_newaction gb_nl_send_recv
  race_send_basetime_update sock msg has_resp cfg index basetime clockid entries world =
      send_built sock msg has_resp world (
        build_gate_newaction m (some (cleared msg)) index
          (some (basetime_shape cfg basetime clockid entries)) (some entries) (length entries)
          nlm_f_replace 0 (neg 1))

  abbrev pub interval_shape : GateShape
  interval_shape = record {
    clockid = clock_tai;
    base_time = 0;
    cycle_time = race_invalid_interval_ns;
    cycle_time_ext = 0;
    interval_ns = race_invalid_interval_ns;
    entries = 1;
  }

  abbrev pub interval_entry : ℕ → GateEntry
  interval_entry interval = record {
    index = 0;
    gate_state = true;
    interval = interval;
    ipv = neg 1;
    maxoctets = neg 1;
  }

  -- The message with one entry of that interval.
  abbrev pub interval_gate : Message Buf → ℕ → ℕ → ℕ → Act (Thread Buf) (ℤ × Message Buf)
  interval_gate msg index interval flags = built_with m msg (
      build_gate_newaction m (some (cleared msg)) index (some interval_shape)
        (some (interval_entry interval ∷ [])) 1 flags 0 (neg 1))

  abbrev pub sent_if_built : ℤ × Message Buf → Act (Thread Buf) (ℤ × Message Buf)
  sent_if_built (ret, msg) = if is_neg ret then pure (ret, msg) else send_recv m msg

  -- The builder failed, or the kernel did, but not because the gate is there.
  abbrev pub ends_early : ℤ → ℤ → Bool
  ends_early build_ret ret = is_neg build_ret || (is_neg ret && not (ret ==ℤ neg eexist))

  -- A gate is created, or is there, and then replaced with an interval of 0.
  unfoldable pub race_send_bad_interval : Message Buf → ℕ → Act (Thread Buf) (ℤ × Message Buf)
  unfolding build_gate_newaction
  race_send_bad_interval msg index = do
    b ← interval_gate msg index race_invalid_interval_ns (bit_or nlm_f_create nlm_f_excl)
    c ← sent_if_built b
    if ends_early b.0 c.0 then pure c else interval_gate c.1 index 0 nlm_f_replace >>= sent_if_built
