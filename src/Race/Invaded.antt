-- ===== src/Race/Invaded.antt =====
-- The worker threads of src/race.c that move the base time and that send requests with something wrong
-- keep step with their partners.
use gatebench.Base.{
  ℕ, ◌+◌, ◌%◌, Bool, true, false, not, Option, none, some, List, [], ◌∷◌, ℤ, neg, is_neg, ◌==◌,
  ◌==ℤ◌, ltb, if◌then◌else◌, enoent, refl, u32_mod, u64_mod,
}
use gatebench.Config.{gb_max_entries}
use gatebench.Gate.Types.{GateDump}
use gatebench.Gate.Parse.{empty_dump}
use gatebench.Gate.Build.{build_gate_delaction}
use gatebench.Nl.{NlSock}
use gatebench.Nl.Get.{gb_nl_get_action}
use gatebench.Nl.Exchange.{Message, World}
use gatebench.Bench.Act.{Machine}
use Prim.Native.Nat.{bit_or}
use gatebench.Gate.Numbers.{nlm_f_create, nlm_f_excl, nlm_f_replace}
use gatebench.Race.Invalid.{race_invalid_interval_ns}
use gatebench.Race.Updates.{
  cleared, interval_gate, sent_if_built, ends_early, race_send_bad_interval,
}
use gatebench.Race.Workers.{RaceSetup, Around, T}
use gatebench.Race.Invaders.{
  race_basetime_jitter_ns, got, get_action, update_base, restart, race_send_timerstart_replace_live,
  next_case, send_wrong, send_case, delete_again, deleted, invalid_case, live_case, invalid_or_live,
  invalid_round, race_invalid_thread, moved_base, basetime_round, race_basetime_thread,
}
use gatebench.Race.Steps.{
  HasSeat, AddsAt, IsRound, quiet_then, quietly, pure-Adds, if-Adds, ended_then, started_then,
  Signals, set_up, while_racing-Comes, thread-Signals,
}
use gatebench.Race.Quiet.{
  Quiet, record_err_if-Quiet, draw-Quiet, clock_now-Quiet, exchanged-Quiet,
  record_nl_error_if-Quiet, built_with-Quiet, open_socket-Settles,
}
use gatebench.Race.Signals.{counted, send_recv-Quiet, alloc-Settles}

module _ (w : Machine) (s : RaceSetup) (k : ℕ) (is_a : Bool) where
  open w use {mnl, malloc, realloc, socket_buffer, fresh}

  got-AddsAt :
      (r : Option (ℤ × Option GateDump) × Option NlSock) (t : T w s)
      → HasSeat k is_a t
      → AddsAt k is_a [] t (got w s r t)
  got-AddsAt (none, sock) t h = tt
  got-AddsAt (some (ret, dump), sock) t h = (refl, h)

  get_action-Quiet : (index : ℕ) → Quiet k is_a (get_action w s index)
  unfolding get_action
  get_action-Quiet index = record { adds = λ t h. each t.scene.worlds t h }
    where
      each :
          (ws : List (World mnl.Buf)) (t : T w s)
          → HasSeat k is_a t
          → AddsAt k is_a [] t (elim ws [
            | [] ↦ none
            | x ∷ xs ↦
                got w s
                  (gb_nl_get_action mnl malloc realloc socket_buffer fresh
                    (some t.scene.sock)
                    index
                    (some empty_dump)
                    x)
                  (record t { scene = record t.scene { worlds = xs } })
          ])
      each [] t h = tt
      each (x ∷ xs) t h =
          got-AddsAt
            (gb_nl_get_action mnl malloc realloc socket_buffer fresh (some t.scene.sock) index
              (some empty_dump) x)
            (record t { scene = record t.scene { worlds = xs } }) h

  update_base-Quiet :
      (msg : Message mnl.Buf) (index basetime clockid : ℕ) (dump : GateDump)
      → Quiet k is_a (update_base w s msg index basetime clockid dump)
  update_base-Quiet msg index basetime clockid dump = exchanged-Quiet mnl k is_a msg _

  restart-Quiet :
      (msg : Message mnl.Buf) (index : ℕ) (g : ℤ × GateDump)
      → Quiet k is_a (restart w s msg index g)
  restart-Quiet msg index (ret, dump) = if-Adds k is_a (is_neg ret) [] (pure-Adds k is_a _) (
      if-Adds k is_a (dump.num_entries == 0) [] (pure-Adds k is_a _) (
        if-Adds k is_a (ltb gb_max_entries dump.num_entries) [] (pure-Adds k is_a _) (
          quietly k is_a (draw-Quiet k is_a 2) λ which.
            quietly k is_a (clock_now-Quiet k is_a) λ now.
              quietly k is_a (draw-Quiet k is_a race_basetime_jitter_ns)
                λ jitter. update_base-Quiet msg index _ _ dump)))

  sent_if_built_with-Quiet : (b : ℤ × Message mnl.Buf) → Quiet k is_a (sent_if_built mnl b)
  sent_if_built_with-Quiet (ret, msg) =
      if-Adds k is_a (is_neg ret) [] (pure-Adds k is_a (ret, msg)) (send_recv-Quiet w s k is_a msg)

  interval_gate-Quiet :
      (msg : Message mnl.Buf) (index interval flags : ℕ)
      → Quiet k is_a (interval_gate mnl msg index interval flags)
  interval_gate-Quiet msg index interval flags = built_with-Quiet mnl k is_a msg _

  bad_interval-Quiet :
      (msg : Message mnl.Buf) (index : ℕ) → Quiet k is_a (race_send_bad_interval mnl msg index)
  unfolding race_send_bad_interval
  bad_interval-Quiet msg index =
      quietly k is_a
        (interval_gate-Quiet msg index race_invalid_interval_ns (bit_or nlm_f_create nlm_f_excl))
        λ b. quietly k is_a (sent_if_built_with-Quiet b) λ c.
          if-Adds k is_a (ends_early mnl b.0 c.0) [] (pure-Adds k is_a c) (
            quietly k is_a (interval_gate-Quiet c.1 index 0 nlm_f_replace) sent_if_built_with-Quiet)

  send_case-Quiet :
      (which index : ℕ) (msg : Message mnl.Buf) → Quiet k is_a (send_case w s which index msg)
  send_case-Quiet which index msg =
      if-Adds k is_a (ltb which 7) []
        (exchanged-Quiet mnl k is_a msg
          (λ sock x. some (send_wrong w s which index (some sock) msg x)))
        (bad_interval-Quiet msg index)

  next_case-Quiet : Quiet k is_a (next_case w s)
  next_case-Quiet = record { adds = λ t h. (refl, h) }

  delete_again-Quiet : (r : ℤ × Message mnl.Buf) → Quiet k is_a (delete_again w s r)
  delete_again-Quiet (ret, del) =
      if-Adds k is_a (is_neg ret) [] (pure-Adds k is_a del)
        (quietly k is_a (send_recv-Quiet w s k is_a del) (λ r. pure-Adds k is_a r.1))

  deleted-Quiet : (del : Message mnl.Buf) (index : ℕ) → Quiet k is_a (deleted w s del index)
  deleted-Quiet del index =
      quietly k is_a
        (built_with-Quiet mnl k is_a del
          (some (build_gate_delaction mnl (some (cleared mnl del)) index)))
        delete_again-Quiet

  invalid_case-Quiet :
      (msgs : Message mnl.Buf × Message mnl.Buf) → Quiet k is_a (invalid_case w s msgs)
  unfolding invalid_case
  invalid_case-Quiet (msg, del) = quietly k is_a next_case-Quiet λ which.
      quietly k is_a (send_case-Quiet which ((s.index + which) % u32_mod) msg) λ r.
        quietly k is_a (record_nl_error_if-Quiet mnl k is_a (is_neg r.0) r.0) λ u.
          quietly k is_a (deleted-Quiet del ((s.index + which) % u32_mod))
            (λ del'. pure-Adds k is_a (r.1, del'))

  live_case-Quiet : (msgs : Message mnl.Buf × Message mnl.Buf) → Quiet k is_a (live_case w s msgs)
  unfolding live_case race_send_timerstart_replace_live
  live_case-Quiet (msg, del) =
      quietly k is_a
        (quietly k is_a (get_action-Quiet s.live_index) (restart-Quiet msg s.live_index))
        λ r.
          quietly k is_a (record_nl_error_if-Quiet mnl k is_a _ r.0)
            (λ u. pure-Adds k is_a (r.1, del))

  invalid_or_live-Quiet :
      (msgs : Message mnl.Buf × Message mnl.Buf) → Quiet k is_a (invalid_or_live w s msgs)
  unfolding invalid_or_live
  invalid_or_live-Quiet msgs = record { adds = λ t h. chosen (t.ctx.ops % 2 == 0) t h }
    where
      chosen :
          (c : Bool) (t : T w s)
          → HasSeat k is_a t
          → AddsAt k is_a [] t (if c then live_case w s msgs t else invalid_case w s msgs t)
      chosen true t h = (live_case-Quiet msgs).adds t h
      chosen false t h = (invalid_case-Quiet msgs).adds t h

  invalid_round-IsRound :
      (msgs : Message mnl.Buf × Message mnl.Buf) → IsRound k is_a (invalid_round w s msgs)
  unfolding invalid_round
  invalid_round-IsRound msgs = started_then k is_a (
      quiet_then k is_a _ (invalid_or_live-Quiet msgs)
        (λ msgs'. ended_then k is_a (counted w s k is_a msgs')))

  moved_base-Quiet :
      (msg : Message mnl.Buf) (basetime : ℕ) (g : ℤ × GateDump)
      → Quiet k is_a (moved_base w s msg basetime g)
  moved_base-Quiet msg basetime (ret, dump) =
      if-Adds k is_a (is_neg ret) []
        (quietly k is_a (record_err_if-Quiet k is_a (not (ret ==ℤ neg enoent)) ret)
          (λ u. pure-Adds k is_a msg))
        (quietly k is_a (update_base-Quiet msg s.index basetime s.cfg.clockid dump) λ u.
          quietly k is_a (record_nl_error_if-Quiet mnl k is_a _ u.0) (λ r. pure-Adds k is_a u.1))

  basetime_round-IsRound : (msg : Message mnl.Buf) → IsRound k is_a (basetime_round w s msg)
  unfolding basetime_round
  basetime_round-IsRound msg = started_then k is_a (
      quiet_then k is_a _ (clock_now-Quiet k is_a) λ now.
        quiet_then k is_a _ (draw-Quiet k is_a race_basetime_jitter_ns) λ jitter.
          quiet_then k is_a _ (get_action-Quiet s.index) λ g.
            quiet_then k is_a _ (moved_base-Quiet msg ((now + (1 + jitter)) % u64_mod) g)
              λ msg'. ended_then k is_a (counted w s k is_a msg'))

  module _ (a : Around) (t : T w s) (h : HasSeat k is_a t) where
    pub race_invalid_thread-Signals : Signals k is_a t.log (race_invalid_thread w s a t)
    unfolding race_invalid_thread
    race_invalid_thread-Signals =
        thread-Signals k is_a t
          (set_up k is_a (open_socket-Settles mnl k is_a malloc a.opening) λ u.
            set_up k is_a (alloc-Settles w s k is_a _) λ msg.
              set_up k is_a (alloc-Settles w s k is_a _) λ resp.
                set_up k is_a (alloc-Settles w s k is_a 1024)
                  λ del. while_racing-Comes k is_a a.polls (msg, del) invalid_round-IsRound)
          h

    pub race_basetime_thread-Signals : Signals k is_a t.log (race_basetime_thread w s a t)
    unfolding race_basetime_thread
    race_basetime_thread-Signals =
        thread-Signals k is_a t
          (set_up k is_a (open_socket-Settles mnl k is_a malloc a.opening) λ u.
            set_up k is_a (alloc-Settles w s k is_a _) λ msg.
              set_up k is_a (alloc-Settles w s k is_a _)
                λ resp. while_racing-Comes k is_a a.polls msg basetime_round-IsRound)
          h
