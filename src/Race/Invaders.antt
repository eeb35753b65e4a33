-- ===== src/Race/Invaders.antt =====
-- The worker threads of src/race.c that move the base time and that send requests with something wrong.
use gatebench.Base.{
  ℕ, ◌+◌, ◌%◌, true, not, Option, none, some, [], ◌∷◌, ℤ, neg, is_neg, ◌==◌, ◌==ℤ◌, ltb,
  if◌then◌else◌, enoent, e2big, u32_mod, u64_mod,
}
use gatebench.Config.{gb_max_entries, clock_tai}
use gatebench.Gate.Types.{GateDump}
use gatebench.Gate.Build.{build_gate_delaction}
use gatebench.Gate.Capacity.{gate_msg_capacity}
use gatebench.Gate.Parse.{empty_dump}
use gatebench.Nl.{NlSock}
use gatebench.Nl.Get.{gb_nl_get_action}
use gatebench.Nl.Exchange.{Message, World, Exchanged, Answer}
use gatebench.Bench.Act.{Machine, ok, Result, Act, kept, pure, ◌>>=◌, ◌>>◌}
use gatebench.Race.Thread.{
  race_sync_start, race_sync_end, count_op, record_err_if, draw, clock_now, while_racing, at_out,
  exchanged, send_recv, record_nl_error_if, built_with, open_socket,
}
use gatebench.Race.Invalid.{
  race_send_bad_clockid, race_send_bad_base_time, race_send_bad_cycle_time,
  race_send_invalid_action, race_send_invalid_entry_attr,
}
use gatebench.Race.Updates.{race_send_basetime_update, race_send_bad_interval, cleared}
use gatebench.Race.Workers.{RaceSetup, Around, T, alloc, fails_but}

-- RACE_BASETIME_JITTER_NS and RACE_INVALID_CASES
abbrev pub race_basetime_jitter_ns : ℕ
race_basetime_jitter_ns = 10000000

abbrev pub race_invalid_cases : ℕ
race_invalid_cases = 8

-- CLOCK_MONOTONIC
abbrev pub clock_monotonic : ℕ
clock_monotonic = 1

module _ (w : Machine) (s : RaceSetup) where
  open w use {mnl, malloc, realloc, socket_buffer, fresh}

  -- memset(&dump, 0, sizeof(dump)); ret = gb_nl_get_action(sock, index, &dump, ...)
  abbrev pub got :
      Option (ℤ × Option GateDump) × Option NlSock → T w s → Option (Result (ℤ × GateDump) × T w s)
  got (none, sock) t = none
  got (some (ret, dump), sock) t = some (
    ok (ret, kept empty_dump dump),
    record t { scene = record t.scene { sock = kept t.scene.sock sock } },
  )

  unfoldable pub get_action : ℕ → Act (T w s) (ℤ × GateDump)
  unfolding gb_nl_get_action
  get_action index t = elim t.scene.worlds [
    | [] ↦ none
    | x ∷ xs ↦
        got
          (gb_nl_get_action mnl malloc realloc socket_buffer fresh (some t.scene.sock) index
            (some empty_dump) x)
          (record t { scene = record t.scene { worlds = xs } })
  ]

  abbrev pub update_base :
      Message mnl.Buf → ℕ → ℕ → ℕ → GateDump → Act (T w s) (ℤ × Message mnl.Buf)
  update_base msg index basetime clockid dump = exchanged mnl msg (λ sock x.
      race_send_basetime_update mnl (some sock) msg true (some s.cfg) index basetime clockid
        dump.entries x)

  -- From the dump on: the code and the message.
  abbrev pub restart : Message mnl.Buf → ℕ → ℤ × GateDump → Act (T w s) (ℤ × Message mnl.Buf)
  restart msg index (ret, dump) =
      if is_neg ret
      then pure (ret, msg)
      else if dump.num_entries == 0
      then pure (neg enoent, msg)
      else if ltb gb_max_entries dump.num_entries
      then pure (neg e2big, msg)
      else (do
        which ← draw 2
        now ← clock_now
        jitter ← draw race_basetime_jitter_ns
        update_base msg index ((now + 1 + jitter) % u64_mod)
            (if which == 0 then clock_tai else clock_monotonic) dump)

  unfoldable pub race_send_timerstart_replace_live :
      Message mnl.Buf → ℕ → Act (T w s) (ℤ × Message mnl.Buf)
  unfolding get_action draw clock_now race_send_basetime_update
  race_send_timerstart_replace_live msg index = get_action index >>= restart msg index

  -- which = ctx->seed++ % RACE_INVALID_CASES
  abbrev pub next_case : Act (T w s) ℕ
  next_case t = some (
    ok (t.ctx.seed % race_invalid_cases),
    record t { ctx = record t.ctx { seed = (t.ctx.seed + 1) % u32_mod } },
  )

  -- switch (which), the cases 0 to 6
  abbrev pub send_wrong :
      ℕ → ℕ → Option NlSock → Message mnl.Buf → World mnl.Buf → Exchanged mnl.Buf (Answer mnl)
  send_wrong which index sock msg x =
      if which == 0
      then race_send_bad_clockid mnl sock msg true index x
      else if which == 1
      then race_send_bad_base_time mnl sock msg true index x
      else if which == 2
      then race_send_bad_cycle_time mnl sock msg true index x
      else if which == 3
      then race_send_invalid_action mnl sock msg true index x
      else if which == 4
      then race_send_invalid_entry_attr mnl sock msg true index x 0
      else if which == 5
      then race_send_invalid_entry_attr mnl sock msg true index x 1
      else race_send_invalid_entry_attr mnl sock msg true index x 2

  -- The same, with the default.
  abbrev pub send_case : ℕ → ℕ → Message mnl.Buf → Act (T w s) (ℤ × Message mnl.Buf)
  send_case which index msg =
      if ltb which 7
      then exchanged mnl msg (λ sock x. some (send_wrong which index (some sock) msg x))
      else race_send_bad_interval mnl msg index

  -- gb_nl_msg_reset(del_msg); the deletion is sent if it is built_with
  abbrev pub delete_again : ℤ × Message mnl.Buf → Act (T w s) (Message mnl.Buf)
  delete_again (ret, del) = if is_neg ret then pure del else (do r ← send_recv mnl del; pure r.1)

  abbrev pub deleted : Message mnl.Buf → ℕ → Act (T w s) (Message mnl.Buf)
  deleted del index =
      built_with mnl del (some (build_gate_delaction mnl (some (cleared mnl del)) index))
      >>= delete_again

  -- A case with something wrong, and the gate it may have made taken away again.
  unfoldable pub invalid_case :
      Message mnl.Buf × Message mnl.Buf → Act (T w s) (Message mnl.Buf × Message mnl.Buf)
  unfolding race_send_bad_clockid race_send_bad_base_time race_send_bad_cycle_time
      race_send_invalid_action race_send_invalid_entry_attr race_send_bad_interval
      build_gate_delaction
  invalid_case (msg, del) = do
    which ← next_case
    let index = (s.index + which) % u32_mod
    r ← send_case which index msg
    record_nl_error_if mnl (is_neg r.0) r.0
    del' ← deleted del index
    pure (r.1, del')

  unfoldable pub live_case :
      Message mnl.Buf × Message mnl.Buf → Act (T w s) (Message mnl.Buf × Message mnl.Buf)
  unfolding race_send_timerstart_replace_live
  live_case (msg, del) = do
    r ← race_send_timerstart_replace_live msg s.live_index
    record_nl_error_if mnl (fails_but w s enoent r.0) r.0
    pure (r.1, del)

  -- Every other round restarts the live gate's timer.
  unfoldable pub invalid_or_live :
      Message mnl.Buf × Message mnl.Buf → Act (T w s) (Message mnl.Buf × Message mnl.Buf)
  unfolding live_case invalid_case
  invalid_or_live msgs t = if t.ctx.ops % 2 == 0 then live_case msgs t else invalid_case msgs t

  unfoldable pub invalid_round :
      Message mnl.Buf × Message mnl.Buf → Act (T w s) (Message mnl.Buf × Message mnl.Buf)
  unfolding race_sync_start race_sync_end invalid_or_live
  invalid_round msgs = do
    race_sync_start
    msgs' ← invalid_or_live msgs
    race_sync_end
    count_op
    pure msgs'

  unfoldable pub race_invalid_thread : Around → T w s → Option (T w s)
  unfolding open_socket while_racing invalid_round gate_msg_capacity
  race_invalid_thread a t = at_out (
      (do
        open_socket mnl malloc a.opening
        msg ← alloc w s (gate_msg_capacity socket_buffer gb_max_entries 0)
        alloc w s socket_buffer
        del ← alloc w s 1024
        while_racing invalid_round a.polls (msg, del))
        t)

  -- The current schedule is sent back with the new base time, unless it cannot be read.
  abbrev pub moved_base : Message mnl.Buf → ℕ → ℤ × GateDump → Act (T w s) (Message mnl.Buf)
  moved_base msg basetime (ret, dump) =
      if is_neg ret then (do record_err_if (not (ret ==ℤ neg enoent)) ret; pure msg) else (do
        u ← update_base msg s.index basetime s.cfg.clockid dump
        record_nl_error_if mnl (fails_but w s enoent u.0) u.0
        pure u.1)

  unfoldable pub basetime_round : Message mnl.Buf → Act (T w s) (Message mnl.Buf)
  unfolding race_sync_start race_sync_end clock_now draw get_action race_send_basetime_update
  basetime_round msg = do
    race_sync_start
    now ← clock_now
    jitter ← draw race_basetime_jitter_ns
    g ← get_action s.index
    msg' ← moved_base msg ((now + (1 + jitter)) % u64_mod) g
    race_sync_end
    count_op
    pure msg'

  unfoldable pub race_basetime_thread : Around → T w s → Option (T w s)
  unfolding open_socket while_racing basetime_round gate_msg_capacity
  race_basetime_thread a t = at_out (
      (do
        open_socket mnl malloc a.opening
        msg ← alloc w s (gate_msg_capacity socket_buffer gb_max_entries 0)
        alloc w s socket_buffer
        while_racing basetime_round a.polls msg)
        t)
