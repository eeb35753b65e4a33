-- ===== src/Race/Thread.antt =====
-- What a worker thread of src/race.c works with: its context, its socket, the answer in its buffer and
-- the calls by which it keeps step with its partner; and the calls that its loop makes. usleep and
-- sched_yield, which change nothing here, are left out.
use gatebench.Base.{
  ℕ, ◌+◌, ◌%◌, Bool, true, false, not, ◌&&◌, Option, none, some, List, [], ◌∷◌, ℤ, neg, is_neg,
  u64_mod, if◌then◌else◌, enomem,
}
use gatebench.Mnl.{Mnl}
use gatebench.Gate.Types.{GateEntry, NlMsg}
use gatebench.Nl.{NlSock, Arrived}
use gatebench.Nl.Open.{Opening, gb_nl_open}
use gatebench.Nl.Exchange.{Message, World, Exchanged, Answer, gb_nl_send_recv}
use gatebench.Bench.Act.{Result, ok, err, Act, Scene, then_act, kept, pure, raise, ◌>>◌}
use gatebench.Util.{Call, failed, success, Timespec}
use gatebench.Race.{rng_range, race_record_err, race_fill_entries}
use gatebench.Race.Extack.{ExtackStats, race_record_nl_error}
use gatebench.Race.Cpus.{race_clock_now_ns}
use gatebench.Race.Pairs.{Seat}

-- The calls of tst_fuzzy_sync.h for a pair: on side A or B a race is entered or left, and the exit flag
-- is set.
pub data SyncCall : Type 0 where
  started : ℕ → Bool → SyncCall
  ended : ℕ → Bool → SyncCall
  signalled : ℕ → SyncCall

-- What the structs gb_race_*_ctx hold and the threads change, and sync_pair with sync_is_a. A worker
-- whose struct lacks a field leaves it alone.
pub record WorkerCtx : Type 0 where
  pub seat : Seat
  pub seed : ℕ
  pub ops : ℕ
  pub errors : ℕ
  pub err_counts : List ℕ
  pub extack : ExtackStats

-- `resp` is the first message in resp->buf, `log` has the latest call first.
pub record Thread (Buf : Type 0) : Type 0 where
  pub ctx : WorkerCtx
  pub scene : Scene Buf
  pub resp : Arrived Buf
  pub log : List SyncCall

-- pair->exit; `exit` is what the flag holds, if there is a pair
abbrev pub race_sync_exit_requested : Seat → Bool → Bool
race_sync_exit_requested none exit = false
race_sync_exit_requested (some (k, is_a)) exit = exit

-- The first reading, and the second if that fails.
abbrev pub clock_read : List (Call Timespec) → Option (ℕ × List (Call Timespec))
clock_read [] = none
clock_read (success now ∷ cs) = some (race_clock_now_ns (success now) (success now), cs)
clock_read (failed e ∷ []) = none
clock_read (failed e ∷ c ∷ cs) = some (race_clock_now_ns (failed e) c, cs)

module _ {Buf : Type 0} where
  abbrev pub note : SyncCall → Thread Buf → Thread Buf
  note c t = record t { log = c ∷ t.log }

  abbrev pub signal_exit : Seat → Thread Buf → Thread Buf
  signal_exit none t = t
  signal_exit (some (k, is_a)) t = note (signalled k) t

  abbrev pub enter : Seat → Thread Buf → Thread Buf
  enter none t = t
  enter (some (k, is_a)) t = note (started k is_a) t

  abbrev pub leave : Seat → Thread Buf → Thread Buf
  leave none t = t
  leave (some (k, is_a)) t = note (ended k is_a) t

  unfoldable pub race_sync_signal_exit : Thread Buf → Thread Buf
  race_sync_signal_exit t = signal_exit t.ctx.seat t

  unfoldable pub race_sync_start : Act (Thread Buf) (Unit {0})
  race_sync_start t = some (ok tt, enter t.ctx.seat t)

  unfoldable pub race_sync_end : Act (Thread Buf) (Unit {0})
  race_sync_end t = some (ok tt, leave t.ctx.seat t)

  -- ctx->ops++
  abbrev pub count_op : Act (Thread Buf) (Unit {0})
  count_op t = some (ok tt, record t { ctx = record t.ctx { ops = (t.ctx.ops + 1) % u64_mod } })

  -- race_record_err(&ctx->errors, ctx->err_counts, ret)
  unfoldable pub record_err : ℤ → Act (Thread Buf) (Unit {0})
  unfolding race_record_err
  record_err ret t =
      let (errors, counts) = race_record_err (some t.ctx.errors) (some t.ctx.err_counts) ret in
      some (
        ok tt,
        record t {
          ctx = record t.ctx {
            errors = kept t.ctx.errors errors;
            err_counts = kept t.ctx.err_counts counts;
          };
        },
      )

  -- if (c) race_record_err(...)
  abbrev pub record_err_if : Bool → ℤ → Act (Thread Buf) (Unit {0})
  record_err_if c ret = if c then record_err ret else pure tt

  -- race_record_err(...); goto out;
  abbrev pub give_up : {A : Type 0} → ℤ → Act (Thread Buf) A
  give_up ret = do record_err ret; raise ret

  -- ... = gb_nl_msg_alloc(...); if it is NULL: goto out with -ENOMEM
  abbrev pub or_out : {A : Type 0} → Option A → Act (Thread Buf) A
  or_out none = give_up (neg enomem)
  or_out (some a) = pure a

  -- x = rng_range(&ctx->seed, max)
  unfoldable pub draw : ℕ → Act (Thread Buf) ℕ
  unfolding rng_range
  draw max t =
      let (x, seed) = rng_range t.ctx.seed max in
      some (ok x, record t { ctx = record t.ctx { seed = seed } })

  -- The code of a call that returns early or at its leave.
  abbrev pub caught : Option (Result ℤ × Thread Buf) → Option (Result ℤ × Thread Buf)
  caught none = none
  caught (some (ok ret, t)) = some (ok ret, t)
  caught (some (err ret, t)) = some (ok ret, t)

  -- now = race_clock_now_ns(clockid)
  unfoldable pub clock_now : Act (Thread Buf) ℕ
  unfolding race_clock_now_ns
  clock_now t = elim (clock_read t.scene.clocks) [
    | none ↦ none
    | some (now, cs) ↦ some (ok now, record t { scene = record t.scene { clocks = cs } })
  ]

  -- count = race_fill_entries(entries, max_entries, interval_max, &ctx->seed); a write outside the
  -- array is `none`.
  unfoldable pub fill : List GateEntry → ℕ → ℕ → Act (Thread Buf) (ℕ × List GateEntry)
  unfolding race_fill_entries
  fill entries max_entries interval_max t =
      elim (race_fill_entries entries max_entries interval_max t.ctx.seed) [
        | none ↦ none
        | some (count, es, seed) ↦
            some (ok (count, es), record t { ctx = record t.ctx { seed = seed } })
      ]

  -- while (!stop && !race_sync_exit_requested(ctx->sync_pair)): what the flags hold each time is
  -- given, and `none` is a loop that still runs.
  unfoldable pub while_racing :
      {A : Type 0} → (A → Act (Thread Buf) A) → List (Bool × Bool) → A → Act (Thread Buf) A
  while_racing body [] a t = none
  while_racing body ((stop, exit) ∷ polls) a t =
      let round = then_act (body a t) (while_racing body polls) in
      if not stop && not (race_sync_exit_requested t.ctx.seat exit) then round else some (ok a, t)

  -- The label `out`, from where it is reached or the leave of the loop.
  abbrev pub at_out : {A : Type 0} → Option (Result A × Thread Buf) → Option (Thread Buf)
  at_out none = none
  at_out (some (r, t)) = some (race_sync_signal_exit t)

module _ (m : Mnl) where
  open m use {Buf}

  abbrev pub first_or : Arrived Buf → List (Arrived Buf) → Arrived Buf
  first_or old [] = old
  first_or old (h ∷ hs) = h

  -- What an exchange leaves: its code, the request, the socket and the buffer of the answer.
  abbrev pub returned :
      Message Buf
      → Exchanged Buf (Answer m)
      → Thread Buf
      → Option (Result (ℤ × Message Buf) × Thread Buf)
  returned msg x t = elim x.result [
    | none ↦ none
    | some (ret, datagram) ↦ some (
      ok (ret, record msg { buf = kept msg.buf x.request }),
      record t {
        scene = record t.scene { sock = kept t.scene.sock x.sock };
        resp = first_or t.resp datagram;
      },
    )
  ]

  -- An exchange with what happens next outside; `none` is an access outside an array.
  unfoldable pub exchanged :
      Message Buf
      → (NlSock → World Buf → Option (Exchanged Buf (Answer m)))
      → Act (Thread Buf) (ℤ × Message Buf)
  exchanged msg call t = elim t.scene.worlds [
    | [] ↦ none
    | w ∷ ws ↦ elim (call t.scene.sock w) [
      | none ↦ none
      | some x ↦ returned msg x (record t { scene = record t.scene { worlds = ws } })
    ]
  ]

  -- ret = gb_nl_send_recv(sock, msg, resp, ctx->timeout_ms)
  abbrev pub send_recv : Message Buf → Act (Thread Buf) (ℤ × Message Buf)
  send_recv msg = exchanged msg (λ s w. some (gb_nl_send_recv m (some s) (some msg) true w))

  -- race_record_nl_error(&ctx->errors, ctx->err_counts, &ctx->extack, ret, resp)
  unfoldable pub record_nl_error : ℤ → Act (Thread Buf) (Unit {0})
  unfolding race_record_nl_error
  record_nl_error ret t =
      let (errors, counts, extack) =
        race_record_nl_error m (some t.ctx.errors) (some t.ctx.err_counts) (some t.ctx.extack) ret
          (some t.resp) in
      some (
        ok tt,
        record t {
          ctx = record t.ctx {
            errors = kept t.ctx.errors errors;
            err_counts = kept t.ctx.err_counts counts;
            extack = kept t.ctx.extack extack;
          };
        },
      )

  -- if (c) race_record_nl_error(...)
  abbrev pub record_nl_error_if : Bool → ℤ → Act (Thread Buf) (Unit {0})
  record_nl_error_if c ret = if c then record_nl_error ret else pure tt

  -- What a builder of src/gate_msg.c leaves: its code and the message.
  abbrev pub to_build : Message Buf → Option (NlMsg Buf)
  to_build msg = some (record { buf = some msg.buf; cap = msg.cap; len = msg.len })

  abbrev pub built_msg : Message Buf → Option (NlMsg Buf) → Message Buf
  built_msg msg none = msg
  built_msg msg (some b) = record { buf = kept msg.buf b.buf; cap = b.cap; len = b.len }

  abbrev pub built_with :
      Message Buf → Option (ℤ × Option (NlMsg Buf)) → Act (Thread Buf) (ℤ × Message Buf)
  built_with msg none t = none
  built_with msg (some (ret, b)) t = some (ok (ret, built_msg msg b), t)

  abbrev pub opened : ℤ × Option NlSock → Act (Thread Buf) (Unit {0})
  opened (ret, sock) t =
      if is_neg ret
      then give_up ret t
      else some (ok tt, record t { scene = record t.scene { sock = kept t.scene.sock sock } })

  -- ret = gb_nl_open(&sock); if (ret < 0) { race_record_err(...); goto out; }
  unfoldable pub open_socket : (ℕ → Bool) → Opening → Act (Thread Buf) (Unit {0})
  unfolding gb_nl_open
  open_socket malloc opening = opened (gb_nl_open malloc opening true)
