-- ===== src/Nl/Exchange.antt =====
-- A request and its answer: gb_nl_send_recv, gb_nl_send_recv_ack, gb_nl_dump_action and
-- gb_nl_get_action of src/nl.c. Each call returns `none` while it still waits.
use gatebench.Base.{
  ℕ, ◌*◌, Bool, not, ◌&&◌, Option, none, some, List, [], ℤ, neg, ◌==◌, ltb, if◌then◌else◌, einval,
  enomem, eio,
}
use gatebench.Mnl.{Mnl}
use gatebench.Nl.{NlSock, Arrived, Event, Sending, send_failed, sent, gb_nl_next_seq}
use gatebench.Nl.Receive.{recv_response, recv_ack}
use gatebench.Nl.Dump.{GbDumpStats, no_stats, dump_events}

-- struct gb_nl_msg with its buffer: gb_nl_msg_alloc gives none without one.
pub record Message (Buf : Type 0) : Type 0 where
  pub buf : Buf
  pub cap : ℕ
  pub len : ℕ

-- What a call leaves: its result, the socket, and the buffer of the request.
pub record Exchanged (Buf R : Type 0) : Type 0 where
  pub result : R
  pub sock : Option NlSock
  pub request : Option Buf

-- What happens outside: how the send ends, and what arrives.
pub record World (Buf : Type 0) : Type 0 where
  pub sending : Sending
  pub events : List (Event Buf)

-- malloc twice: the struct and its buffer of that capacity, which holds `fresh`.
abbrev pub gb_nl_msg_alloc : {Buf : Type 0} → (ℕ → Bool) → Buf → ℕ → Option (Message Buf)
gb_nl_msg_alloc malloc fresh capacity =
    if not (malloc 24)
    then none
    else if not (malloc capacity)
    then none
    else some (record { buf = fresh; cap = capacity; len = 0 })

abbrev pub gb_nl_msg_reset : {Buf : Type 0} → Option (Message Buf) → Option (Message Buf)
gb_nl_msg_reset none = none
gb_nl_msg_reset (some msg) = some (record msg { len = 0 })

module _ (m : Mnl) where
  open m use {Buf}

  abbrev pub Answer : Type 0
  Answer = Option (ℤ × List (Arrived Buf))

  abbrev pub failed : ℕ → Answer
  failed e = some (neg e, [])

  -- mnl_socket_sendto and the tests of its result; then the answer is awaited.
  abbrev pub after_send : {R : Type 0} → Sending → ℕ → (ℕ → R) → R → R
  after_send (send_failed e) len fail await = fail e
  after_send (sent n) len fail await = if not (n == len) then fail eio else await

  -- The common course of the calls: the sequence number is taken and stored in the request.
  abbrev pub with_seq :
      {R : Type 0} → NlSock → Message Buf → Sending → (ℕ → R) → (ℕ → R) → Exchanged Buf R
  with_seq s req sending fail await =
      let (seq, sock') = gb_nl_next_seq (some s) in
      record {
        result = after_send sending req.len fail (await seq);
        sock = sock';
        request = some (m.set_nlmsg_seq req.buf seq);
      }

  abbrev pub request_buf : Option (Message Buf) → Option Buf
  request_buf none = none
  request_buf (some req) = some req.buf

  -- if (!sock || !req || !resp) return -EINVAL; if (req->len > req->cap) return -EINVAL;
  abbrev pub exchange :
      {R : Type 0}
      → Option NlSock
      → Option (Message Buf)
      → Bool
      → (ℕ → R)
      → (NlSock → Message Buf → Exchanged Buf R)
      → Exchanged Buf R
  exchange none req has_resp fail go = record {
    result = fail einval;
    sock = none;
    request = request_buf req;
  }
  exchange (some s) none has_resp fail go = record {
    result = fail einval;
    sock = some s;
    request = none;
  }
  exchange (some s) (some req) has_resp fail go =
      if not has_resp
      then record { result = fail einval; sock = some s; request = some req.buf }
      else if ltb req.cap req.len
      then record { result = fail einval; sock = some s; request = some req.buf }
      else go s req

  unfoldable pub gb_nl_send_recv :
      Option NlSock → Option (Message Buf) → Bool → World Buf → Exchanged Buf Answer
  unfolding recv_response
  gb_nl_send_recv sock req has_resp world =
      exchange sock req has_resp failed
        (λ s r. with_seq s r world.sending failed (λ seq. recv_response seq world.events))

  unfoldable pub gb_nl_send_recv_ack :
      Option NlSock → Option (Message Buf) → Bool → World Buf → Exchanged Buf Answer
  unfolding recv_ack
  gb_nl_send_recv_ack sock req has_resp world =
      exchange sock req has_resp failed
        (λ s r. with_seq s r world.sending failed (λ seq. recv_ack seq world.events))

  -- The statistics are cleared behind the first tests; without them nothing is written.
  unfoldable pub gb_nl_dump_action :
      (ℕ → Bool)
      → Option NlSock
      → Option (Message Buf)
      → Option GbDumpStats
      → World Buf
      → Exchanged Buf (Option (ℤ × Option GbDumpStats))
  unfolding dump_events
  gb_nl_dump_action malloc none req stats world = record {
    result = some (neg einval, stats);
    sock = none;
    request = request_buf req;
  }
  gb_nl_dump_action malloc (some s) none stats world = record {
    result = some (neg einval, stats);
    sock = some s;
    request = none;
  }
  gb_nl_dump_action malloc (some s) (some req) none world = record {
    result = some (neg einval, none);
    sock = some s;
    request = some req.buf;
  }
  gb_nl_dump_action malloc (some s) (some req) (some stats) world =
      if ltb req.cap req.len
      then record {
        result = some (neg einval, some no_stats);
        sock = some s;
        request = some req.buf;
      }
      else if not (malloc 24 && malloc (1024 * 1024))
      then record {
        result = some (neg enomem, some no_stats);
        sock = some s;
        request = some req.buf;
      }
      else with_seq s req world.sending (λ e. some (neg e, some no_stats))
          (λ seq. elim (dump_events m seq world.events no_stats) [
            | none ↦ none
            | some r ↦ some (r.0, some r.1)
          ])
