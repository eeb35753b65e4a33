-- ===== src/Nl/Get.antt =====
-- gb_nl_get_action of src/nl.c: one gate is asked for by its index and read.
use gatebench.Base.{
  ℕ, true, Bool, Option, none, some, List, [], ◌∷◌, ℤ, neg, is_neg, if◌then◌else◌, enomem,
}
use gatebench.Mnl.{Mnl}
use gatebench.Gate.Types.{GateDump, NlMsg}
use gatebench.Gate.Build.{build_gate_getaction}
use gatebench.Gate.Parse.{gb_nl_gate_parse}
use gatebench.Nl.{NlSock, Arrived}
use gatebench.Nl.Exchange.{World, gb_nl_msg_alloc, gb_nl_send_recv, Answer}

module _ (m : Mnl) where
  open m use {Buf}

  -- Result, dump and socket of the call.
  abbrev pub Got : Type 0
  Got = Option (ℤ × Option GateDump) × Option NlSock

  -- gb_nl_gate_parse((struct nlmsghdr*)resp->buf, dump): the first message of the datagram
  abbrev pub parse_first :
      (ℕ → Bool) → List (Arrived Buf) → Option GateDump → Option (ℤ × Option GateDump)
  parse_first realloc [] dump = none
  parse_first realloc (h ∷ hs) dump = some (gb_nl_gate_parse m realloc (some h.message) dump)

  abbrev pub read_answer : (ℕ → Bool) → Option GateDump → Answer m → Option (ℤ × Option GateDump)
  read_answer realloc dump none = none
  read_answer realloc dump (some (ret, datagram)) =
      if is_neg ret then some (ret, dump) else parse_first realloc datagram dump

  abbrev pub ask :
      (ℕ → Bool) → Option NlSock → ℤ × Option (NlMsg Buf) → Option GateDump → World Buf → Got
  ask realloc sock (ret, none) dump world = (some (ret, dump), sock)
  ask realloc sock (ret, some msg) dump world =
      if is_neg ret then (some (ret, dump), sock) else elim msg.buf [
        | none ↦ (some (ret, dump), sock)
        | some b ↦
            let x =
              gb_nl_send_recv m sock (some (record { buf = b; cap = msg.cap; len = msg.len })) true
                world in
            (read_answer realloc dump x.result, x.sock)
      ]

  -- `fresh` is what malloc leaves in the buffer; mnl_size is MNL_SOCKET_BUFFER_SIZE.
  unfoldable pub gb_nl_get_action :
      (ℕ → Bool) → (ℕ → Bool) → ℕ → Buf → Option NlSock → ℕ → Option GateDump → World Buf → Got
  unfolding gb_nl_send_recv
  gb_nl_get_action malloc realloc mnl_size fresh sock index dump world =
      elim (gb_nl_msg_alloc malloc fresh 1024) [
        | none ↦ (some (neg enomem, dump), sock)
        | some req ↦ elim (gb_nl_msg_alloc malloc fresh mnl_size) [
          | none ↦ (some (neg enomem, dump), sock)
          | some resp ↦
              ask realloc sock
                (build_gate_getaction m
                  (some (record { buf = some req.buf; cap = req.cap; len = req.len })) index)
                dump world
        ]
      ]
