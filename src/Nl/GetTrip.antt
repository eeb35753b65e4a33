-- ===== src/Nl/GetTrip.antt =====
-- From the request of gb_nl_get_action to the dump of the gate in the kernel's answer.
use gatebench.Base.{
  ℕ, ◌≡◌, ◌≢◌, ◌+◌, ◌%◌, refl, Bool, true, false, some, List, [], ◌∷◌, ◌++◌, map, length, All, ℤ,
  pos, arith, u32_mod, ◌==◌,
}
use gatebench.Mnl.{Mnl}
use gatebench.Gate.Types.{GateShape, GateEntry, GateDump}
use gatebench.Gate.Trees.{numbered_message, newaction_attrs}
use gatebench.Gate.Build.{build_gate_getaction, build_gate_getaction_ex}
use gatebench.Gate.Capacity.{by_index_length}
use gatebench.Gate.OptionTrip.{IsRequest, dump_of}
use gatebench.Gate.RoundTrip.{gb_nl_gate_parse-tree}
use gatebench.Nl.{NlSock, Arrived, Event, datagram, sent, nlmsg_error}
use gatebench.Nl.Exchange.{gb_nl_send_recv}
use gatebench.Nl.Get.{gb_nl_get_action}
use gatebench.Nl.First.{IsOther, recv_response-first}

ne_false : {a b : ℕ} → a ≢ b → (a == b) ≡ false
ne_false t = ground arith

module _ (m : Mnl) where
  -- When memory suffices, the request goes out whole and, after any datagrams of other sequence
  -- numbers, a datagram starts with a message of the socket's sequence number that is no NLMSG_ERROR and
  -- holds the attributes of a gate of at most 2000 entries whose values fit their types,
  -- gb_nl_get_action returns 0 with exactly that gate in the dump and leaves the socket at the next
  -- sequence number.
  pub gb_nl_get_action-answer :
      (malloc realloc : ℕ → Bool) (mnl_size : ℕ) (fresh : m.Buf) (s : NlSock) (asked : ℕ)
      (old : GateDump) (stale : List (List (Arrived m.Buf))) (h : Arrived m.Buf)
      (after : List (Arrived m.Buf)) (rest : List (Event m.Buf)) (index : ℕ) (shape : GateShape)
      (es : List GateEntry) (gate_flags : ℕ) (priority : ℤ) (flags : ℕ)
      → ((n : ℕ) → malloc n ≡ true)
      → ((n : ℕ) → realloc n ≡ true)
      → IsRequest index shape es gate_flags priority
      → All (All (IsOther s.seq)) stale
      → h.nlmsg_seq ≡ s.seq
      → h.nlmsg_type ≢ nlmsg_error
      → m.draft h.message
        ≡ numbered_message h.nlmsg_seq h.nlmsg_type flags
            (newaction_attrs m index shape es (length es) gate_flags priority)
      → gb_nl_get_action m malloc realloc mnl_size fresh
          (some s)
          asked
          (some old)
          (record { sending = sent 48; events = map datagram stale ++ datagram (h ∷ after) ∷ rest })
        ≡ (
          some (pos 0, some (dump_of index shape es gate_flags priority)),
          some (record s { seq = (s.seq + 1) % u32_mod }),
        )
  unfolding gb_nl_get_action gb_nl_send_recv build_gate_getaction build_gate_getaction_ex
  gb_nl_get_action-answer malloc realloc mnl_size fresh s asked old stale h after rest index shape
        es gate_flags priority flags g r q other e t d =
      rw
        (
          gb_nl_get_action,
          g 24,
          g 1024,
          g 24,
          g mnl_size,
          gb_nl_send_recv,
          (by_index_length m asked 0 fresh).1,
          recv_response-first s.seq stale [] after h rest other tt e,
          ne_false t,
          gb_nl_gate_parse-tree m realloc r index shape es gate_flags priority q h.message
              h.nlmsg_seq h.nlmsg_type flags old d,
        )
        refl
