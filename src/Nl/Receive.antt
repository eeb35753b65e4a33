-- ===== src/Nl/Receive.antt =====
-- The loops that wait for an answer: recv_response and recv_ack of src/nl.c. `none` means that the
-- events are used up and the call still waits.
use gatebench.Base.{
  ℕ, Option, none, some, List, [], ◌∷◌, ℤ, pos, neg, ◌==◌, if◌then◌else◌, etimedout,
}
use gatebench.Nl.{
  Arrived, Event, poll_failed, timed_out, recv_failed, datagram, nlmsg_error, nlmsg_done,
  parse_error,
}

module _ {Buf : Type 0} where
  -- The messages of a datagram, until one of them makes the call return.
  unfoldable pub first_answer : (Arrived Buf → Option ℤ) → List (Arrived Buf) → Option ℤ
  first_answer answer [] = none
  first_answer answer (h ∷ hs) = elim (answer h) [
    | none ↦ first_answer answer hs
    | some code ↦ some code
  ]

  -- What an earlier datagram left in resp->buf stays there if no later one arrives.
  abbrev pub or_seen :
      List (Arrived Buf) → Option (ℤ × List (Arrived Buf)) → Option (ℤ × List (Arrived Buf))
  or_seen hs none = none
  or_seen hs (some (code, [])) = some (code, hs)
  or_seen hs (some (code, l ∷ ls)) = some (code, l ∷ ls)

  -- The code and the contents of resp->buf, [] if nothing was received into it.
  unfoldable pub receive :
      (Arrived Buf → Option ℤ) → List (Event Buf) → Option (ℤ × List (Arrived Buf))
  receive answer [] = none
  receive answer (poll_failed e ∷ events) = some (neg e, [])
  receive answer (timed_out ∷ events) = some (neg etimedout, [])
  receive answer (recv_failed e ∷ events) = some (neg e, [])
  receive answer (datagram hs ∷ events) = elim (first_answer answer hs) [
    | none ↦ or_seen hs (receive answer events)
    | some code ↦ some (code, hs)
  ]

  abbrev pub response_of : ℕ → Arrived Buf → Option ℤ
  response_of expected_seq nlh =
      if nlh.nlmsg_seq == expected_seq
      then if nlh.nlmsg_type == nlmsg_error
        then some (parse_error nlh)
        else if nlh.nlmsg_type == nlmsg_done
        then some (pos 0)
        else some (pos 0)
      else none

  abbrev pub ack_of : ℕ → Arrived Buf → Option ℤ
  ack_of expected_seq nlh =
      if nlh.nlmsg_seq == expected_seq
      then if nlh.nlmsg_type == nlmsg_error then some (parse_error nlh) else none
      else none

  unfoldable pub recv_response : ℕ → List (Event Buf) → Option (ℤ × List (Arrived Buf))
  recv_response expected_seq events = receive (response_of expected_seq) events

  unfoldable pub recv_ack : ℕ → List (Event Buf) → Option (ℤ × List (Arrived Buf))
  recv_ack expected_seq events = receive (ack_of expected_seq) events
