-- ===== src/Nl/First.antt =====
-- What arrives before the answer does not matter.
use gatebench.Base.{
  ℕ, ◌≡◌, ◌≢◌, ◌⊎◌, inl, inr, refl, Option, none, some, List, [], ◌∷◌, ◌++◌, map, ℤ, pos, ◌==◌,
  if◌then◌else◌, All, All-map, arith,
}
use gatebench.Nl.{Arrived, Event, datagram, nlmsg_error, parse_error}
use gatebench.Nl.Receive.{
  or_seen, first_answer, receive, response_of, ack_of, recv_response, recv_ack,
}

module _ {Buf : Type 0} (answer : Arrived Buf → Option ℤ) where
  abbrev IsSilent : Arrived Buf → Type 0
  IsSilent h = answer h ≡ none

  first_answer-silent : (hs : List (Arrived Buf)) → All IsSilent hs → first_answer answer hs ≡ none
  unfolding first_answer
  first_answer-silent [] s = refl
  first_answer-silent (h ∷ hs) s = rw (first_answer, s.0) (first_answer-silent hs s.1)

  first_answer-skip :
      (before after : List (Arrived Buf)) (h : Arrived Buf) (code : ℤ)
      → All IsSilent before
      → answer h ≡ some code
      → first_answer answer (before ++ h ∷ after) ≡ some code
  unfolding first_answer
  first_answer-skip [] after h code s e = rw (first_answer, e) refl
  first_answer-skip (b ∷ before) after h code s e =
      rw (first_answer, s.0) (first_answer-skip before after h code s.1 e)

  or_seen-found :
      (d before after : List (Arrived Buf)) (h : Arrived Buf) (code : ℤ)
      → or_seen d (some (code, before ++ h ∷ after)) ≡ some (code, before ++ h ∷ after)
  or_seen-found d [] after h code = refl
  or_seen-found d (b ∷ before) after h code = refl

  receive-skip :
      (stale : List (List (Arrived Buf))) (before after : List (Arrived Buf)) (h : Arrived Buf)
      (rest : List (Event Buf)) (code : ℤ)
      → All (All IsSilent) stale
      → All IsSilent before
      → answer h ≡ some code
      → receive answer (map datagram stale ++ datagram (before ++ h ∷ after) ∷ rest)
        ≡ some (code, before ++ h ∷ after)
  unfolding receive
  receive-skip [] before after h rest code s p e =
      rw (receive, first_answer-skip before after h code p e) refl
  receive-skip (d ∷ stale) before after h rest code s p e =
      rw (receive, first_answer-silent d s.0, receive-skip stale before after h rest code s.1 p e)
        (or_seen-found d before after h code)

module _ {Buf : Type 0} (seq : ℕ) where
  abbrev pub IsOther : Arrived Buf → Type 0
  IsOther h = h.nlmsg_seq ≢ seq

  abbrev pub IsNoAck : Arrived Buf → Type 0
  IsNoAck h = h.nlmsg_seq ≢ seq ⊎ h.nlmsg_type ≢ nlmsg_error

  other-IsSilent : (h : Arrived Buf) → IsOther h → IsSilent (response_of seq) h
  other-IsSilent h o = ground arith

  no_ack-IsSilent : (h : Arrived Buf) → IsNoAck h → IsSilent (ack_of seq) h
  no_ack-IsSilent h (inl o) = ground arith
  no_ack-IsSilent h (inr o) = ground arith

  -- Whatever datagrams of other sequence numbers arrive before, and whatever stands around it, the
  -- first message with the expected sequence number decides recv_response: an NLMSG_ERROR by its
  -- error (or -EPROTO if it is cut short), any other type by 0.
  pub recv_response-first :
      (stale : List (List (Arrived Buf))) (before after : List (Arrived Buf)) (h : Arrived Buf)
      (rest : List (Event Buf))
      → All (All IsOther) stale
      → All IsOther before
      → h.nlmsg_seq ≡ seq
      → recv_response seq (map datagram stale ++ datagram (before ++ h ∷ after) ∷ rest)
        ≡ some (if h.nlmsg_type == nlmsg_error then parse_error h else pos 0, before ++ h ∷ after)
  unfolding recv_response
  recv_response-first stale before after h rest s p e =
      receive-skip (response_of seq) stale before after h rest _
        (All-map stale (λ d. All-map d other-IsSilent) s) (All-map before other-IsSilent p)
        (ground arith)

  -- Whatever arrives before that is no NLMSG_ERROR of the expected sequence number, data messages of
  -- that number included, recv_ack returns the code of the first such NLMSG_ERROR.
  pub recv_ack-first :
      (stale : List (List (Arrived Buf))) (before after : List (Arrived Buf)) (h : Arrived Buf)
      (rest : List (Event Buf))
      → All (All IsNoAck) stale
      → All IsNoAck before
      → h.nlmsg_seq ≡ seq
      → h.nlmsg_type ≡ nlmsg_error
      → recv_ack seq (map datagram stale ++ datagram (before ++ h ∷ after) ∷ rest)
        ≡ some (parse_error h, before ++ h ∷ after)
  unfolding recv_ack
  recv_ack-first stale before after h rest s p e t =
      receive-skip (ack_of seq) stale before after h rest _
        (All-map stale (λ d. All-map d no_ack-IsSilent) s) (All-map before no_ack-IsSilent p)
        (ground arith)
