-- ===== src/Tests/NlRuns.antt =====
-- src/nl.c
use gatebench.Base.{ℕ, ◌≡◌, inl, inr, refl, true, some, List, [], ◌∷◌, ℤ, pos, neg, arith}
use gatebench.Mnl.Writing.{Draft, header_only}
use gatebench.Gate.Trees.{numbered_message, newaction_attrs}
use gatebench.Gate.Parse.{empty_dump}
use gatebench.Gate.OptionTrip.{dump_of}
use gatebench.Nl.{Arrived, datagram, sent}
use gatebench.Nl.Receive.{recv_response, recv_ack}
use gatebench.Nl.First.{recv_response-first, recv_ack-first}
use gatebench.Nl.Dump.{no_stats, dump_events}
use gatebench.Nl.Totals.{dump_events_totals}
use gatebench.Nl.Get.{gb_nl_get_action}
use gatebench.Nl.GetTrip.{gb_nl_get_action-answer}
use gatebench.Tests.SampleMnl.{sample_mnl}
use gatebench.Tests.GateRuns.{shape, entries, request}

abbrev reply : ℕ → ℕ → ℤ → Arrived Draft
reply type seq error = record {
  nlmsg_len = 36;
  nlmsg_type = type;
  nlmsg_seq = seq;
  error = error;
  message = record header_only { extra = 4; nlmsg_type = type; nlmsg_seq = seq };
}

abbrev described : Arrived Draft
described = record {
  nlmsg_len = 200;
  nlmsg_type = 48;
  nlmsg_seq = 5;
  error = pos 0;
  message = numbered_message 5 48 0 (newaction_attrs sample_mnl 7 shape entries 2 1 (neg 1));
}

abbrev stale : List (List (Arrived Draft))
stale = (reply 2 4 (neg 2) ∷ []) ∷ []

recv_response-first_example :
    recv_response 5 (
      datagram (reply 2 4 (neg 2) ∷ [])
      ∷ datagram (reply 3 4 (pos 0) ∷ reply 2 5 (neg 17) ∷ [])
      ∷ [])
    ≡ some (neg 17, reply 3 4 (pos 0) ∷ reply 2 5 (neg 17) ∷ [])
recv_response-first_example =
    recv_response-first 5 stale (reply 3 4 (pos 0) ∷ []) [] (reply 2 5 (neg 17)) []
      ((omega arith, tt), tt) (omega arith, tt) refl

recv_ack-first_example :
    recv_ack 5 (
      datagram (reply 2 4 (neg 2) ∷ [])
      ∷ datagram (reply 48 5 (pos 0) ∷ reply 2 5 (neg 17) ∷ [])
      ∷ [])
    ≡ some (neg 17, reply 48 5 (pos 0) ∷ reply 2 5 (neg 17) ∷ [])
recv_ack-first_example =
    recv_ack-first 5 stale (reply 48 5 (pos 0) ∷ []) [] (reply 2 5 (neg 17)) []
      ((inl (omega arith), tt), tt) (inr (omega arith), tt) refl refl

-- An NLMSG_ERROR with code 0, as the kernel acknowledges a request; it bears no struct tcamsg.
abbrev ack : Arrived Draft
ack = record (reply 2 5 (pos 0)) { message = record header_only { nlmsg_type = 2; nlmsg_seq = 5 } }

dump_events_totals_example :
    dump_events sample_mnl 5
      (datagram (reply 2 4 (neg 2) ∷ [])
        ∷ datagram (ack ∷ reply 50 5 (pos 0) ∷ reply 3 5 (pos 0) ∷ [])
        ∷ [])
      no_stats
    ≡ some (pos 0, record no_stats { reply_msgs = 1; payload_bytes = 20; saw_done = true })
dump_events_totals_example =
    dump_events_totals sample_mnl 5 stale (ack ∷ reply 50 5 (pos 0) ∷ []) [] (reply 3 5 (pos 0)) []
      (((inl refl, refl), tt), tt) ((inl refl, refl), ((inr (refl, refl), refl), tt)) refl refl

gb_nl_get_action-answer_example :
    gb_nl_get_action sample_mnl
      (λ n. true)
      (λ n. true)
      8192
      header_only
      (some (record { pid = 1; seq = 5 }))
      7
      (some empty_dump)
      (record {
        sending = sent 48;
        events = datagram (reply 2 4 (neg 2) ∷ []) ∷ datagram (described ∷ []) ∷ [];
      })
    ≡ (some (pos 0, some (dump_of 7 shape entries 1 (neg 1))), some (record { pid = 1; seq = 6 }))
gb_nl_get_action-answer_example =
    gb_nl_get_action-answer sample_mnl (λ n. true) (λ n. true) 8192 header_only
      (record { pid = 1; seq = 5 }) 7 empty_dump stale described [] [] 7 shape entries 1 (neg 1) 0
      (λ n. refl) (λ n. refl) request ((omega arith, tt), tt) refl (omega arith) refl
