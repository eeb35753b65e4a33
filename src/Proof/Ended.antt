-- ===== src/Proof/Ended.antt =====
-- How a dump (gb_nl_dump_action of src/nl.c) comes to its end.
use gatebench.Base.{
  ℕ, ◌<◌, ◌≡◌, refl, Bool, true, false, ◌&&◌, Option, none, some, List, [], ◌∷◌, ℤ, pos, neg,
  is_neg, ◌==◌, ◌==ℤ◌, zero, suc, ◌*◌, ◌∙◌, ltb, if◌then◌else◌, Bool-cases, Option-cases, inl, inr,
  ◌⊎◌, All, arith,
}
use gatebench.Mnl.{Mnl}
use gatebench.Gate.Numbers.{rtm_getaction, tca_root_count}
use gatebench.Gate.Parse.{Table, no_attrs}
use gatebench.Nl.{
  NlSock, Arrived, Event, poll_failed, timed_out, recv_failed, datagram, Sending, send_failed, sent,
  nlmsg_error, nlmsg_done, parse_error,
}
use gatebench.Nl.Dump.{
  GbDumpStats, no_stats, nl_attr_cb_copy, count_actions, dump_message, dump_datagram, dump_events,
}
use gatebench.Nl.Exchange.{Message, World, after_send, gb_nl_dump_action}

-- A call that fails sets errno.
abbrev pub SetsErrno : {Buf : Type 0} → Event Buf → Type 0
SetsErrno (poll_failed e) = 0 < e
SetsErrno timed_out = Unit
SetsErrno (recv_failed e) = 0 < e
SetsErrno (datagram hs) = Unit

abbrev pub SendSetsErrno : Sending → Type 0
SendSetsErrno (send_failed e) = 0 < e
SendSetsErrno (sent n) = Unit

abbrev pub IsPlain : {Buf : Type 0} → World Buf → Type 0
IsPlain x = SendSetsErrno x.sending × All SetsErrno x.events

pub neg-is_neg : (e : ℕ) → 0 < e → is_neg (neg e) ≡ true
neg-is_neg zero h = absurd (omega arith)
neg-is_neg (suc e) h = refl

-- NLMSG_DONE and no error, or an error that is not 0.
abbrev pub IsEnded : GbDumpStats → Type 0
IsEnded s =
    ((s.saw_done ≡ true) × (s.saw_error ≡ false))
    ⊎ ((s.saw_error ≡ true) × ((s.error_code ==ℤ pos 0) ≡ false))

abbrev GoesOn : Bool × GbDumpStats → Type 0
GoesOn (true, s) = IsEnded s
GoesOn (false, s) = s.saw_error ≡ false

-- A negative code with no error seen, or the end of the dump.
abbrev pub Comes : Option (ℤ × GbDumpStats) → Type 0
Comes none = Unit
Comes (some (ret, s)) = ((is_neg ret ≡ true) × (s.saw_error ≡ false)) ⊎ IsEnded s

module _ (m : Mnl) where
  count_actions-saw_error :
      (h : Arrived m.Buf) (s : GbDumpStats) → (count_actions m h s).saw_error ≡ s.saw_error
  unfolding count_actions
  count_actions-saw_error h s =
      let r = m.attr_parse Table h.message 4 (nl_attr_cb_copy m) no_attrs in
      elim (Bool-cases (r.0 ==ℤ pos 0)) [
        | inl e ↦ elim (Option-cases (r.1 tca_root_count)) [
          | inl n ↦ rw (count_actions, e) (rw n refl)
          | inr (a, n) ↦ rw (count_actions, e) (rw n refl)
        ]
        | inr e ↦ rw (count_actions, e) refl
      ]

  dump_message-GoesOn :
      (seq : ℕ) (h : Arrived m.Buf) (s : GbDumpStats)
      → s.saw_error ≡ false
      → GoesOn (dump_message m seq h s)
  unfolding dump_message
  dump_message-GoesOn seq h s quiet = elim (Bool-cases (h.nlmsg_seq == seq)) [
    | inr e ↦ rw (dump_message, e) quiet
    | inl e ↦ elim (Bool-cases (h.nlmsg_type == nlmsg_error)) [
      | inl t ↦ elim (Bool-cases (parse_error h ==ℤ pos 0)) [
        | inl z ↦ rw (dump_message, e, t, z) quiet
        | inr z ↦ rw (dump_message, e, t, z) (inr (refl, z))
      ]
      | inr t ↦ elim (Bool-cases (h.nlmsg_type == nlmsg_done)) [
        | inl d ↦ rw (dump_message, e, t, d) (inl (refl, quiet))
        | inr d ↦ elim (Bool-cases (h.nlmsg_type == rtm_getaction)) [
          | inl g ↦ rw (dump_message, e, t, d, g) (count_actions-saw_error h s ∙ quiet)
          | inr g ↦ rw (dump_message, e, t, d, g) quiet
        ]
      ]
    ]
  ]

  dump_datagram-GoesOn :
      (seq : ℕ) (hs : List (Arrived m.Buf)) (s : GbDumpStats)
      → s.saw_error ≡ false
      → GoesOn (dump_datagram m seq hs s)
  unfolding dump_datagram
  dump_datagram-GoesOn seq [] s quiet = quiet
  dump_datagram-GoesOn seq (h ∷ hs) s quiet =
      behind (dump_message m seq h s) (dump_message-GoesOn seq h s quiet)
        (λ s' q. dump_datagram-GoesOn seq hs s' q)
    where
      behind :
          (r : Bool × GbDumpStats)
          → GoesOn r
          → ((s' : GbDumpStats) → s'.saw_error ≡ false → GoesOn (dump_datagram m seq hs s'))
          → GoesOn (if r.0 then (true, r.1) else dump_datagram m seq hs r.1)
      behind (true, s') g k = g
      behind (false, s') g k = k s' g

  dump_events-Comes :
      (seq : ℕ) (events : List (Event m.Buf)) (s : GbDumpStats)
      → All SetsErrno events
      → s.saw_error ≡ false
      → Comes (dump_events m seq events s)
  unfolding dump_events
  dump_events-Comes seq [] s h quiet = tt
  dump_events-Comes seq (poll_failed e ∷ events) s h quiet = inl (neg-is_neg e h.0, quiet)
  dump_events-Comes seq (timed_out ∷ events) s h quiet = inl (refl, quiet)
  dump_events-Comes seq (recv_failed e ∷ events) s h quiet = inl (neg-is_neg e h.0, quiet)
  dump_events-Comes seq (datagram hs ∷ events) s h quiet =
      behind (dump_datagram m seq hs s) (dump_datagram-GoesOn seq hs s quiet)
        (λ s' q. dump_events-Comes seq events s' h.1 q)
    where
      behind :
          (r : Bool × GbDumpStats)
          → GoesOn r
          → ((s' : GbDumpStats) → s'.saw_error ≡ false → Comes (dump_events m seq events s'))
          → Comes (if r.0 then some (pos 0, r.1) else dump_events m seq events r.1)
      behind (true, s') g k = inr g
      behind (false, s') g k = k s' g

  -- The same of the whole call.
  abbrev pub ActionComes : Option (ℤ × Option GbDumpStats) → Type 0
  ActionComes none = Unit
  ActionComes (some (ret, none)) = ⊥
  ActionComes (some (ret, some s)) = Comes (some (ret, s))

  pub gb_nl_dump_action-Comes :
      (malloc : ℕ → Bool) (s : NlSock) (msg : Message m.Buf) (old : GbDumpStats) (x : World m.Buf)
      → IsPlain x
      → ActionComes (gb_nl_dump_action m malloc (some s) (some msg) (some old) x).result
  unfolding gb_nl_dump_action
  gb_nl_dump_action-Comes malloc s msg old x h = elim (Bool-cases (ltb msg.cap msg.len)) [
    | inl e ↦ rw (gb_nl_dump_action, e) (inl (refl, refl))
    | inr e ↦ elim (Bool-cases (malloc 24 && malloc (1024 * 1024))) [
      | inr n ↦ rw (gb_nl_dump_action, e, n) (inl (refl, refl))
      | inl n ↦ rw (gb_nl_dump_action, e, n) (goes x.sending h.0)
    ]
  ]
    where
      events :
          (o : Option (ℤ × GbDumpStats))
          → Comes o
          → ActionComes (elim o [ none ↦ none | some r ↦ some (r.0, some r.1) ])
      events none c = tt
      events (some (ret, st)) c = c

      goes :
          (sending : Sending)
          → SendSetsErrno sending
          → ActionComes (
              after_send m sending msg.len
                (λ e. some (neg e, some no_stats))
                (elim (dump_events m s.seq x.events no_stats) [
                  | none ↦ none
                  | some r ↦ some (r.0, some r.1)
                ]))
      goes (send_failed e) k = inl (neg-is_neg e k, refl)
      goes (sent n) k = elim (Bool-cases (n == msg.len)) [
        | inl q ↦ rw (after_send, q) (events _ (dump_events-Comes s.seq x.events no_stats h.1 refl))
        | inr q ↦ rw (after_send, q) (inl (refl, refl))
      ]
