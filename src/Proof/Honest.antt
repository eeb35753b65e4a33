-- ===== src/Proof/Honest.antt =====
-- What gb_proof_run of src/proof.c answers: its code, its summary and its capture.
use gatebench.Base.{
  ℕ, ◌<◌, ◌≡◌, ◌∙◌, refl, true, false, Option, none, some, List, ℤ, pos, neg, is_neg, is_some, All,
  Bool-cases, inl, inr, ◌⊎◌, enomem,
}
use gatebench.Config.{GbConfig}
use gatebench.Gate.Types.{NlMsg}
use gatebench.Gate.Build.{build_gate_delaction}
use gatebench.Nl.{NlSock}
use gatebench.Nl.Open.{Opening, open_failed, bind_failed, bound, gb_nl_open}
use gatebench.Nl.Exchange.{Message, World}
use gatebench.Bench.Act.{Machine, Result, ok, err, ◌>>=◌, ◌>>◌}
use gatebench.Race.Thread.{to_build, built_msg}
use gatebench.Proof.{
  captured, dumped, stopped, delete_built, taken_away, out_with, code_out, at_start, proved,
  with_socket, gb_proof_run,
}
use gatebench.Proof.Prepare.{GbDumpSummary, cleared_summary, S, ask_kernel, prepared}
use gatebench.Proof.Pcap.{PcapWorld, Capture, no_capture, gb_pcap_stop}
use gatebench.Proof.Ended.{IsPlain, neg-is_neg}
use gatebench.Proof.Fair.{ThreadSetsErrno, Verdict, fails-Verdict, Held, Fair, run-Fair}
use gatebench.Proof.Views.{Leaves, Calm, ask_kernel-Careful}

abbrev pub OpeningSetsErrno : Opening → Type 0
OpeningSetsErrno (open_failed e) = 0 < e
OpeningSetsErrno (bind_failed e) = 0 < e
OpeningSetsErrno (bound port) = Unit

module _ (pcap : PcapWorld) (cfg : GbConfig) where
  -- Behind it: nothing is held.
  abbrev pub Released : GbDumpSummary → Capture → Type 0
  Released s c =
      (c ≡ no_capture)
      × ((s.pcap_enabled ≡ false) ⊎ ((is_some cfg.pcap_path ≡ true) × (pcap.have_pcap ≡ true)))

  abbrev pub IsHonestProof : Option (ℤ × GbDumpSummary × Capture) → Type 0
  IsHonestProof none = Unit
  IsHonestProof (some (ret, s, c)) = Verdict ret s × Released s c

  module _ (w : Machine) where
    open w use {mnl, malloc}

    -- The summary and the capture are those of s, where there is an end.
    abbrev IsReleasing : S w → Option (S w) → Type 0
    IsReleasing s none = Unit
    IsReleasing s (some t) = (t.summary ≡ s.summary) × (t.capture ≡ s.capture)

    abbrev IsHonestEnd : Option (ℤ × S w) → Type 0
    IsHonestEnd none = Unit
    IsHonestEnd (some (ret, s)) = Verdict ret s.summary × Released s.summary s.capture

    stopped-Released :
        (s : S w)
        → Held pcap cfg s.summary s.capture
        → Released s.summary (stopped w pcap s).capture × ((stopped w pcap s).summary ≡ s.summary)
    unfolding gb_pcap_stop
    stopped-Released s (inl (off, c)) = rw (stopped, off) ((c, inl refl), refl)
    stopped-Released s (inr (on, runs, p, have)) =
        rw (stopped, on, gb_pcap_stop, have, runs) ((refl, inr (p, refl)), refl)

    delete_built-Released :
        (r : ℤ × Option (NlMsg mnl.Buf)) (del : Message mnl.Buf) (s : S w)
        → IsReleasing s (delete_built w r del s)
    delete_built-Released (ret, b) del s = elim (Bool-cases (is_neg ret)) [
      | inl e ↦ rw (delete_built, e) (refl, refl)
      | inr e ↦
          rw (delete_built, e)
            (asked (ask_kernel w (built_msg mnl del b) s)
              ((ask_kernel-Careful w (built_msg mnl del b)).leaves s))
    ]
      where
        asked :
            (o : Option (Result (ℤ × Message mnl.Buf) × S w))
            → Leaves (Calm w) s o
            → IsReleasing s (elim o [ none ↦ none | some (r, s') ↦ some s' ])
        asked none l = tt
        asked (some (ok a, t)) l = (l.0, l.1)
        asked (some (err e, t)) l = (l.1.0, l.1.1)

    taken_away-Released :
        (index : ℕ) (del dump : Option (Message mnl.Buf)) (s : S w)
        → IsReleasing s (taken_away w index del dump s)
    unfolding build_gate_delaction
    taken_away-Released index none dump s = (refl, refl)
    taken_away-Released index (some del) none s = (refl, refl)
    taken_away-Released index (some del) (some dump) s =
        delete_built-Released
          (build_gate_delaction mnl (to_build mnl (record del { len = 0 })) index) del s

    out_with-IsHonest :
        (ret : ℤ) (s : S w)
        → Verdict ret s.summary
        → Held pcap cfg s.summary s.capture
        → IsHonestEnd (out_with w pcap cfg.index ret s)
    out_with-IsHonest ret s v h =
        ends
          (taken_away w cfg.index (stopped w pcap s).del (stopped w pcap s).dump (stopped w pcap s))
          (taken_away-Released cfg.index (stopped w pcap s).del (stopped w pcap s).dump
            (stopped w pcap s))
      where
        ends :
            (o : Option (S w))
            → IsReleasing (stopped w pcap s) o
            → IsHonestEnd (elim o [ none ↦ none | some s' ↦ some (ret, s') ])
        ends none k = tt
        ends (some t) k = let r = stopped-Released s h in rw (k.0 ∙ r.1, k.1) (v, r.0)

    code_out-IsHonest :
        (o : Option (Result ℤ × S w))
        → Fair pcap cfg w o
        → IsHonestEnd (code_out w pcap cfg.index o)
    code_out-IsHonest none f = tt
    code_out-IsHonest (some (ok ret, s)) f = out_with-IsHonest ret s f.0 f.1
    code_out-IsHonest (some (err ret, s)) f = out_with-IsHonest ret s f.0 f.1

    module _ (thread_errno : ThreadSetsErrno pcap.thread) where
      with_socket-IsHonest :
          (worlds : List (World mnl.Buf)) (sock : NlSock)
          → All IsPlain worlds
          → IsHonestProof (with_socket w pcap cfg worlds (pos 0, some sock))
      unfolding proved
      with_socket-IsHonest worlds sock plain =
          told
            (code_out w pcap cfg.index (
              (do msg ← prepared w cfg; captured w pcap cfg; dumped w msg)
                (at_start w sock worlds)))
            (code_out-IsHonest _
              (run-Fair pcap cfg w thread_errno (at_start w sock worlds) (refl, refl, plain)))
        where
          told :
              (o : Option (ℤ × S w))
              → IsHonestEnd o
              → IsHonestProof
                  (elim o [ none ↦ none | some (ret', s) ↦ some (ret', s.summary, s.capture) ])
          told none h = tt
          told (some (ret, s)) h = h

      -- Where every call that fails gives the number of an error: a run of the dump proof that comes
      -- back answers 0 only if NLMSG_DONE was seen and no error, answers the code of the error if one
      -- was seen, holds nothing of its capture any more, and says that a capture was on only if one was
      -- asked for and libpcap is there.
      pub gb_proof_run-IsHonest :
          (opening : Opening) (worlds : List (World mnl.Buf))
          → OpeningSetsErrno opening
          → All IsPlain worlds
          → IsHonestProof (gb_proof_run w pcap opening worlds cfg)
      unfolding gb_proof_run gb_nl_open
      gb_proof_run-IsHonest opening worlds h plain = elim (Bool-cases (malloc 16)) [
        | inr e ↦
            rw (gb_nl_open, e)
              (fails-Verdict (neg enomem) cleared_summary refl refl, (refl, inl refl))
        | inl e ↦ rw (gb_nl_open, e) (opens opening h)
      ]
        where
          opens :
              (o : Opening)
              → OpeningSetsErrno o
              → IsHonestProof (
                  with_socket w pcap cfg worlds (elim o [
                    | open_failed e ↦ (neg e, none)
                    | bind_failed e ↦ (neg e, none)
                    | bound port ↦ (pos 0, some (record { pid = port; seq = 1 }))
                  ]))
          opens (open_failed e) k =
              (fails-Verdict (neg e) cleared_summary (neg-is_neg e k) refl, (refl, inl refl))
          opens (bind_failed e) k =
              (fails-Verdict (neg e) cleared_summary (neg-is_neg e k) refl, (refl, inl refl))
          opens (bound port) k = with_socket-IsHonest worlds (record { pid = port; seq = 1 }) plain
