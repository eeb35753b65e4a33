-- ===== src/Proof/Fair.antt =====
-- What gb_proof_run of src/proof.c has got when it comes to its label `out`.
use gatebench.Base.{
  ◌<◌, ◌≡◌, ◌∙◌, refl, Bool, true, false, Option, none, some, List, [], ◌∷◌, ℤ, pos, neg, negsuc,
  is_neg, ◌==ℤ◌, is_some, if◌then◌else◌, All, Bool-cases, inl, inr, ◌⊎◌, enotsup,
}
use gatebench.Base.Libc.{Bytes}
use gatebench.Config.{GbConfig}
use gatebench.Nl.Dump.{GbDumpStats, no_stats}
use gatebench.Nl.Exchange.{Message, World, Exchanged, gb_nl_dump_action}
use gatebench.Util.{Call, failed, success}
use gatebench.Bench.Act.{Machine, Result, ok, err, then_act, ◌>>=◌, ◌>>◌}
use gatebench.Proof.{started_capture, captured, with_stats, result_of_dump, dump_done, dumped}
use gatebench.Proof.Prepare.{GbDumpSummary, cleared_summary, S, prepared}
use gatebench.Proof.Pcap.{PcapWorld, Capture, no_capture, start_capture, gb_pcap_start}
use gatebench.Proof.Ended.{IsPlain, neg-is_neg, Comes, ActionComes, gb_nl_dump_action-Comes}
use gatebench.Proof.Views.{Leaves, Calm, prepared-Careful}

-- pthread_create and the calls for the socket give the number of an error.
abbrev pub ThreadSetsErrno : Call Unit → Type 0
ThreadSetsErrno (failed e) = 0 < e
ThreadSetsErrno (success u) = Unit

-- A dump to its end or a code that is not 0, and the code is that of the error if one was seen.
abbrev pub Verdict : ℤ → GbDumpSummary → Type 0
Verdict ret s =
    (((s.saw_done ≡ true) × (s.saw_error ≡ false)) ⊎ ((ret ==ℤ pos 0) ≡ false))
    × ((s.saw_error ≡ false) ⊎ (ret ≡ s.error_code))

is_neg-nonzero : (ret : ℤ) → is_neg ret ≡ true → (ret ==ℤ pos 0) ≡ false
is_neg-nonzero (pos n) h = cc
is_neg-nonzero (negsuc n) h = refl

pub fails-Verdict :
    (ret : ℤ) (s : GbDumpSummary) → is_neg ret ≡ true → s.saw_error ≡ false → Verdict ret s
fails-Verdict ret s n q = (inr (is_neg-nonzero ret n), inl q)

with_stats-Verdict :
    (ret : ℤ) (s : GbDumpSummary) (st : GbDumpStats)
    → Comes (some (ret, st))
    → Verdict (result_of_dump ret (with_stats s st)) (with_stats s st)
with_stats-Verdict ret s st (inl (n, q)) =
    rw (result_of_dump, with_stats, q) (inr (is_neg-nonzero ret n), inl refl)
with_stats-Verdict ret s st (inr (inl (d, q))) =
    rw (result_of_dump, with_stats, q) (inl (d, refl), inl refl)
with_stats-Verdict ret s st (inr (inr (q, z))) =
    rw (result_of_dump, with_stats, q) (inr z, inr refl)

module _ (pcap : PcapWorld) (cfg : GbConfig) where
  -- Before `out`: nothing is captured, or a capture runs that was asked for.
  abbrev pub Held : GbDumpSummary → Capture → Type 0
  Held s c =
      ((s.pcap_enabled ≡ false) × (c ≡ no_capture))
      ⊎ ((s.pcap_enabled ≡ true)
          × (c.running ≡ true)
          × (is_some cfg.pcap_path ≡ true)
          × (pcap.have_pcap ≡ true))

  abbrev Started : ℤ × Capture → Type 0
  Started (ret, c) =
      ((is_neg ret ≡ true) × (c ≡ no_capture))
      ⊎ ((is_neg ret ≡ false) × (c.running ≡ true) × (pcap.have_pcap ≡ true))

  start_capture-Started :
      ThreadSetsErrno pcap.thread → pcap.have_pcap ≡ true → Started (start_capture pcap)
  start_capture-Started h p = elim (Bool-cases pcap.open_live) [
    | inr e ↦ rw (start_capture, e) (inl (refl, refl))
    | inl e ↦ elim (Bool-cases pcap.dump_open) [
      | inr d ↦ rw (start_capture, e, d) (inl (refl, refl))
      | inl d ↦ rw (start_capture, e, d) (threads pcap.thread h)
    ]
  ]
    where
      threads :
          (t : Call Unit)
          → ThreadSetsErrno t
          → Started (elim t [
            | failed e ↦ (neg e, no_capture)
            | success u ↦ (pos 0, record { handle = true; dumper = true; running = true })
          ])
      threads (failed e) k = inl (neg-is_neg e k, refl)
      threads (success u) k = inr (refl, refl, p)

  gb_pcap_start-Started :
      (iface path : Option Bytes)
      → ThreadSetsErrno pcap.thread
      → Started (gb_pcap_start pcap iface path no_capture)
  unfolding gb_pcap_start
  gb_pcap_start-Started none path h = elim (Bool-cases pcap.have_pcap) [
    | inr e ↦ rw (gb_pcap_start, e) (inl (refl, refl))
    | inl e ↦ rw (gb_pcap_start, e) (inl (refl, refl))
  ]
  gb_pcap_start-Started (some i) none h = elim (Bool-cases pcap.have_pcap) [
    | inr e ↦ rw (gb_pcap_start, e) (inl (refl, refl))
    | inl e ↦ rw (gb_pcap_start, e) (inl (refl, refl))
  ]
  gb_pcap_start-Started (some i) (some p) h = built_in pcap.have_pcap refl
    where
      built_in :
          (have : Bool)
          → pcap.have_pcap ≡ have
          → Started (if have then start_capture pcap else (neg enotsup, no_capture))
      built_in true e = start_capture-Started h e
      built_in false e = inl (refl, refl)

  module _ (w : Machine) where
    open w use {mnl, malloc}

    abbrev pub Fair : Option (Result ℤ × S w) → Type 0
    Fair none = Unit
    Fair (some (ok ret, s)) = Verdict ret s.summary × Held s.summary s.capture
    Fair (some (err ret, s)) = Verdict ret s.summary × Held s.summary s.capture

    -- What holds up to the capture.
    abbrev pub Before : S w → Type 0
    Before s = (s.summary ≡ cleared_summary) × (s.capture ≡ no_capture) × All IsPlain s.scene.worlds

    dump_done-Fair :
        (msg : Message mnl.Buf) (x : Exchanged mnl.Buf (Option (ℤ × Option GbDumpStats))) (s : S w)
        → ActionComes mnl x.result
        → Held s.summary s.capture
        → Fair (dump_done w msg x s)
    dump_done-Fair msg x s = done x.result
      where
        done :
            (r : Option (ℤ × Option GbDumpStats))
            → ActionComes mnl r
            → Held s.summary s.capture
            → Fair (dump_done w msg (record x { result = r }) s)
        done none c h = tt
        done (some (ret, none)) c h = absurd c
        done (some (ret, some st)) c h = (with_stats-Verdict ret s.summary st c, h)

    dumped-Fair :
        (msg : Message mnl.Buf) (s : S w)
        → All IsPlain s.scene.worlds
        → Held s.summary s.capture
        → Fair (dumped w msg s)
    unfolding dumped
    dumped-Fair msg s plain held = each s.scene.worlds plain
      where
        each :
            (ws : List (World mnl.Buf))
            → All IsPlain ws
            → Fair (elim ws [
              | [] ↦ none
              | x ∷ xs ↦
                  dump_done w msg
                    (gb_nl_dump_action mnl malloc (some s.scene.sock) (some msg) (some no_stats) x)
                    (record s { scene = record s.scene { worlds = xs } })
            ])
        each [] p = tt
        each (x ∷ xs) p =
            dump_done-Fair msg
              (gb_nl_dump_action mnl malloc (some s.scene.sock) (some msg) (some no_stats) x)
              (record s { scene = record s.scene { worlds = xs } })
              (gb_nl_dump_action-Comes mnl malloc s.scene.sock msg no_stats x p.0) held

    fails-Fair : (ret : ℤ) (s : S w) → is_neg ret ≡ true → Before s → Fair (some (err ret, s))
    fails-Fair ret s n b = (fails-Verdict ret s.summary n (rw (b.0) refl), inl (rw (b.0) refl, b.1))

    started_capture-Fair :
        (r : ℤ × Capture) (msg : Message mnl.Buf) (s : S w)
        → Started r
        → is_some cfg.pcap_path ≡ true
        → Before s
        → Fair (then_act (started_capture w r s) λ u. dumped w msg)
    started_capture-Fair (ret, c) msg s (inl (n, e)) p b =
        rw (started_capture, n)
          (
            fails-Verdict ret (record s.summary { pcap_error = ret }) n (rw (b.0) refl),
            inl (rw (b.0) refl, e),
          )
    started_capture-Fair (ret, c) msg s (inr (n, r, have)) p b =
        rw (started_capture, n)
          (dumped-Fair msg
            (record s { capture = c; summary = record s.summary { pcap_enabled = true } }) b.2
            (inr (refl, r, p, have)))

    module _ (thread_errno : ThreadSetsErrno pcap.thread) where
      captured-Fair :
          (msg : Message mnl.Buf) (s : S w)
          → Before s
          → Fair ((captured w pcap cfg >> dumped w msg) s)
      captured-Fair msg s b = elim (Bool-cases (is_some cfg.pcap_path)) [
        | inr e ↦ rw (captured, e) (dumped-Fair msg s b.2 (inl (rw (b.0) refl, b.1)))
        | inl e ↦
            rw (captured, e)
              (started_capture-Fair (gb_pcap_start pcap cfg.nlmon_iface cfg.pcap_path s.capture) msg
                s (rw (b.1) (gb_pcap_start-Started cfg.nlmon_iface cfg.pcap_path thread_errno)) e b)
      ]

      pub run-Fair :
          (s : S w)
          → Before s
          → Fair ((do msg ← prepared w cfg; captured w pcap cfg; dumped w msg) s)
      run-Fair s b = goes (prepared w cfg s) ((prepared-Careful w cfg).leaves s)
        where
          moved : (t : S w) → Calm w s t → Before t
          moved t c = (c.0 ∙ b.0, c.1 ∙ b.1, c.2 b.2)

          goes :
              (o : Option (Result (Message mnl.Buf) × S w))
              → Leaves (Calm w) s o
              → Fair (then_act o λ msg. captured w pcap cfg >> dumped w msg)
          goes none l = tt
          goes (some (ok msg, t)) l = captured-Fair msg t (moved t l)
          goes (some (err e, t)) l = fails-Fair e t l.0 (moved t l.1)
