-- ===== src/Proof/Prepare.antt =====
-- gb_proof_run of src/proof.c up to its capture: the gate is made, and the dump request is built.
use Prim.Native.Nat.{bit_or}
use gatebench.Base.{
  ℕ, Bool, false, Option, none, some, List, [], ◌∷◌, ℤ, pos, neg, is_neg, is_some, ltb, enomem,
  enoent, if◌then◌else◌,
}
use gatebench.Config.{GbConfig, gb_max_entries}
use gatebench.Gate.Types.{NlMsg}
use gatebench.Gate.Numbers.{nlm_f_create, nlm_f_excl, nlm_f_dump}
use gatebench.Gate.Build.{build_gate_newaction, build_gate_delaction, build_gate_getaction_ex}
use gatebench.Gate.Capacity.{gate_msg_capacity}
use gatebench.Nl.{Arrived}
use gatebench.Nl.Exchange.{Message, Exchanged, Answer, gb_nl_msg_alloc, gb_nl_send_recv}
use gatebench.Bench.Act.{Machine, Scene, Result, ok, err, Act, pure, ◌>>=◌, ◌>>◌, raise_if, kept}
use gatebench.Bench.Run.{refused_but, entries_of, shape_of}
use gatebench.Race.Thread.{to_build, built_msg}
use gatebench.Proof.Pcap.{Capture}

-- struct gb_dump_summary
pub record GbDumpSummary : Type 0 where
  pub reply_msgs : ℕ
  pub payload_bytes : ℕ
  pub saw_done : Bool
  pub saw_error : Bool
  pub error_code : ℤ
  pub pcap_enabled : Bool
  pub pcap_error : ℤ

-- memset(summary, 0, sizeof(*summary))
abbrev pub cleared_summary : GbDumpSummary
cleared_summary = record {
  reply_msgs = 0;
  payload_bytes = 0;
  saw_done = false;
  saw_error = false;
  error_code = pos 0;
  pcap_enabled = false;
  pcap_error = pos 0;
}

-- The variables of gb_proof_run. `dump` is also the buffer of the answers.
pub record Proving (Buf : Type 0) : Type 0 where
  pub scene : Scene Buf
  pub del : Option (Message Buf)
  pub dump : Option (Message Buf)
  pub summary : GbDumpSummary
  pub capture : Capture

module _ (w : Machine) where
  open w use {mnl, malloc, socket_buffer, fresh}

  abbrev pub S : Type 0
  S = Proving mnl.Buf

  -- What the benchmark does with its socket alone.
  abbrev pub scene_returned :
      {A : Type 0} → S → Option (Result A × Scene mnl.Buf) → Option (Result A × S)
  scene_returned s none = none
  scene_returned s (some (r, sc)) = some (r, record s { scene = sc })

  abbrev pub on_scene : {A : Type 0} → Act (Scene mnl.Buf) A → Act S A
  on_scene x s = scene_returned s (x s.scene)

  -- The answer is received into the buffer of the dump request.
  abbrev pub answered : Option (Message mnl.Buf) → List (Arrived mnl.Buf) → Option (Message mnl.Buf)
  answered none hs = none
  answered (some msg) [] = some msg
  answered (some msg) (h ∷ hs) = some (record msg { buf = h.message })

  abbrev pub replied :
      Message mnl.Buf
      → Exchanged mnl.Buf (Answer mnl)
      → S
      → Option (Result (ℤ × Message mnl.Buf) × S)
  replied msg x s = elim x.result [
    | none ↦ none
    | some (ret, datagram) ↦ some (
      ok (ret, record msg { buf = kept msg.buf x.request }),
      record s {
        scene = record s.scene { sock = kept s.scene.sock x.sock };
        dump = answered s.dump datagram;
      },
    )
  ]

  -- ret = gb_nl_send_recv(sock, msg, dump_msg, cfg->timeout_ms)
  unfoldable pub ask_kernel : Message mnl.Buf → Act S (ℤ × Message mnl.Buf)
  unfolding gb_nl_send_recv
  ask_kernel msg s = elim s.scene.worlds [
    | [] ↦ none
    | x ∷ xs ↦
        replied msg (gb_nl_send_recv mnl (some s.scene.sock) (some msg) (is_some s.dump) x)
          (record s { scene = record s.scene { worlds = xs } })
  ]

  -- if (ret < 0) goto out;
  abbrev pub built_or_out :
      Message mnl.Buf → Option (ℤ × Option (NlMsg mnl.Buf)) → Act S (Message mnl.Buf)
  built_or_out msg none s = none
  built_or_out msg (some (ret, b)) s =
      if is_neg ret then some (err ret, s) else some (ok (built_msg mnl msg b), s)

  -- The three messages, or -ENOMEM if one of them is missing.
  abbrev pub all_three :
      Option (Message mnl.Buf)
      → Option (Message mnl.Buf)
      → Option (Message mnl.Buf)
      → Act S (Message mnl.Buf × Message mnl.Buf)
  all_three (some create) (some del) (some dump) s = some (ok (create, del), s)
  all_three create del dump s = some (err (neg enomem), s)

  abbrev pub allocated : ℕ → Act S (Message mnl.Buf × Message mnl.Buf)
  allocated create_cap s =
      let create = gb_nl_msg_alloc malloc fresh create_cap in
      let del = gb_nl_msg_alloc malloc fresh 1024 in
      let dump = gb_nl_msg_alloc malloc fresh 1024 in
      all_three create del dump (record s { del = del; dump = dump })

  -- del_msg, dump_msg and create_msg keep what was made of them.
  abbrev pub keep_del : Message mnl.Buf → Act S (Unit {0})
  keep_del msg s = some (ok tt, record s { del = some msg })

  abbrev pub keep_dump : Message mnl.Buf → Act S (Unit {0})
  keep_dump msg s = some (ok tt, record s { dump = some msg })

  -- gb_nl_msg_reset(dump_msg); ret = build_gate_getaction_ex(dump_msg, cfg->index, NLM_F_DUMP);
  abbrev pub dump_request : ℕ → Option (Message mnl.Buf) → Act S (Message mnl.Buf)
  dump_request index none s = none
  dump_request index (some msg) s =
      built_or_out msg
        (some
          (build_gate_getaction_ex mnl (to_build mnl (record msg { len = 0 })) index nlm_f_dump))
        s

  abbrev pub request_dump : ℕ → Act S (Message mnl.Buf)
  request_dump index s = dump_request index s.dump s

  abbrev pub proof_entries : GbConfig → ℕ
  proof_entries cfg = if ltb gb_max_entries cfg.entries then gb_max_entries else cfg.entries

  -- Up to the request of the dump.
  unfoldable pub prepared : GbConfig → Act S (Message mnl.Buf)
  unfolding ask_kernel build_gate_newaction build_gate_delaction build_gate_getaction_ex
      gate_msg_capacity
  prepared cfg =
      let count = proof_entries cfg in
      do
        es ← on_scene (entries_of w count cfg)
        two ← allocated (gate_msg_capacity socket_buffer count 0)
        del ← built_or_out two.1 (some (build_gate_delaction mnl (to_build mnl two.1) cfg.index))
        d ← ask_kernel del
        keep_del d.1
        raise_if (refused_but enoent d.0) d.0
        create ← built_or_out two.0 (
            build_gate_newaction mnl (to_build mnl two.0) cfg.index (some (shape_of w cfg count)) es
              count (bit_or nlm_f_create nlm_f_excl) 0 (neg 1))
        c ← ask_kernel create
        raise_if (is_neg c.0) c.0
        msg ← request_dump cfg.index
        keep_dump msg
        pure msg
