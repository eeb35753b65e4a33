-- ===== src/Proof.antt =====
-- The dump proof (src/proof.c): a gate is made and dumped, and what the dump says is kept, with a
-- capture of the messages if one is asked for.
pub mod Pcap
pub mod Prepare
pub mod Views
pub mod Ended
pub mod Fair
pub mod Honest
use gatebench.Base.{ℕ, true, Option, none, some, List, [], ◌∷◌, ℤ, is_neg, is_some, if◌then◌else◌}
use gatebench.Config.{GbConfig}
use gatebench.Gate.Types.{NlMsg}
use gatebench.Gate.Build.{build_gate_delaction}
use gatebench.Nl.{NlSock}
use gatebench.Nl.Open.{Opening, gb_nl_open}
use gatebench.Nl.Dump.{GbDumpStats, no_stats}
use gatebench.Nl.Exchange.{Message, World, Exchanged, gb_nl_dump_action}
use gatebench.Bench.Act.{Machine, Result, ok, err, Act, ◌>>=◌, ◌>>◌, kept}
use gatebench.Race.Thread.{to_build, built_msg}
use gatebench.Proof.Pcap.{PcapWorld, Capture, no_capture, gb_pcap_start, gb_pcap_stop}
use gatebench.Proof.Prepare.{GbDumpSummary, cleared_summary, S, ask_kernel, prepared}

-- The summary gets the statistics; an error of the dump is the result.
abbrev pub with_stats : GbDumpSummary → GbDumpStats → GbDumpSummary
with_stats summary stats = record summary {
  reply_msgs = stats.reply_msgs;
  payload_bytes = stats.payload_bytes;
  saw_done = stats.saw_done;
  saw_error = stats.saw_error;
  error_code = stats.error_code;
}

abbrev pub result_of_dump : ℤ → GbDumpSummary → ℤ
result_of_dump ret summary = if summary.saw_error then summary.error_code else ret

module _ (w : Machine) where
  open w use {mnl, malloc}

  -- What gb_pcap_start leaves, noted in the summary.
  abbrev pub started_capture : ℤ × Capture → Act (S w) (Unit {0})
  started_capture (ret, capture) s =
      if is_neg ret
      then some
          (err ret, record s { capture = capture; summary = record s.summary { pcap_error = ret } })
      else some (
        ok tt,
        record s { capture = capture; summary = record s.summary { pcap_enabled = true } },
      )

  -- if (cfg->pcap_path) { ... }
  abbrev pub captured : PcapWorld → GbConfig → Act (S w) (Unit {0})
  captured pcap cfg s =
      if is_some cfg.pcap_path
      then started_capture (gb_pcap_start pcap cfg.nlmon_iface cfg.pcap_path s.capture) s
      else some (ok tt, s)

  abbrev pub dump_done :
      Message mnl.Buf
      → Exchanged mnl.Buf (Option (ℤ × Option GbDumpStats))
      → S w
      → Option (Result ℤ × S w)
  dump_done msg x s = elim x.result [
    | none ↦ none
    | some (ret, stats) ↦
        let summary = with_stats s.summary (kept no_stats stats) in
        some (
          ok (result_of_dump ret summary),
          record s {
            scene = record s.scene { sock = kept s.scene.sock x.sock };
            dump = some (record msg { buf = kept msg.buf x.request });
            summary = summary;
          },
        )
  ]

  unfoldable pub dumped : Message mnl.Buf → Act (S w) ℤ
  unfolding gb_nl_dump_action
  dumped msg s = elim s.scene.worlds [
    | [] ↦ none
    | x ∷ xs ↦
        dump_done msg
          (gb_nl_dump_action mnl malloc (some s.scene.sock) (some msg) (some no_stats) x)
          (record s { scene = record s.scene { worlds = xs } })
  ]

  -- if (summary->pcap_enabled) gb_pcap_stop(&pcap_ctx);
  abbrev pub stopped : PcapWorld → S w → S w
  stopped pcap s =
      if s.summary.pcap_enabled then record s { capture = gb_pcap_stop pcap s.capture } else s

  -- The gate is taken away again if the two messages are there; the result does not matter.
  abbrev pub delete_built : ℤ × Option (NlMsg mnl.Buf) → Message mnl.Buf → S w → Option (S w)
  delete_built (ret, b) del s =
      if is_neg ret
      then some s
      else elim (ask_kernel w (built_msg mnl del b) s) [ none ↦ none | some (r, s') ↦ some s' ]

  abbrev pub taken_away :
      ℕ → Option (Message mnl.Buf) → Option (Message mnl.Buf) → S w → Option (S w)
  taken_away index (some del) (some dump) s =
      delete_built (build_gate_delaction mnl (to_build mnl (record del { len = 0 })) index) del s
  taken_away index del dump s = some s

  -- The label `out`: the code and what is left.
  abbrev pub out_with : PcapWorld → ℕ → ℤ → S w → Option (ℤ × S w)
  out_with pcap index ret s =
      elim (taken_away index (stopped pcap s).del (stopped pcap s).dump (stopped pcap s)) [
        | none ↦ none
        | some s' ↦ some (ret, s')
      ]

  abbrev pub code_out : PcapWorld → ℕ → Option (Result ℤ × S w) → Option (ℤ × S w)
  code_out pcap index none = none
  code_out pcap index (some (ok ret, s)) = out_with pcap index ret s
  code_out pcap index (some (err ret, s)) = out_with pcap index ret s

  abbrev pub at_start : NlSock → List (World mnl.Buf) → S w
  at_start sock worlds = record {
    scene = record { sock = sock; worlds = worlds; clocks = [] };
    del = none;
    dump = none;
    summary = cleared_summary;
    capture = no_capture;
  }

  -- With a socket.
  unfoldable pub proved : PcapWorld → GbConfig → S w → Option (ℤ × S w)
  unfolding prepared dumped
  proved pcap cfg s =
      code_out pcap cfg.index ((do msg ← prepared w cfg; captured pcap cfg; dumped msg) s)

  abbrev pub with_socket :
      PcapWorld
      → GbConfig
      → List (World mnl.Buf)
      → ℤ × Option NlSock
      → Option (ℤ × GbDumpSummary × Capture)
  with_socket pcap cfg worlds (ret, none) = some (ret, cleared_summary, no_capture)
  with_socket pcap cfg worlds (ret, some sock) = elim (proved pcap cfg (at_start sock worlds)) [
    | none ↦ none
    | some (ret', s) ↦ some (ret', s.summary, s.capture)
  ]

  -- The code, the summary, and what is still held for the capture. The pointers are not NULL, as main
  -- passes them; `none` is a call that still waits.
  unfoldable pub gb_proof_run :
      PcapWorld → Opening → List (World mnl.Buf) → GbConfig → Option (ℤ × GbDumpSummary × Capture)
  unfolding gb_nl_open proved
  gb_proof_run pcap opening worlds cfg =
      with_socket pcap cfg worlds (gb_nl_open malloc opening true)
