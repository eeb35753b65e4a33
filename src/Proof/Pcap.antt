-- ===== src/Proof/Pcap.antt =====
-- The capture of src/proof.c: gb_pcap_start and gb_pcap_stop, with libpcap and without.
use gatebench.Base.{
  Bool, true, false, not, Option, none, some, ℤ, pos, neg, einval, eio, enotsup, if◌then◌else◌,
}
use gatebench.Base.Libc.{Bytes}
use gatebench.Util.{Call, failed, success}

-- Whether libpcap is built in, whether pcap_open_live and pcap_dump_open succeed, and how pthread_create
-- ends.
pub record PcapWorld : Type 0 where
  pub have_pcap : Bool
  pub open_live : Bool
  pub dump_open : Bool
  pub thread : Call Unit

-- struct gb_pcap_ctx: which of its handles are held, and whether its thread runs
pub record Capture : Type 0 where
  pub handle : Bool
  pub dumper : Bool
  pub running : Bool

abbrev pub no_capture : Capture
no_capture = record { handle = false; dumper = false; running = false }

-- Behind the tests of its arguments.
abbrev pub start_capture : PcapWorld → ℤ × Capture
start_capture w =
    if not w.open_live
    then (neg eio, no_capture)
    else if not w.dump_open
    then (neg eio, no_capture)
    else elim w.thread [
      | failed e ↦ (neg e, no_capture)
      | success u ↦ (pos 0, record { handle = true; dumper = true; running = true })
    ]

-- The code and the context; either string is `none` for NULL.
unfoldable pub gb_pcap_start : PcapWorld → Option Bytes → Option Bytes → Capture → ℤ × Capture
gb_pcap_start w none path ctx = if w.have_pcap then (neg einval, ctx) else (neg enotsup, ctx)
gb_pcap_start w (some iface) none ctx =
    if w.have_pcap then (neg einval, ctx) else (neg enotsup, ctx)
gb_pcap_start w (some iface) (some path) ctx =
    if w.have_pcap then start_capture w else (neg enotsup, ctx)

unfoldable pub gb_pcap_stop : PcapWorld → Capture → Capture
gb_pcap_stop w ctx = if w.have_pcap then if ctx.running then no_capture else ctx else ctx
