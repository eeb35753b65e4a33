-- ===== src/Nl/Dump.antt =====
-- gb_nl_dump_action of src/nl.c: the replies of a dump are counted until it ends.
use gatebench.Base.{
  ℕ, not, ◌+◌, ◌-◌, ◌%◌, Bool, true, false, Option, none, some, List, [], ◌∷◌, ℤ, pos, neg, ◌==◌,
  ◌==ℤ◌, leb, if◌then◌else◌, etimedout, u32_mod, u64_mod,
}
use gatebench.Mnl.{Mnl}
use gatebench.Mnl.Tlv.{Attr, cb_ok}
use gatebench.Gate.Numbers.{tca_root_max, tca_root_count, rtm_getaction}
use gatebench.Gate.Parse.{Table, no_attrs, put_at}
use gatebench.Nl.{
  Arrived, Event, poll_failed, timed_out, recv_failed, datagram, nlmsg_error, nlmsg_done,
  nlmsg_hdrlen, parse_error,
}

-- struct gb_dump_stats
pub record GbDumpStats : Type 0 where
  pub reply_msgs : ℕ
  pub payload_bytes : ℕ
  pub action_count : ℕ
  pub saw_done : Bool
  pub saw_error : Bool
  pub error_code : ℤ

-- memset(stats, 0, sizeof(*stats))
abbrev pub no_stats : GbDumpStats
no_stats = record {
  reply_msgs = 0;
  payload_bytes = 0;
  action_count = 0;
  saw_done = false;
  saw_error = false;
  error_code = pos 0;
}

module _ (m : Mnl) where
  open m use {Buf}

  unfoldable pub nl_attr_cb_copy : Attr → Table → ℤ × Table
  nl_attr_cb_copy attr tb =
      let type = m.attr_get_type attr in
      if leb type tca_root_max then (cb_ok, put_at type attr tb) else (cb_ok, tb)

  -- mnl_attr_parse(nlh, sizeof(struct tcamsg), nl_attr_cb_copy, tb) == 0 && tb[TCA_ROOT_COUNT]
  unfoldable pub count_actions : Arrived Buf → GbDumpStats → GbDumpStats
  unfolding nl_attr_cb_copy
  count_actions nlh stats =
      let (ret, tb) = m.attr_parse Table nlh.message 4 nl_attr_cb_copy no_attrs in
      if ret ==ℤ pos 0
      then elim (tb tca_root_count) [
        | none ↦ stats
        | some a ↦ record stats { action_count = (stats.action_count + m.attr_get_u32 a) % u32_mod }
      ]
      else stats

  -- stats->reply_msgs++ and the payload behind the header
  abbrev pub count_message : Arrived Buf → GbDumpStats → GbDumpStats
  count_message nlh stats = record stats {
    reply_msgs = (stats.reply_msgs + 1) % u32_mod;
    payload_bytes =
        if leb nlmsg_hdrlen nlh.nlmsg_len
        then (stats.payload_bytes + (nlh.nlmsg_len - nlmsg_hdrlen)) % u64_mod
        else stats.payload_bytes;
  }

  -- One message: the statistics after it, and whether the call returns.
  unfoldable pub dump_message : ℕ → Arrived Buf → GbDumpStats → Bool × GbDumpStats
  unfolding count_actions
  dump_message seq nlh stats =
      if not (nlh.nlmsg_seq == seq)
      then (false, stats)
      else if nlh.nlmsg_type == nlmsg_error
      then if parse_error nlh ==ℤ pos 0
        then (false, stats)
        else (true, record stats { saw_error = true; error_code = parse_error nlh })
      else if nlh.nlmsg_type == nlmsg_done
      then (true, record stats { saw_done = true })
      else if nlh.nlmsg_type == rtm_getaction
      then (false, count_message nlh (count_actions nlh stats))
      else (false, count_message nlh stats)

  unfoldable pub dump_datagram : ℕ → List (Arrived Buf) → GbDumpStats → Bool × GbDumpStats
  unfolding dump_message
  dump_datagram seq [] stats = (false, stats)
  dump_datagram seq (h ∷ hs) stats =
      let (returns, stats') = dump_message seq h stats in
      if returns then (true, stats') else dump_datagram seq hs stats'

  unfoldable pub dump_events : ℕ → List (Event Buf) → GbDumpStats → Option (ℤ × GbDumpStats)
  unfolding dump_datagram
  dump_events seq [] stats = none
  dump_events seq (poll_failed e ∷ events) stats = some (neg e, stats)
  dump_events seq (timed_out ∷ events) stats = some (neg etimedout, stats)
  dump_events seq (recv_failed e ∷ events) stats = some (neg e, stats)
  dump_events seq (datagram hs ∷ events) stats =
      let (returns, stats') = dump_datagram seq hs stats in
      if returns then some (pos 0, stats') else dump_events seq events stats'
