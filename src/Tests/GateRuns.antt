-- ===== src/Tests/GateRuns.antt =====
-- src/gate_msg.c
use Prim.Native.Nat.{bit_or}
use gatebench.Base.{◌≤◌, ◌≡◌, refl, true, false, some, List, [], ◌∷◌, pos, neg, arith}
use gatebench.Mnl.Writing.{header_only}
use gatebench.Gate.Types.{GateShape, GateEntry}
use gatebench.Gate.Numbers.{
  rtm_newaction, rtm_delaction, rtm_getaction, nlm_f_request, nlm_f_ack, nlm_f_root, nlm_f_dump,
  nlm_f_create,
}
use gatebench.Gate.Build.{newaction, delaction, flushaction, getaction_ex, dumpaction}
use gatebench.Gate.Trees.{message, newaction_attrs, in_table, action_attrs, kind_attrs}
use gatebench.Gate.Contents.{newaction_contents, by_index_contents, by_kind_contents}
use gatebench.Gate.Capacity.{gate_msg_capacity, newaction-le-capacity}
use gatebench.Gate.Parse.{gb_nl_gate_parse, empty_dump}
use gatebench.Gate.OptionTrip.{IsRequest, dump_of}
use gatebench.Gate.RoundTrip.{gb_nl_gate_parse-newaction}
use gatebench.Mnl.Tlv.{nil}
use gatebench.Tests.SampleMnl.{sample_mnl}

abbrev pub shape : GateShape
shape = record {
  clockid = 11;
  base_time = 0;
  cycle_time = 2000000;
  cycle_time_ext = 0;
  interval_ns = 1000000;
  entries = 2;
}

abbrev pub entries : List GateEntry
entries =
    record { index = 0; gate_state = true; interval = 1000000; ipv = neg 1; maxoctets = neg 1 }
    ∷ record {
      index = 1;
      gate_state = false;
      interval = 1000000;
      ipv = pos 3;
      maxoctets = pos 1500;
    }
    ∷ []

pub request : IsRequest 7 shape entries 1 (neg 1)
request = record {
  index_u32 = omega arith;
  clockid_u32 = omega arith;
  base_time_u64 = omega arith;
  cycle_time_u64 = omega arith;
  cycle_time_ext_u64 = omega arith;
  flags_u32 = omega arith;
  priority_s32 = omega arith;
  entries_fit = (
    record { interval_u32 = omega arith; ipv_s32 = omega arith; maxoctets_s32 = omega arith },
    (record { interval_u32 = omega arith; ipv_s32 = omega arith; maxoctets_s32 = omega arith }, tt),
  );
  few = omega arith;
}

newaction_contents_example :
    sample_mnl.draft (newaction sample_mnl 7 shape entries 2 nlm_f_create 1 (neg 1) header_only)
    ≡ message rtm_newaction
        (bit_or (bit_or nlm_f_request nlm_f_ack) nlm_f_create)
        (newaction_attrs sample_mnl 7 shape entries 2 1 (neg 1))
newaction_contents_example =
    newaction_contents sample_mnl 7 shape entries 2 nlm_f_create 1 (neg 1) header_only (omega arith)

by_index_contents_example :
    (sample_mnl.draft (delaction sample_mnl 7 header_only)
      ≡ message rtm_delaction
          (bit_or nlm_f_request nlm_f_ack)
          (in_table (action_attrs sample_mnl 7 nil)))
    × (sample_mnl.draft (getaction_ex sample_mnl 7 0 header_only)
        ≡ message rtm_getaction (bit_or nlm_f_request 0) (in_table (action_attrs sample_mnl 7 nil)))
by_index_contents_example = by_index_contents sample_mnl 7 0 header_only

by_kind_contents_example :
    (sample_mnl.draft (flushaction sample_mnl header_only)
      ≡ message rtm_delaction
          (bit_or (bit_or nlm_f_request nlm_f_ack) nlm_f_root)
          (kind_attrs sample_mnl))
    × (sample_mnl.draft (dumpaction sample_mnl header_only)
        ≡ message rtm_getaction (bit_or nlm_f_request nlm_f_dump) (kind_attrs sample_mnl))
by_kind_contents_example = by_kind_contents sample_mnl header_only

newaction-le-capacity_example :
    sample_mnl.nlmsg_len (newaction sample_mnl 7 shape entries 2 nlm_f_create 1 (neg 1) header_only)
    ≤ gate_msg_capacity 8192 2 0
newaction-le-capacity_example =
    newaction-le-capacity sample_mnl 8192 7 shape entries nlm_f_create 1 0 (neg 1) header_only
      (omega arith) (omega arith)

gb_nl_gate_parse-newaction_example :
    gb_nl_gate_parse sample_mnl
      (λ n. true)
      (some (newaction sample_mnl 7 shape entries 2 nlm_f_create 1 (neg 1) header_only))
      (some empty_dump)
    ≡ (pos 0, some (dump_of 7 shape entries 1 (neg 1)))
gb_nl_gate_parse-newaction_example =
    gb_nl_gate_parse-newaction sample_mnl (λ n. true) (λ n. refl) 7 shape entries nlm_f_create 1
      (neg 1) request header_only empty_dump
