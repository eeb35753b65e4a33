-- ===== src/Tests/FlushRuns.antt =====
-- gb_nl_send_recv_flush of src/nl.c
use gatebench.Base.{ℕ, ◌≡◌, ◌-◌, refl, ◌&&◌, leb, true, some, List, [], ◌∷◌, ℤ, pos, neg}
use gatebench.Mnl.Tlv.{nest, nil, one, each_from}
use gatebench.Mnl.Writing.{Draft, header_only}
use gatebench.Gate.Parse.{no_attrs, put_at}
use gatebench.Nl.{Arrived, datagram, sent}
use gatebench.Nl.Dump.{nl_attr_cb_copy}
use gatebench.Nl.Flush.{Met, MetNest, Walk, gb_nl_send_recv_flush}
use gatebench.Nl.Flushed.{HasNest, gb_nl_send_recv_flush-count}
use gatebench.Tests.SampleMnl.{sample_mnl}

-- An attribute of a nest, 8 bytes long.
abbrev met : ℕ → ℕ → Met
met type v = record { nla_len = 8; nla_type = type; u32 = v }

-- A nest of two attributes that fills its table.
abbrev with_inside : List Met → MetNest
with_inside inside = record { nla_len = 20; nla_type = 0; inside = inside }

abbrev walk : List Met → Walk
walk inside = record {
  attr_ok = λ nla_len len. leb 4 nla_len && leb nla_len len;
  payload_len = λ nla_len. nla_len - 4;
  tab_len = λ a. 20;
  payload = λ a. with_inside inside ∷ [];
}

abbrev reply : ℕ → ℕ → ℤ → Arrived Draft
reply type seq error = record {
  nlmsg_len = 44;
  nlmsg_type = type;
  nlmsg_seq = seq;
  error = error;
  message = record header_only { extra = 4; body = one (nest 1 nil) };
}

reply-HasNest :
    (inside : List Met) → HasNest (walk inside) sample_mnl (reply 49 5 (pos 0)) (with_inside inside)
unfolding nl_attr_cb_copy each_from
reply-HasNest inside = record {
  ret = pos 1;
  tb = put_at 1 (nest 1 nil) no_attrs;
  tab = nest 1 nil;
  later = [];
  tb_parsed = refl;
  fine = refl;
  there = refl;
  small = refl;
  first = refl;
  nest = (refl, refl, refl);
}

abbrev seven : List Met
seven = met 1 0 ∷ met 6 7 ∷ []

gb_nl_send_recv_flush-count_example :
    (gb_nl_send_recv_flush
      (walk seven)
      sample_mnl
      (some (record { pid = 1; seq = 5 }))
      (some (record { buf = header_only; cap = 1024; len = 40 }))
      true
      (some 0)
      (record {
        sending = sent 40;
        events =
            datagram (reply 2 4 (neg 2) ∷ [])
            ∷ datagram (reply 49 5 (pos 0) ∷ reply 2 5 (pos 0) ∷ [])
            ∷ [];
      })).result
    ≡ some (pos 0, some 7)
gb_nl_send_recv_flush-count_example =
    gb_nl_send_recv_flush-count (walk seven) sample_mnl (record { pid = 1; seq = 5 })
      (record { buf = header_only; cap = 1024; len = 40 }) 0 40 ((reply 2 4 (neg 2) ∷ []) ∷ [])
      (reply 49 5 (pos 0)) (reply 2 5 (pos 0)) [] [] (with_inside seven) (met 1 0 ∷ []) (met 6 7) []
      refl refl ((refl, tt), tt) refl refl refl refl (reply-HasNest seven) refl ((refl, refl), tt)
      (refl, refl, refl)
