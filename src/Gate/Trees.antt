-- ===== src/Gate/Trees.antt =====
-- The trees of attributes of the messages of src/gate_msg.c, as a description of their own.
use gatebench.Base.{ℕ, Bool, not, List, [], ◌∷◌, ℤ, neg, ltb, ◌==◌, ◌==ℤ◌, if◌then◌else◌}
use gatebench.Mnl.{Mnl}
use gatebench.Mnl.Tlv.{Attr, Attrs, leaf, nest, nil, cons, one, ◌⧺◌}
use gatebench.Mnl.Writing.{Draft}
use gatebench.Gate.Types.{GateShape, GateEntry, to_u32}
use gatebench.Gate.Build.{tc_gate_bytes, large_dump_bytes}
use gatebench.Gate.Numbers.{
  tc_act_pipe, tca_act_tab, gatebench_act_prio, tca_root_flags, tca_act_kind, tca_act_options,
  tca_act_index, tca_gate_parms, tca_gate_priority, tca_gate_entry_list, tca_gate_base_time,
  tca_gate_cycle_time, tca_gate_cycle_time_ext, tca_gate_flags, tca_gate_clockid,
  tca_gate_one_entry, tca_gate_entry_gate, tca_gate_entry_interval, tca_gate_entry_ipv,
  tca_gate_entry_max_octets, gate_kind,
}

-- An attribute that is there on a condition.
abbrev pub given : Bool → Attr → Attrs
given c a = if c then one a else nil

abbrev pub in_table : Attrs → Attrs
in_table f = one (nest tca_act_tab (one (nest gatebench_act_prio f)))

-- A finished message of that type, with those flags and attributes, before it gets its number.
abbrev pub message : ℕ → ℕ → Attrs → Draft
message type flags f = record {
  nlmsg_type = type;
  nlmsg_flags = flags;
  nlmsg_seq = 0;
  extra = 4;
  enclosing = [];
  body = f;
}

-- The same with a sequence number, as it is sent or received.
abbrev pub numbered_message : ℕ → ℕ → ℕ → Attrs → Draft
numbered_message seq type flags f = record (message type flags f) { nlmsg_seq = seq }

module _ (m : Mnl) where
  abbrev pub u32_attr : ℕ → ℕ → Attr
  u32_attr type v = leaf type (m.u32_bytes v)

  abbrev pub s32_attr : ℕ → ℤ → Attr
  s32_attr type v = leaf type (m.u32_bytes (to_u32 v))

  abbrev pub u64_attr : ℕ → ℕ → Attr
  u64_attr type v = leaf type (m.u64_bytes v)

  abbrev pub entry_attrs : GateEntry → Attrs
  entry_attrs e =
      given e.gate_state (leaf tca_gate_entry_gate [])
      ⧺ cons (u32_attr tca_gate_entry_interval e.interval) (
          cons (s32_attr tca_gate_entry_ipv e.ipv)
            (one (s32_attr tca_gate_entry_max_octets e.maxoctets)))

  unfoldable pub entries_attrs : List GateEntry → Attrs
  entries_attrs [] = nil
  entries_attrs (e ∷ es) = cons (nest tca_gate_one_entry (entry_attrs e)) (entries_attrs es)

  abbrev pub option_attrs : ℕ → GateShape → List GateEntry → ℕ → ℕ → ℤ → Attrs
  option_attrs index shape es num_entries gate_flags priority =
      cons (leaf tca_gate_parms (tc_gate_bytes m index tc_act_pipe)) (
        cons (u32_attr tca_gate_clockid shape.clockid) (
          cons (u64_attr tca_gate_base_time shape.base_time) (
            cons (u64_attr tca_gate_cycle_time shape.cycle_time) (
              given (not (shape.cycle_time_ext == 0))
                (u64_attr tca_gate_cycle_time_ext shape.cycle_time_ext)
              ⧺ (given (not (priority ==ℤ neg 1)) (s32_attr tca_gate_priority priority)
                  ⧺ (given (not (gate_flags == 0)) (u32_attr tca_gate_flags gate_flags)
                      ⧺ given (ltb 0 num_entries)
                          (nest tca_gate_entry_list (entries_attrs es))))))))

  -- kind and index, and what follows them
  abbrev pub action_attrs : ℕ → Attrs → Attrs
  action_attrs index more =
      cons (leaf tca_act_kind (m.strz_bytes gate_kind)) (cons (u32_attr tca_act_index index) more)

  abbrev pub newaction_attrs : ℕ → GateShape → List GateEntry → ℕ → ℕ → ℤ → Attrs
  newaction_attrs index shape es num_entries gate_flags priority = in_table (
      action_attrs index
        (one (nest tca_act_options (option_attrs index shape es num_entries gate_flags priority))))

  abbrev pub kind_attrs : Attrs
  kind_attrs =
      cons
        (nest tca_act_tab
          (one (nest gatebench_act_prio (one (leaf tca_act_kind (m.strz_bytes gate_kind))))))
        (one (leaf tca_root_flags (large_dump_bytes m)))
