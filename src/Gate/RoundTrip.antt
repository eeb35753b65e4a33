-- ===== src/Gate/RoundTrip.antt =====
-- gb_nl_gate_parse reads back what build_gate_newaction wrote.
use gatebench.Base.{ℕ, ◌≡◌, refl, Bool, true, none, some, List, ℤ, pos, arith, length}
use gatebench.Mnl.{Mnl}
use gatebench.Mnl.Tlv.{Attrs, leaf, nest, one, cb_ok, each_from, last_attr}
use gatebench.Gate.Types.{GateShape, GateEntry, GateDump}
use gatebench.Gate.Numbers.{
  tca_act_tab, tca_root_max, tca_act_kind, tca_act_options, tca_act_index, tca_act_stats,
  tca_act_max, gate_kind, gatebench_act_prio,
}
use gatebench.Gate.Build.{newaction}
use gatebench.Gate.Trees.{option_attrs, action_attrs, in_table, u32_attr}
use gatebench.Gate.Trees.{numbered_message, newaction_attrs}
use gatebench.Gate.Contents.{newaction_contents}
use gatebench.Gate.Parse.{empty_dump, parse_action_prio_cb, gb_nl_gate_parse}
use gatebench.Gate.Tables.{nest_table, nest_table-at, parse_nested_table, parse_root_table}
use gatebench.Gate.OptionTrip.{IsRequest, dump_of, options_read}
use gatebench.Gate.EntryTrip.{get_u32_attr}

module _ (m : Mnl) where
  -- What the table of one action holds.
  action_cells :
      (index : ℕ) (options : Attrs)
      → let f = action_attrs m index (one (nest tca_act_options options)) in
        (nest_table tca_act_max f tca_act_kind ≡ some (leaf tca_act_kind (m.strz_bytes gate_kind)))
        × (nest_table tca_act_max f tca_act_index ≡ some (u32_attr m tca_act_index index))
        × (nest_table tca_act_max f tca_act_options ≡ some (nest tca_act_options options))
        × (nest_table tca_act_max f tca_act_stats ≡ none)
  unfolding last_attr
  action_cells index options =
      let f = action_attrs m index (one (nest tca_act_options options)) in
      (
        nest_table-at tca_act_max f tca_act_kind (omega arith),
        nest_table-at tca_act_max f tca_act_index (omega arith),
        nest_table-at tca_act_max f tca_act_options (omega arith),
        nest_table-at tca_act_max f tca_act_stats (omega arith),
      )

  root_cell :
      (f : Attrs)
      → nest_table tca_root_max (in_table f) tca_act_tab
        ≡ some (nest tca_act_tab (one (nest gatebench_act_prio f)))
  unfolding last_attr
  root_cell f = nest_table-at tca_root_max (in_table f) tca_act_tab (omega arith)

  module _ (realloc : ℕ → Bool) (granted : (n : ℕ) → realloc n ≡ true) where
    action_read :
        (index : ℕ) (shape : GateShape) (es : List GateEntry) (gate_flags : ℕ) (priority : ℤ)
        → IsRequest index shape es gate_flags priority
        → parse_action_prio_cb m realloc
            (nest gatebench_act_prio (
              action_attrs m index (
                one (
                  nest tca_act_options
                    (option_attrs m index shape es (length es) gate_flags priority)))))
            empty_dump
          ≡ (cb_ok, dump_of index shape es gate_flags priority)
    unfolding parse_action_prio_cb
    action_read index shape es gate_flags priority h =
        let cells =
          action_cells index (option_attrs m index shape es (length es) gate_flags priority) in
        rw
          (
            parse_nested_table m,
            cells.0,
            m.get_str_leaf tca_act_kind gate_kind refl,
            cells.3,
            cells.2,
            cells.1,
            get_u32_attr m tca_act_index index h.index_u32,
            options_read m realloc granted index index shape es gate_flags priority h,
          )
          refl

    -- Any finished message with that tree, whatever its header.
    pub gb_nl_gate_parse-tree :
        (index : ℕ) (shape : GateShape) (es : List GateEntry) (gate_flags : ℕ) (priority : ℤ)
        → IsRequest index shape es gate_flags priority
        → (reply : m.Buf) (seq type flags : ℕ) (old : GateDump)
        → m.draft reply
          ≡ numbered_message seq type flags
              (newaction_attrs m index shape es (length es) gate_flags priority)
        → gb_nl_gate_parse m realloc (some reply) (some old)
          ≡ (pos 0, some (dump_of index shape es gate_flags priority))
    unfolding gb_nl_gate_parse each_from
    gb_nl_gate_parse-tree index shape es gate_flags priority h reply seq type flags old e =
        rw
          (
            parse_root_table m reply seq type flags _ tca_root_max e,
            root_cell,
            m.parse_nested_lem,
            action_read index shape es gate_flags priority h,
          )
          refl

    -- If the arguments fit their types, there are at most 2000 entries and memory suffices, then
    -- gb_nl_gate_parse, on the message that build_gate_newaction writes, returns 0 and the dump of
    -- exactly that gate, whatever the dump and the buffer held before. The entry indices are not sent and read as 0.
    pub gb_nl_gate_parse-newaction :
        (index : ℕ) (shape : GateShape) (es : List GateEntry) (nlmsg_flags gate_flags : ℕ)
        (priority : ℤ)
        → IsRequest index shape es gate_flags priority
        → (b : m.Buf) (old : GateDump)
        → gb_nl_gate_parse m realloc
            (some (newaction m index shape es (length es) nlmsg_flags gate_flags priority b))
            (some old)
          ≡ (pos 0, some (dump_of index shape es gate_flags priority))
    gb_nl_gate_parse-newaction index shape es nlmsg_flags gate_flags priority h b old =
        gb_nl_gate_parse-tree index shape es gate_flags priority h _ 0 _ _ old
          (newaction_contents m index shape es (length es) nlmsg_flags gate_flags priority b h.few)
