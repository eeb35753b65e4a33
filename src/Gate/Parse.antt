-- ===== src/Gate/Parse.antt =====
-- Reading the kernel's replies: the parsers of src/gate_msg.c. Each callback takes the attribute and
-- the dump so far and returns its code and the dump.
use gatebench.Base.{
  first_cells, replicate, ℕ, ◌+◌, ◌%◌, Bool, true, false, not, Option, none, some, [], ◌∷◌, ◌++◌, ℤ,
  pos, neg, einval, leb, ◌==◌, if◌then◌else◌, is_neg, is_some, drop, str_eq, u32_mod,
}
use gatebench.Mnl.{Mnl}
use gatebench.Mnl.Tlv.{Attr, cb_error, cb_ok}
use gatebench.Gate.Types.{GateEntry, GateDump, to_s32}
use gatebench.Gate.Numbers.{
  tca_act_tab, tca_root_max, tca_act_kind, tca_act_options, tca_act_index, tca_act_stats,
  tca_act_max, tca_gate_tm, tca_gate_parms, tca_gate_priority, tca_gate_entry_list,
  tca_gate_base_time, tca_gate_cycle_time, tca_gate_cycle_time_ext, tca_gate_flags,
  tca_gate_clockid, tca_gate_max, tca_gate_one_entry, tca_gate_entry_index, tca_gate_entry_gate,
  tca_gate_entry_interval, tca_gate_entry_ipv, tca_gate_entry_max_octets, tca_gate_entry_max,
  tca_stats_basic, tca_stats_queue, tca_stats_max, gate_kind,
}

-- const struct nlattr* tb[MAX + 1]
abbrev pub Table : Type 0
Table = ℕ → Option Attr

abbrev pub no_attrs : Table
no_attrs k = none

-- tb[type] = attr
abbrev pub put_at : ℕ → Attr → Table → Table
put_at type attr tb k = if type == k then some attr else tb k

-- if (tb[k]) dump->field = ...
abbrev pub update : {D : Type 0} → Option Attr → (Attr → D → D) → D → D
update none f dump = dump
update (some a) f dump = f a dump

-- sizeof(struct tcf_t)
abbrev pub tcf_t_size : ℕ
tcf_t_size = 32

-- memset(dump, 0, sizeof(*dump)); dump->priority = -1;
abbrev pub empty_dump : GateDump
empty_dump = record {
  index = 0;
  clockid = 0;
  base_time = 0;
  cycle_time = 0;
  cycle_time_ext = 0;
  flags = 0;
  priority = neg 1;
  entries = [];
  num_entries = 0;
  tm = some (replicate tcf_t_size 0);
  has_tm = false;
  has_basic_stats = false;
  has_queue_stats = false;
  bytes = 0;
  packets = 0;
  drops = 0;
  overlimits = 0;
}

module _ (m : Mnl) where
  open m use {Buf}

  unfoldable pub mnl_attr_cb_copy : ℕ → Attr → Table → ℤ × Table
  mnl_attr_cb_copy max_type attr tb =
      let type = m.attr_get_type attr in
      if leb type max_type then (cb_ok, put_at type attr tb) else (cb_ok, tb)

  unfoldable pub parse_attrs_limited : Buf → ℕ → ℕ → ℤ × Table
  unfolding mnl_attr_cb_copy
  parse_attrs_limited nlh offset max_type =
      m.attr_parse Table nlh offset (mnl_attr_cb_copy max_type) no_attrs

  unfoldable pub parse_nested_attrs_limited : Attr → ℕ → ℤ × Table
  unfolding mnl_attr_cb_copy
  parse_nested_attrs_limited attr max_type =
      m.attr_parse_nested Table attr (mnl_attr_cb_copy max_type) no_attrs

  -- The entry that the table of one TCA_GATE_ONE_ENTRY gives.
  unfoldable pub read_entry : Table → GateEntry
  read_entry tb = record {
    index = elim (tb tca_gate_entry_index) [ none ↦ 0 | some a ↦ m.attr_get_u32 a ];
    gate_state = is_some (tb tca_gate_entry_gate);
    interval = elim (tb tca_gate_entry_interval) [ none ↦ 0 | some a ↦ m.attr_get_u32 a ];
    ipv = elim (tb tca_gate_entry_ipv) [ none ↦ neg 1 | some a ↦ to_s32 (m.attr_get_u32 a) ];
    maxoctets = elim (tb tca_gate_entry_max_octets) [
      | none ↦ neg 1
      | some a ↦ to_s32 (m.attr_get_u32 a)
    ];
  }

  abbrev pub append_entry : GateDump → GateEntry → GateDump
  append_entry dump e = record dump {
    entries = dump.entries ++ e ∷ [];
    num_entries = (dump.num_entries + 1) % u32_mod;
  }

  -- `realloc` says whether it grants room for a number of entries.
  abbrev pub add_entry : (ℕ → Bool) → ℤ × Table → GateDump → ℤ × GateDump
  add_entry realloc (ret, tb) dump =
      if is_neg ret
      then (cb_error, dump)
      else if not (realloc (dump.num_entries + 1))
      then (cb_error, dump)
      else (cb_ok, append_entry dump (read_entry tb))

  unfoldable pub parse_gate_entries_cb : (ℕ → Bool) → Attr → GateDump → ℤ × GateDump
  unfolding read_entry
  parse_gate_entries_cb realloc attr dump =
      if not (m.attr_get_type attr == tca_gate_one_entry)
      then (cb_ok, dump)
      else add_entry realloc (parse_nested_attrs_limited attr tca_gate_entry_max) dump

  -- parms->index, the first field of struct tc_gate
  abbrev pub parms_index : Attr → ℕ
  parms_index a = m.u32_of (m.attr_get_payload a)

  -- The fields of the options up to the priority, as the code assigns them.
  unfoldable pub read_fields : Table → GateDump → GateDump
  read_fields tb dump =
      update (tb tca_gate_priority) (λ a d. record d { priority = to_s32 (m.attr_get_u32 a) })
        (update (tb tca_gate_flags) (λ a d. record d { flags = m.attr_get_u32 a })
          (update (tb tca_gate_cycle_time_ext)
            (λ a d. record d { cycle_time_ext = m.attr_get_u64 a })
            (update (tb tca_gate_cycle_time) (λ a d. record d { cycle_time = m.attr_get_u64 a })
              (update (tb tca_gate_base_time) (λ a d. record d { base_time = m.attr_get_u64 a })
                (update (tb tca_gate_clockid) (λ a d. record d { clockid = m.attr_get_u32 a })
                  (update (tb tca_gate_parms) (λ a d. record d { index = parms_index a }) dump))))))

  -- The entry list, if there is one.
  unfoldable pub read_entries : (ℕ → Bool) → Option Attr → GateDump → ℤ × GateDump
  read_entries realloc none dump = (pos 0, dump)
  read_entries realloc (some list) dump =
      m.attr_parse_nested GateDump list (parse_gate_entries_cb realloc) dump

  -- dump->tm = *tm
  abbrev pub read_tm : Option Attr → GateDump → GateDump
  read_tm tm dump =
      update tm
        (λ a d. record d { tm = first_cells tcf_t_size (m.attr_get_payload a); has_tm = true }) dump

  -- What follows the entry list: `return -1` if it was refused.
  abbrev pub options_end : Table → ℤ × GateDump → ℤ × GateDump
  options_end tb (ret, dump) =
      if is_neg ret then (neg 1, dump) else (pos 0, read_tm (tb tca_gate_tm) dump)

  abbrev pub options_table : (ℕ → Bool) → ℤ × Table → GateDump → ℤ × GateDump
  options_table realloc (ret, tb) dump =
      if is_neg ret
      then (neg 1, dump)
      else options_end tb (read_entries realloc (tb tca_gate_entry_list) (read_fields tb dump))

  unfoldable pub parse_gate_options : (ℕ → Bool) → Attr → GateDump → ℤ × GateDump
  unfolding read_fields
  parse_gate_options realloc attr dump =
      options_table realloc (parse_nested_attrs_limited attr tca_gate_max) dump

  -- struct gnet_stats_basic { u64 bytes; u32 packets } and
  -- struct gnet_stats_queue { u32 qlen, backlog, drops, requeues, overlimits }
  abbrev pub read_basic : Attr → GateDump → GateDump
  read_basic a d = record d {
    bytes = m.u64_of (m.attr_get_payload a);
    packets = m.u32_of (drop 8 (m.attr_get_payload a));
    has_basic_stats = true;
  }

  abbrev pub read_queue : Attr → GateDump → GateDump
  read_queue a d = record d {
    drops = m.u32_of (drop 8 (m.attr_get_payload a));
    overlimits = m.u32_of (drop 16 (m.attr_get_payload a));
    has_queue_stats = true;
  }

  abbrev pub stats_table : ℤ × Table → GateDump → ℤ × GateDump
  stats_table (ret, tb) dump = if is_neg ret then (neg 1, dump) else (
    pos 0,
    update (tb tca_stats_queue) read_queue (update (tb tca_stats_basic) read_basic dump),
  )

  unfoldable pub parse_action_stats : Attr → GateDump → ℤ × GateDump
  parse_action_stats attr dump = stats_table (parse_nested_attrs_limited attr tca_stats_max) dump

  -- !tb[TCA_ACT_KIND] || strcmp(mnl_attr_get_str(tb[TCA_ACT_KIND]), "gate") != 0
  abbrev pub is_other_kind : Option Attr → Bool
  is_other_kind none = true
  is_other_kind (some a) = not (str_eq (m.attr_get_str a) gate_kind)

  abbrev pub stats_part : Option Attr → ℤ × GateDump → ℤ × GateDump
  stats_part none (ret, dump) = if is_neg ret then (cb_error, dump) else (cb_ok, dump)
  stats_part (some a) (ret, dump) =
      if is_neg ret
      then (cb_error, dump)
      else let (ret', dump') = parse_action_stats a dump in
        if is_neg ret' then (cb_error, dump') else (cb_ok, dump')

  abbrev pub options_part : (ℕ → Bool) → Option Attr → GateDump → ℤ × GateDump
  options_part realloc none dump = (pos 0, dump)
  options_part realloc (some a) dump = parse_gate_options realloc a dump

  abbrev pub action_table : (ℕ → Bool) → ℤ × Table → GateDump → ℤ × GateDump
  action_table realloc (ret, tb) dump =
      if is_neg ret
      then (cb_error, dump)
      else if is_other_kind (tb tca_act_kind)
      then (cb_ok, dump)
      else stats_part (tb tca_act_stats) (
          options_part realloc (tb tca_act_options)
            (update (tb tca_act_index) (λ a d. record d { index = m.attr_get_u32 a }) dump))

  unfoldable pub parse_action_prio_cb : (ℕ → Bool) → Attr → GateDump → ℤ × GateDump
  parse_action_prio_cb realloc attr dump =
      action_table realloc (parse_nested_attrs_limited attr tca_act_max) dump

  abbrev pub table_end : ℤ × GateDump → ℤ × GateDump
  table_end (ret, dump) = if is_neg ret then (neg 1, dump) else (pos 0, dump)

  abbrev pub root_table : (ℕ → Bool) → ℤ × Table → ℤ × GateDump
  root_table realloc (ret, tb) = if is_neg ret then (neg 1, empty_dump) else elim (tb tca_act_tab) [
    | none ↦ (pos 0, empty_dump)
    | some tab ↦
        table_end (m.attr_parse_nested GateDump tab (parse_action_prio_cb realloc) empty_dump)
  ]

  -- Behind the struct tcamsg of 4 bytes. The dump is `none` for NULL.
  unfoldable pub gb_nl_gate_parse : (ℕ → Bool) → Option Buf → Option GateDump → ℤ × Option GateDump
  gb_nl_gate_parse realloc none dump = (neg einval, dump)
  gb_nl_gate_parse realloc (some nlh) none = (neg einval, none)
  gb_nl_gate_parse realloc (some nlh) (some dump) =
      let (ret, dump') = root_table realloc (parse_attrs_limited nlh 4 tca_root_max) in
      (ret, some dump')
