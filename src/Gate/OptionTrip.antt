-- ===== src/Gate/OptionTrip.antt =====
-- The options that build_gate_newaction writes are read back by parse_gate_options.
use gatebench.Base.{
  ℕ, ◌≤◌, ◌<◌, ◌^◌, ◌≡◌, refl, sym, ap, ◌∙◌, Bool, true, not, Option, none, some, List, [], ◌∷◌,
  map, ℤ, pos, neg, arith, length, All, ◌==◌, ◌==ℤ◌, ==ℤ_sound, if◌then◌else◌, Bool-cases, inl, inr,
  ltb,
}
use gatebench.Mnl.{Mnl}
use gatebench.Mnl.Tlv.{Attr, Attrs, leaf, nest, last_attr}
use gatebench.Gate.Types.{GateShape, GateEntry, GateDump, to_s32, IsS32}
use gatebench.Gate.Numbers.{
  tc_act_pipe, tca_act_options, tca_gate_tm, tca_gate_parms, tca_gate_priority, tca_gate_entry_list,
  tca_gate_base_time, tca_gate_cycle_time, tca_gate_cycle_time_ext, tca_gate_flags,
  tca_gate_clockid, tca_gate_max,
}
use gatebench.Gate.Build.{tc_gate_bytes}
use gatebench.Gate.Trees.{entries_attrs, option_attrs, u32_attr, s32_attr, u64_attr}
use gatebench.Gate.Parse.{
  Table, empty_dump, read_fields, read_entries, parse_gate_options, parms_index, options_end,
}
use gatebench.Gate.Tables.{nest_table, nest_table-at, parse_nested_table}
use gatebench.Gate.Lookups.{option_lookup, given_lookup}
use gatebench.Gate.EntryTrip.{
  IsEntry, received, get_u32_attr, get_u64_attr, get_s32_attr, read_list,
}

-- The arguments of build_gate_newaction fit their types.
pub record IsRequest (index : ℕ) (shape : GateShape) (es : List GateEntry) (gate_flags : ℕ)
    (priority : ℤ) : Type 0 where
  pub index_u32 : index < 2 ^ 32
  pub clockid_u32 : shape.clockid < 2 ^ 32
  pub base_time_u64 : shape.base_time < 2 ^ 64
  pub cycle_time_u64 : shape.cycle_time < 2 ^ 64
  pub cycle_time_ext_u64 : shape.cycle_time_ext < 2 ^ 64
  pub flags_u32 : gate_flags < 2 ^ 32
  pub priority_s32 : IsS32 priority
  pub entries_fit : All IsEntry es
  pub few : length es ≤ 2000

-- The dump that describes that request.
abbrev pub dump_of : ℕ → GateShape → List GateEntry → ℕ → ℤ → GateDump
dump_of index shape es gate_flags priority = record empty_dump {
  index = index;
  clockid = shape.clockid;
  base_time = shape.base_time;
  cycle_time = shape.cycle_time;
  cycle_time_ext = shape.cycle_time_ext;
  flags = gate_flags;
  priority = priority;
  entries = map received es;
  num_entries = length es;
}

module _ (m : Mnl) where
  -- An option that is left out where it has its default is read as its default.
  u64_default :
      (t v : ℕ)
      → v < 2 ^ 64
      → elim (if not (v == 0) then some (u64_attr m t v) else none) [
        | none ↦ 0
        | some a ↦ m.attr_get_u64 a
      ]
        ≡ v
  u64_default t v h = elim (Bool-cases (v == 0)) [
    | inl e ↦ rw e (ground arith)
    | inr e ↦ rw e (get_u64_attr m t v h)
  ]

  u32_default :
      (t v : ℕ)
      → v < 2 ^ 32
      → elim (if not (v == 0) then some (u32_attr m t v) else none) [
        | none ↦ 0
        | some a ↦ m.attr_get_u32 a
      ]
        ≡ v
  u32_default t v h = elim (Bool-cases (v == 0)) [
    | inl e ↦ rw e (ground arith)
    | inr e ↦ rw e (get_u32_attr m t v h)
  ]

  s32_default :
      (t : ℕ) (v : ℤ)
      → IsS32 v
      → elim (if not (v ==ℤ neg 1) then some (s32_attr m t v) else none) [
        | none ↦ neg 1
        | some a ↦ to_s32 (m.attr_get_u32 a)
      ]
        ≡ v
  s32_default t v h = elim (Bool-cases (v ==ℤ neg 1)) [
    | inl e ↦ rw e (sym (==ℤ_sound v (neg 1) e))
    | inr e ↦ rw e (get_s32_attr m t v h)
  ]

  -- read_fields, as one record
  read_fields_cells :
      (tb : Table) (dump : GateDump) (p c b y : Attr) (x z q : Option Attr)
      → tb tca_gate_parms ≡ some p
      → tb tca_gate_clockid ≡ some c
      → tb tca_gate_base_time ≡ some b
      → tb tca_gate_cycle_time ≡ some y
      → tb tca_gate_cycle_time_ext ≡ x
      → tb tca_gate_flags ≡ z
      → tb tca_gate_priority ≡ q
      → read_fields m tb dump ≡ record dump {
        index = parms_index m p;
        clockid = m.attr_get_u32 c;
        base_time = m.attr_get_u64 b;
        cycle_time = m.attr_get_u64 y;
        cycle_time_ext = elim x [ none ↦ dump.cycle_time_ext | some a ↦ m.attr_get_u64 a ];
        flags = elim z [ none ↦ dump.flags | some a ↦ m.attr_get_u32 a ];
        priority = elim q [ none ↦ dump.priority | some a ↦ to_s32 (m.attr_get_u32 a) ];
      }
  unfolding read_fields
  read_fields_cells tb dump p c b y x z q h1 h2 h3 h4 h5 h6 h7 =
      rw (h1, h2, h3, h4, h5, h6, h7) (ground arith)

  -- The table of the options, read into a fresh dump.
  option_cell :
      (f : Attrs) (k : ℕ) {o : Option Attr}
      → k ≤ tca_gate_max
      → last_attr k f ≡ o
      → nest_table tca_gate_max f k ≡ o
  option_cell f k h e = nest_table-at tca_gate_max f k h ∙ e

  parms_index-bytes :
      (index : ℕ)
      → index < 2 ^ 32
      → parms_index m (leaf tca_gate_parms (tc_gate_bytes m index tc_act_pipe)) ≡ index
  parms_index-bytes index h = ap m.u32_of (m.get_payload_leaf _ _) ∙ m.u32_of-bytes index _ h

  fields_read :
      (index i : ℕ) (shape : GateShape) (es : List GateEntry) (gate_flags : ℕ) (priority : ℤ)
      → IsRequest index shape es gate_flags priority
      → read_fields m
          (nest_table tca_gate_max (option_attrs m index shape es (length es) gate_flags priority))
          (record empty_dump { index = i })
        ≡ record (dump_of index shape [] gate_flags priority) { num_entries = 0 }
  fields_read index i shape es gate_flags priority h =
      let f = option_attrs m index shape es (length es) gate_flags priority in
      let lead = (option_lookup m index shape es (length es) gate_flags priority).0 in
      let rest = given_lookup m index shape es (length es) gate_flags priority in
      read_fields_cells _ _ _ _ _ _ _ _ _ (option_cell f tca_gate_parms (omega arith) lead.0)
        (option_cell f tca_gate_clockid (omega arith) lead.1)
        (option_cell f tca_gate_base_time (omega arith) lead.2)
        (option_cell f tca_gate_cycle_time (omega arith) lead.3)
        (option_cell f tca_gate_cycle_time_ext (omega arith) rest.0)
        (option_cell f tca_gate_flags (omega arith) rest.2)
        (option_cell f tca_gate_priority (omega arith) rest.1)
      ∙ cc (
        parms_index-bytes index h.index_u32,
        get_u32_attr m tca_gate_clockid shape.clockid h.clockid_u32,
        get_u64_attr m tca_gate_base_time shape.base_time h.base_time_u64,
        get_u64_attr m tca_gate_cycle_time shape.cycle_time h.cycle_time_u64,
        u64_default tca_gate_cycle_time_ext shape.cycle_time_ext h.cycle_time_ext_u64,
        u32_default tca_gate_flags gate_flags h.flags_u32,
        s32_default tca_gate_priority priority h.priority_s32,
      )

  module _ (realloc : ℕ → Bool) (granted : (n : ℕ) → realloc n ≡ true) where
    some_left : (x : GateEntry) (es : List GateEntry) → ltb 0 (length (x ∷ es)) ≡ true
    some_left x es = ground arith

    -- The entry list after the fields, present or not.
    list_read :
        (es : List GateEntry) (tb : Table) (dump : GateDump)
        → All IsEntry es
        → length es < 2 ^ 32
        → dump.entries ≡ []
        → dump.num_entries ≡ 0
        → tb tca_gate_tm ≡ none
        → options_end m tb (
            read_entries m realloc
              (if ltb 0 (length es)
                then some (nest tca_gate_entry_list (entries_attrs m es))
                else none)
              dump)
          ≡ (pos 0, record dump { entries = map received es; num_entries = length es })
    unfolding read_entries
    list_read [] tb dump h few e n none_tm = rw none_tm (cc (e, n))
    list_read (x ∷ es) tb dump h few e n none_tm =
        rw (some_left x es, m.parse_nested_lem)
          (rw (read_list m realloc granted (x ∷ es) dump h (omega arith), none_tm, e, n)
            (ground arith))

    pub options_read :
        (index i : ℕ) (shape : GateShape) (es : List GateEntry) (gate_flags : ℕ) (priority : ℤ)
        → IsRequest index shape es gate_flags priority
        → parse_gate_options m realloc
            (nest tca_act_options (option_attrs m index shape es (length es) gate_flags priority))
            (record empty_dump { index = i })
          ≡ (pos 0, dump_of index shape es gate_flags priority)
    unfolding parse_gate_options
    options_read index i shape es gate_flags priority h =
        let f = option_attrs m index shape es (length es) gate_flags priority in
        rw
          (
            parse_nested_table m,
            fields_read index i shape es gate_flags priority h,
            option_cell f tca_gate_entry_list (omega arith)
                (given_lookup m index shape es (length es) gate_flags priority).3,
          )
          (list_read es (nest_table tca_gate_max f) _ h.entries_fit (omega (arith, h.few)) refl refl
            (option_cell f tca_gate_tm (omega arith)
              (option_lookup m index shape es (length es) gate_flags priority).1))
