-- ===== src/Gate/Sizes.antt =====
-- The room that the trees of Gate/Trees take.
use gatebench.Base.{
  ℕ, ◌+◌, ◌*◌, not, ltb, ◌==◌, ◌==ℤ◌, neg, ◌≤◌, ◌≡◌, Bool, true, false, List, [], ◌∷◌, ℤ, arith,
  length, length-append,
}
use gatebench.Mnl.{Mnl}
use gatebench.Mnl.Tlv.{
  Attr, Attrs, leaf, nest, cons, one, ◌⧺◌, attr_size, attrs_size, attrs_size-append,
}
use gatebench.Gate.Types.{GateShape, GateEntry, to_u32}
use gatebench.Gate.Build.{tc_gate_bytes}
use gatebench.Gate.Numbers.{
  gate_kind, tc_act_pipe, tca_gate_entry_list, tca_gate_cycle_time_ext, tca_gate_priority,
  tca_gate_flags, tca_gate_entry_interval, tca_gate_entry_ipv, tca_gate_entry_max_octets,
  tca_gate_entry_gate,
}
use gatebench.Gate.Trees.{
  given, u32_attr, s32_attr, u64_attr, entry_attrs, entries_attrs, option_attrs, action_attrs,
}

given_size : (c : Bool) (a : Attr) → attrs_size (given c a) ≤ attr_size a
unfolding attrs_size
given_size true a = omega arith
given_size false a = omega arith

module _ (m : Mnl) where
  pub length-tc_gate_bytes : (index action : ℕ) → length (tc_gate_bytes m index action) ≡ 20
  length-tc_gate_bytes index action = simp (length-append, m.length-u32_bytes)

  pub entry_size : (e : GateEntry) → attrs_size (entry_attrs m e) ≤ 28
  unfolding attrs_size
  entry_size e = omega (
    arith,
    attrs_size-append (given e.gate_state (leaf tca_gate_entry_gate [])) (
        cons (u32_attr m tca_gate_entry_interval e.interval) (
          cons (s32_attr m tca_gate_entry_ipv e.ipv)
            (one (s32_attr m tca_gate_entry_max_octets e.maxoctets)))),
    given_size e.gate_state (leaf tca_gate_entry_gate []),
    m.length-u32_bytes e.interval,
    m.length-u32_bytes (to_u32 e.ipv),
    m.length-u32_bytes (to_u32 e.maxoctets),
  )

  pub entries_size : (es : List GateEntry) → attrs_size (entries_attrs m es) ≤ 32 * length es
  unfolding attrs_size entries_attrs
  entries_size [] = omega arith
  entries_size (e ∷ es) = omega (arith, entries_size es, entry_size e)

  -- The four conditional attributes at the end of the options.
  tail_size :
      (a b c : Bool) (w x y z : Attr) (d : Bool)
      → attrs_size (given a x ⧺ (given b y ⧺ (given c z ⧺ given d w)))
        ≤ attr_size x + attr_size y + attr_size z + attr_size w
  tail_size a b c w x y z d = omega (
    arith,
    attrs_size-append (given a x) (given b y ⧺ (given c z ⧺ given d w)),
    attrs_size-append (given b y) (given c z ⧺ given d w),
    attrs_size-append (given c z) (given d w),
    given_size a x,
    given_size b y,
    given_size c z,
    given_size d w,
  )

  pub options_size :
      (index : ℕ) (shape : GateShape) (es : List GateEntry) (num_entries gate_flags : ℕ)
      (priority : ℤ)
      → attrs_size (option_attrs m index shape es num_entries gate_flags priority)
        ≤ 88 + 32 * length es
  unfolding attrs_size
  options_size index shape es num_entries gate_flags priority = omega (
    arith,
    tail_size (not (shape.cycle_time_ext == 0)) (not (priority ==ℤ neg 1)) (not (gate_flags == 0))
        (nest tca_gate_entry_list (entries_attrs m es))
        (u64_attr m tca_gate_cycle_time_ext shape.cycle_time_ext)
        (s32_attr m tca_gate_priority priority) (u32_attr m tca_gate_flags gate_flags)
        (ltb 0 num_entries),
    entries_size es,
    length-tc_gate_bytes index tc_act_pipe,
    m.length-u32_bytes shape.clockid,
    m.length-u64_bytes shape.base_time,
    m.length-u64_bytes shape.cycle_time,
    m.length-u64_bytes shape.cycle_time_ext,
    m.length-u32_bytes (to_u32 priority),
    m.length-u32_bytes gate_flags,
  )

  pub action_size :
      (index : ℕ) (more : Attrs) → attrs_size (action_attrs m index more) ≡ 20 + attrs_size more
  unfolding attrs_size
  action_size index more = omega (arith, m.length-strz_bytes gate_kind, m.length-u32_bytes index)
