-- ===== src/Gate/Lookups.antt =====
-- Where the attributes of the options of a gate are found.
use gatebench.Base.{
  ℕ, ◌≡◌, refl, ◌∙◌, Bool, not, ◌&&◌, Option, none, some, List, ℤ, neg, ◌==◌, ◌==ℤ◌, if◌then◌else◌,
  ltb,
}
use gatebench.Base.Libc.{Bytes}
use gatebench.Mnl.{Mnl}
use gatebench.Mnl.Tlv.{Attr, Attrs, leaf, nest, cons, ◌⧺◌, last_attr, attr_type, later}
use gatebench.Gate.Types.{GateShape, GateEntry, to_u32}
use gatebench.Gate.Numbers.{
  tc_act_pipe, tca_gate_tm, tca_gate_parms, tca_gate_priority, tca_gate_entry_list,
  tca_gate_base_time, tca_gate_cycle_time, tca_gate_cycle_time_ext, tca_gate_flags,
  tca_gate_clockid,
}
use gatebench.Gate.Build.{tc_gate_bytes}
use gatebench.Gate.Trees.{given, entries_attrs, option_attrs, u32_attr, s32_attr, u64_attr}
use gatebench.Gate.Tables.{last_attr-append, last_attr-given}

-- The four conditional attributes at the end of the options, and a lookup in them.
tail_attrs : Bool → Bool → Bool → Bool → Bytes → Bytes → Bytes → Attrs → Attrs
tail_attrs a b c d x y z f =
    given a (leaf tca_gate_cycle_time_ext x)
    ⧺ (given b (leaf tca_gate_priority y)
        ⧺ (given c (leaf tca_gate_flags z) ⧺ given d (nest tca_gate_entry_list f)))

pick : ℕ → Bool → Attr → Option Attr
pick k c a = if (attr_type a == k) && c then some a else none

tail_find :
    (k : ℕ) (a b c d : Bool) (x y z : Bytes) (f : Attrs)
    → last_attr k (tail_attrs a b c d x y z f)
      ≡ later
          (later
            (later (pick k d (nest tca_gate_entry_list f)) (pick k c (leaf tca_gate_flags z)))
            (pick k b (leaf tca_gate_priority y)))
          (pick k a (leaf tca_gate_cycle_time_ext x))
unfolding tail_attrs pick
tail_find k a b c d x y z f =
    rw
      (
        last_attr-append k (given a (leaf tca_gate_cycle_time_ext x)) (
            given b (leaf tca_gate_priority y)
            ⧺ (given c (leaf tca_gate_flags z) ⧺ given d (nest tca_gate_entry_list f))),
        last_attr-append k (given b (leaf tca_gate_priority y))
            (given c (leaf tca_gate_flags z) ⧺ given d (nest tca_gate_entry_list f)),
        last_attr-append k (given c (leaf tca_gate_flags z)) (given d (nest tca_gate_entry_list f)),
        last_attr-given k a (leaf tca_gate_cycle_time_ext x),
        last_attr-given k b (leaf tca_gate_priority y),
        last_attr-given k c (leaf tca_gate_flags z),
        last_attr-given k d (nest tca_gate_entry_list f),
      )
      refl

later-none : (o : Option Attr) → later o none ≡ o
later-none none = refl
later-none (some a) = refl

-- The conditional attributes are found where their conditions hold.
tail_lookup :
    (a b c d : Bool) (x y z : Bytes) (f : Attrs)
    → let t = tail_attrs a b c d x y z f in
      (last_attr tca_gate_cycle_time_ext t
        ≡ (if a then some (leaf tca_gate_cycle_time_ext x) else none))
      × (last_attr tca_gate_priority t ≡ (if b then some (leaf tca_gate_priority y) else none))
      × (last_attr tca_gate_flags t ≡ (if c then some (leaf tca_gate_flags z) else none))
      × (last_attr tca_gate_entry_list t ≡ (if d then some (nest tca_gate_entry_list f) else none))
unfolding pick
tail_lookup a b c d x y z f = (
  tail_find tca_gate_cycle_time_ext a b c d x y z f,
  tail_find tca_gate_priority a b c d x y z f ∙ later-none _,
  tail_find tca_gate_flags a b c d x y z f ∙ later-none _ ∙ later-none _,
  tail_find tca_gate_entry_list a b c d x y z f ∙ later-none _ ∙ later-none _ ∙ later-none _,
)

-- No other type is found among them.
tail_others :
    (a b c d : Bool) (x y z : Bytes) (f : Attrs)
    → let t = tail_attrs a b c d x y z f in
      (last_attr tca_gate_parms t ≡ none)
      × (last_attr tca_gate_clockid t ≡ none)
      × (last_attr tca_gate_base_time t ≡ none)
      × (last_attr tca_gate_cycle_time t ≡ none)
      × (last_attr tca_gate_tm t ≡ none)
unfolding pick
tail_others a b c d x y z f = (
  tail_find tca_gate_parms a b c d x y z f,
  tail_find tca_gate_clockid a b c d x y z f,
  tail_find tca_gate_base_time a b c d x y z f,
  tail_find tca_gate_cycle_time a b c d x y z f,
  tail_find tca_gate_tm a b c d x y z f,
)

-- Four attributes of other types stand before the conditional ones.
later-none4 : {o p : Option Attr} → o ≡ p → later (later (later (later o none) none) none) none ≡ p
later-none4 e = later-none _ ∙ later-none _ ∙ later-none _ ∙ later-none _ ∙ e

-- The four attributes that always stand first, before others of other types.
lead_lookup :
    (p c b y : Bytes) (t : Attrs)
    → last_attr tca_gate_parms t ≡ none
    → last_attr tca_gate_clockid t ≡ none
    → last_attr tca_gate_base_time t ≡ none
    → last_attr tca_gate_cycle_time t ≡ none
    → let f = cons (leaf tca_gate_parms p) (
        cons
          (leaf tca_gate_clockid c)
          (cons (leaf tca_gate_base_time b) (cons (leaf tca_gate_cycle_time y) t))) in
      (last_attr tca_gate_parms f ≡ some (leaf tca_gate_parms p))
      × (last_attr tca_gate_clockid f ≡ some (leaf tca_gate_clockid c))
      × (last_attr tca_gate_base_time f ≡ some (leaf tca_gate_base_time b))
      × (last_attr tca_gate_cycle_time f ≡ some (leaf tca_gate_cycle_time y))
unfolding last_attr
lead_lookup p c b y t h1 h2 h3 h4 = (rw h1 refl, rw h2 refl, rw h3 refl, rw h4 refl)

module _ (m : Mnl) where
  pub option_lookup :
      (index : ℕ) (shape : GateShape) (es : List GateEntry) (n gate_flags : ℕ) (priority : ℤ)
      → let f = option_attrs m index shape es n gate_flags priority in
        ((last_attr tca_gate_parms f
            ≡ some (leaf tca_gate_parms (tc_gate_bytes m index tc_act_pipe)))
          × (last_attr tca_gate_clockid f ≡ some (u32_attr m tca_gate_clockid shape.clockid))
          × (last_attr tca_gate_base_time f ≡ some (u64_attr m tca_gate_base_time shape.base_time))
          × (last_attr tca_gate_cycle_time f
              ≡ some (u64_attr m tca_gate_cycle_time shape.cycle_time)))
        × (last_attr tca_gate_tm f ≡ none)
  unfolding last_attr tail_attrs
  option_lookup index shape es n gate_flags priority =
      let a = not (shape.cycle_time_ext == 0) in
      let b = not (priority ==ℤ neg 1) in
      let c = not (gate_flags == 0) in
      let x = m.u64_bytes shape.cycle_time_ext in
      let y = m.u32_bytes (to_u32 priority) in
      let z = m.u32_bytes gate_flags in
      let t = tail_others a b c (ltb 0 n) x y z (entries_attrs m es) in
      (
        lead_lookup _ _ _ _ (tail_attrs a b c (ltb 0 n) x y z (entries_attrs m es)) t.0 t.1 t.2 t.3,
        later-none4 t.4,
      )

  pub given_lookup :
      (index : ℕ) (shape : GateShape) (es : List GateEntry) (n gate_flags : ℕ) (priority : ℤ)
      → let f = option_attrs m index shape es n gate_flags priority in
        (last_attr tca_gate_cycle_time_ext f ≡ (
          if not (shape.cycle_time_ext == 0)
          then some (u64_attr m tca_gate_cycle_time_ext shape.cycle_time_ext)
          else none))
        × (last_attr tca_gate_priority f ≡ (
            if not (priority ==ℤ neg 1)
            then some (s32_attr m tca_gate_priority priority)
            else none))
        × (last_attr tca_gate_flags f
            ≡ (if not (gate_flags == 0) then some (u32_attr m tca_gate_flags gate_flags) else none))
        × (last_attr tca_gate_entry_list f
            ≡ (if ltb 0 n then some (nest tca_gate_entry_list (entries_attrs m es)) else none))
  unfolding last_attr tail_attrs
  given_lookup index shape es n gate_flags priority =
      let t =
        tail_lookup (not (shape.cycle_time_ext == 0)) (not (priority ==ℤ neg 1))
          (not (gate_flags == 0)) (ltb 0 n) _ _ _ (entries_attrs m es) in
      (later-none4 t.0, later-none4 t.1, later-none4 t.2, later-none4 t.3)
