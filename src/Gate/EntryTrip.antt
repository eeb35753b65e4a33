-- ===== src/Gate/EntryTrip.antt =====
-- An entry list that was written is read back.
use gatebench.Base.{
  ℕ, ◌+◌, ◌≤◌, ◌<◌, ◌^◌, ◌≡◌, refl, ap, ◌∙◌, Bool, true, false, Option, none, some, List, [], ◌∷◌,
  ◌++◌, map, append_assoc, append-nil, ℤ, arith, length, All, is_some, if◌then◌else◌,
}
use gatebench.Base.Libc.{Bytes}
use gatebench.Mnl.{Mnl}
use gatebench.Mnl.Tlv.{Attr, leaf, nest, cons, one, ◌⧺◌, cb_ok, each_from, last_attr}
use gatebench.Gate.Types.{GateEntry, GateDump, to_u32, to_s32, IsS32, to_s32-to_u32, to_u32_range}
use gatebench.Gate.Numbers.{
  tca_gate_one_entry, tca_gate_entry_index, tca_gate_entry_gate, tca_gate_entry_interval,
  tca_gate_entry_ipv, tca_gate_entry_max_octets, tca_gate_entry_max,
}
use gatebench.Gate.Trees.{given, entry_attrs, entries_attrs, u32_attr, s32_attr}
use gatebench.Gate.Parse.{Table, read_entry, append_entry, parse_gate_entries_cb}
use gatebench.Gate.Tables.{nest_table, nest_table-at, parse_nested_table}

-- The fields of an entry fit their types.
pub record IsEntry (e : GateEntry) : Type 0 where
  pub interval_u32 : e.interval < 2 ^ 32
  pub ipv_s32 : IsS32 e.ipv
  pub maxoctets_s32 : IsS32 e.maxoctets

-- What arrives of an entry: its index is not sent.
abbrev pub received : GateEntry → GateEntry
received e = record e { index = 0 }

-- What read_entry returns for a table with these cells.
read_entry_cells :
    (m : Mnl) (tb : Table) (gate : Option Attr) (i p o : Attr)
    → tb tca_gate_entry_index ≡ none
    → tb tca_gate_entry_gate ≡ gate
    → tb tca_gate_entry_interval ≡ some i
    → tb tca_gate_entry_ipv ≡ some p
    → tb tca_gate_entry_max_octets ≡ some o
    → read_entry m tb ≡ record {
      index = 0;
      gate_state = is_some gate;
      interval = m.attr_get_u32 i;
      ipv = to_s32 (m.attr_get_u32 p);
      maxoctets = to_s32 (m.attr_get_u32 o);
    }
unfolding read_entry
read_entry_cells m tb gate i p o e1 e2 e3 e4 e5 = rw (e1, e2, e3, e4, e5)

-- The cells of the tree of an entry.
entry_lookup :
    (g : Bool) (x y z : Bytes)
    → let f =
        given g (leaf tca_gate_entry_gate [])
        ⧺ cons
            (leaf tca_gate_entry_interval x)
            (cons (leaf tca_gate_entry_ipv y) (one (leaf tca_gate_entry_max_octets z))) in
      (last_attr tca_gate_entry_index f ≡ none)
      × (last_attr tca_gate_entry_gate f ≡ (if g then some (leaf tca_gate_entry_gate []) else none))
      × (last_attr tca_gate_entry_interval f ≡ some (leaf tca_gate_entry_interval x))
      × (last_attr tca_gate_entry_ipv f ≡ some (leaf tca_gate_entry_ipv y))
      × (last_attr tca_gate_entry_max_octets f ≡ some (leaf tca_gate_entry_max_octets z))
unfolding last_attr
entry_lookup true x y z = (refl, refl, refl, refl, refl)
entry_lookup false x y z = (refl, refl, refl, refl, refl)

is_some-given : (g : Bool) (a : Attr) → is_some (if g then some a else none) ≡ g
is_some-given true a = refl
is_some-given false a = refl

module _ (m : Mnl) where
  pub get_u32_attr : (t v : ℕ) → v < 2 ^ 32 → m.attr_get_u32 (u32_attr m t v) ≡ v
  get_u32_attr t v h = m.get_u32_leaf t _ ∙ (rw append-nil at (m.u32_of-bytes v [] h))

  pub get_u64_attr : (t v : ℕ) → v < 2 ^ 64 → m.attr_get_u64 (leaf t (m.u64_bytes v)) ≡ v
  get_u64_attr t v h = m.get_u64_leaf t _ ∙ (rw append-nil at (m.u64_of-bytes v [] h))

  pub get_s32_attr : (t : ℕ) (v : ℤ) → IsS32 v → to_s32 (m.attr_get_u32 (s32_attr m t v)) ≡ v
  get_s32_attr t v h = ap to_s32 (get_u32_attr t (to_u32 v) (to_u32_range v h)) ∙ to_s32-to_u32 v h

  entry_cell :
      (e : GateEntry) (k : ℕ)
      → k ≤ tca_gate_entry_max
      → nest_table tca_gate_entry_max (entry_attrs m e) k ≡ last_attr k (entry_attrs m e)
  entry_cell e k h = nest_table-at tca_gate_entry_max (entry_attrs m e) k h

  read_entry-attrs :
      (e : GateEntry)
      → IsEntry e
      → read_entry m (nest_table tca_gate_entry_max (entry_attrs m e)) ≡ received e
  read_entry-attrs e h =
      let cells = entry_lookup e.gate_state _ _ _ in
      read_entry_cells m _ _ _ _ _ (entry_cell e tca_gate_entry_index (omega arith) ∙ cells.0)
        (entry_cell e tca_gate_entry_gate (omega arith) ∙ cells.1)
        (entry_cell e tca_gate_entry_interval (omega arith) ∙ cells.2)
        (entry_cell e tca_gate_entry_ipv (omega arith) ∙ cells.3)
        (entry_cell e tca_gate_entry_max_octets (omega arith) ∙ cells.4)
      ∙ cc (
        is_some-given e.gate_state (leaf tca_gate_entry_gate []),
        get_u32_attr tca_gate_entry_interval e.interval h.interval_u32,
        get_s32_attr tca_gate_entry_ipv e.ipv h.ipv_s32,
        get_s32_attr tca_gate_entry_max_octets e.maxoctets h.maxoctets_s32,
      )

  module _ (realloc : ℕ → Bool) (granted : (n : ℕ) → realloc n ≡ true) where
    read_one :
        (e : GateEntry) (dump : GateDump)
        → IsEntry e
        → parse_gate_entries_cb m realloc (nest tca_gate_one_entry (entry_attrs m e)) dump
          ≡ (cb_ok, append_entry m dump (received e))
    unfolding parse_gate_entries_cb
    read_one e dump h = rw (m.get_type_lem, parse_nested_table m, granted, read_entry-attrs e h)

    -- The walk over a written list appends its entries in order and counts them.
    pub read_list :
        (es : List GateEntry) (dump : GateDump)
        → All IsEntry es
        → dump.num_entries + length es < 2 ^ 32
        → each_from (parse_gate_entries_cb m realloc) cb_ok (entries_attrs m es) dump ≡ (
          cb_ok,
          record dump {
            entries = dump.entries ++ map received es;
            num_entries = dump.num_entries + length es;
          },
        )
    unfolding each_from entries_attrs
    read_list [] dump h fits = ground (arith, append-nil dump.entries)
    read_list (e ∷ es) dump h fits = rw (read_one e dump h.0) (
        read_list es (append_entry m dump (received e)) h.1 (omega arith)
        ∙ ground (arith, append_assoc dump.entries (received e ∷ []) (map received es)))
