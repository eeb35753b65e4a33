-- ===== src/Gate/Tables.antt =====
-- The tables that the parsers fill, as lookups in the tree that was read.
use gatebench.Base.{
  ℕ, ◌≤◌, ◌≡◌, refl, ◌∙◌, Bool, ◌&&◌, none, some, arith, leb, ◌==◌, if◌then◌else◌, Bool-cases, inl,
  inr, ap,
}
use gatebench.Mnl.{Mnl}
use gatebench.Mnl.Tlv.{
  Attr, Attrs, nil, cons, nest, attr_type, cb_ok, each_from, later, last_attr, ◌⧺◌,
}
use gatebench.Mnl.Writing.{Draft}
use gatebench.Gate.Trees.{given, numbered_message}
use gatebench.Gate.Parse.{
  Table, no_attrs, put_at, mnl_attr_cb_copy, parse_nested_attrs_limited, parse_attrs_limited,
}

-- The table after the walk.
filled : ℕ → Attrs → Table → Table
filled max nil tb = tb
filled max (cons a f) tb =
    filled max f (if leb (attr_type a) max then put_at (attr_type a) a tb else tb)

filled-at :
    (max : ℕ) (f : Attrs) (tb : Table) (k : ℕ)
    → k ≤ max
    → filled max f tb k ≡ later (last_attr k f) (tb k)
unfolding filled last_attr
filled-at max nil tb k h = refl
filled-at max (cons a f) tb k h =
    filled-at max f (if leb (attr_type a) max then put_at (attr_type a) a tb else tb) k h
    ∙ ground arith

pub last_attr-append :
    (k : ℕ) (f g : Attrs) → last_attr k (f ⧺ g) ≡ later (last_attr k g) (last_attr k f)
unfolding last_attr
last_attr-append k nil g = ground arith
last_attr-append k (cons a f) g = ground (arith, last_attr-append k f g)

pub last_attr-given :
    (k : ℕ) (c : Bool) (a : Attr)
    → last_attr k (given c a) ≡ (if (attr_type a == k) && c then some a else none)
unfolding last_attr
last_attr-given k c a = ground arith

-- The table of a nest, and what stands in it.
pub nest_table : ℕ → Attrs → Table
nest_table max f = filled max f no_attrs

pub nest_table-at : (max : ℕ) (f : Attrs) (k : ℕ) → k ≤ max → nest_table max f k ≡ last_attr k f
unfolding nest_table
nest_table-at max f k h = filled-at max f no_attrs k h ∙ ground arith

module _ (m : Mnl) where
  copy_step :
      (max : ℕ) (a : Attr) (tb : Table)
      → mnl_attr_cb_copy m max a tb
        ≡ (cb_ok, if leb (attr_type a) max then put_at (attr_type a) a tb else tb)
  unfolding mnl_attr_cb_copy
  copy_step max a tb =
      rw (m.get_type_lem a)
        (elim (Bool-cases (leb (attr_type a) max)) [ inl e ↦ rw e | inr e ↦ rw e ])

  each_copy :
      (max : ℕ) (f : Attrs) (tb : Table)
      → each_from (mnl_attr_cb_copy m max) cb_ok f tb ≡ (cb_ok, filled max f tb)
  unfolding each_from filled
  each_copy max nil tb = refl
  each_copy max (cons a f) tb = rw (copy_step max a tb) (each_copy max f _)

  pub parse_nested_table :
      (t : ℕ) (f : Attrs) (max : ℕ)
      → parse_nested_attrs_limited m (nest t f) max ≡ (cb_ok, nest_table max f)
  unfolding parse_nested_attrs_limited nest_table
  parse_nested_table t f max = m.parse_nested_lem Table t f _ no_attrs ∙ each_copy max f no_attrs

  pub parse_root_table :
      (b : m.Buf) (seq type flags : ℕ) (f : Attrs) (max : ℕ)
      → m.draft b ≡ numbered_message seq type flags f
      → parse_attrs_limited m b 4 max ≡ (cb_ok, nest_table max f)
  unfolding parse_attrs_limited nest_table
  parse_root_table b seq type flags f max e =
      (rw e at
        (m.parse_lem Table b (mnl_attr_cb_copy m max) no_attrs (ap (λ (d : Draft). d.enclosing) e)))
      ∙ each_copy max f no_attrs
