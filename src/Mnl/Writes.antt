-- ===== src/Mnl/Writes.antt =====
-- Writing to a message step by step, and what the steps leave in it.
use gatebench.Base.{
  ℕ, ◌+◌, ◌-◌, ◌%◌, ◌^◌, ◌<◌, ◌≡◌, sym, ap, ◌∙◌, Bool, true, false, if◌then◌else◌, arith, [],
}
use gatebench.Base.Libc.{Bytes}
use gatebench.Mnl.{Mnl}
use gatebench.Mnl.Tlv.{Attrs, leaf, nest, nil, one, ◌⧺◌, ⧺-nil, attrs_size, attrs_size-append}
use gatebench.Mnl.Writing.{Draft, add_all, add, draft_size, add_all_twice}

-- An empty attribute and those behind it add their sizes.
size_behind_empty :
    (t : ℕ) (f : Attrs) (d : Draft)
    → draft_size (add_all f (add (leaf t []) d)) ≡ draft_size d + (attrs_size f + 4)
unfolding attrs_size
size_behind_empty t f d = omega (
  arith,
  attrs_size-append (d.body ⧺ one (leaf t [])) f,
  attrs_size-append d.body (one (leaf t [])),
)

module _ (m : Mnl) where
  open m use {Buf}

  -- One call after another.
  infixr 20 ◌⨾◌
  abbrev pub ◌⨾◌ : (Buf → Buf) → (Buf → Buf) → Buf → Buf
  ◌⨾◌ g h b = h (g b)

  -- if (c) call;
  abbrev pub when : Bool → (Buf → Buf) → Buf → Buf
  when c g b = if c then g b else b

  -- nest = mnl_attr_nest_start(nlh, type); body; mnl_attr_nest_end(nlh, nest);
  unfoldable pub in_nest : ℕ → (Buf → Buf) → Buf → Buf
  in_nest type body b =
      let (inside, start) = m.attr_nest_start b type in m.attr_nest_end (body inside) start

  -- nest = add_attr_nest_raw(nlh, type); body; add_attr_nest_raw_end(nlh, nest);
  unfoldable pub in_raw_nest : ℕ → (Buf → Buf) → Buf → Buf
  in_raw_nest type body b =
      let start = m.nlmsg_len b in
      let b' = body (m.attr_put b type []) in
      m.set_nla_len b' start ((m.nlmsg_len b' - start) % 2 ^ 16)

  -- The step appends the attributes f to the innermost level and does nothing else.
  pub record Writes (g : Buf → Buf) (f : Attrs) : Type 0 where
    pub at : (b : Buf) → m.draft (g b) ≡ add_all f (m.draft b)

  pub Writes-put : (t : ℕ) (bs : Bytes) → Writes (λ b. m.attr_put b t bs) (one (leaf t bs))
  Writes-put t bs = record { at = λ b. m.draft-put b t bs }

  pub Writes-u32 : (t v : ℕ) → Writes (λ b. m.attr_put_u32 b t v) (one (leaf t (m.u32_bytes v)))
  Writes-u32 t v = record { at = λ b. m.draft-put_u32 b t v }

  pub Writes-u64 : (t v : ℕ) → Writes (λ b. m.attr_put_u64 b t v) (one (leaf t (m.u64_bytes v)))
  Writes-u64 t v = record { at = λ b. m.draft-put_u64 b t v }

  pub Writes-strz :
      (t : ℕ) (s : Bytes) → Writes (λ b. m.attr_put_strz b t s) (one (leaf t (m.strz_bytes s)))
  Writes-strz t s = record { at = λ b. m.draft-put_strz b t s }

  pub Writes-nothing : Writes (λ b. b) nil
  Writes-nothing = record {
    at = λ b. ap (λ f. record (m.draft b) { body = f }) (sym (⧺-nil (m.draft b).body));
  }

  pub Writes-then :
      {g h : Buf → Buf} {e f : Attrs} → Writes g e → Writes h f → Writes (g ⨾ h) (e ⧺ f)
  Writes-then {g} {h} {e} {f} p q = record {
    at = λ b. q.at (g b) ∙ ap (add_all f) (p.at b) ∙ add_all_twice e f (m.draft b);
  }

  pub Writes-when :
      (c : Bool) {g : Buf → Buf} {f : Attrs} → Writes g f → Writes (when c g) (if c then f else nil)
  Writes-when true p = p
  Writes-when false p = Writes-nothing

  pub Writes-nest :
      (t : ℕ) {g : Buf → Buf} {f : Attrs}
      → attrs_size f + 4 < 2 ^ 16
      → Writes g f
      → Writes (in_nest t g) (one (nest t f))
  unfolding in_nest
  Writes-nest t {g} {f} small p = record {
    at = λ b.
        let (inside, start) = m.attr_nest_start b t in
        m.draft-nest_end (g inside) start t (m.draft b) f small
          (p.at inside ∙ ap (add_all f) (m.draft-nest_start b t));
  }

  pub Writes-raw_nest :
      (t : ℕ) {g : Buf → Buf} {f : Attrs}
      → attrs_size f + 4 < 2 ^ 16
      → Writes g f
      → Writes (in_raw_nest t g) (one (nest t f))
  unfolding in_raw_nest
  Writes-raw_nest t {g} {f} small p = record {
    at = λ b.
        let b' = g (m.attr_put b t []) in
        let inner : m.draft b' ≡ add_all f (add (leaf t []) (m.draft b)) =
          p.at (m.attr_put b t []) ∙ ap (add_all f) (m.draft-put b t []) in
        m.draft-set_nla_len b' _ _ t (m.draft b) f inner (m.nlmsg_len-draft b) (
          omega (
            arith,
            m.nlmsg_len-draft b,
            m.nlmsg_len-draft b',
            ap draft_size inner,
            size_behind_empty t f (m.draft b),
          ));
  }
