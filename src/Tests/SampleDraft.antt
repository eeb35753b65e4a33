-- ===== src/Tests/SampleDraft.antt =====
-- A netlink message as the draft it is, for the runs: the operations that open and close nests.
use gatebench.Base.{ℕ, ◌+◌, ◌-◌, ◌≤◌, ◌≡◌, refl, false, ap, [], ◌∷◌, arith, ◌==◌, if◌then◌else◌}
use gatebench.Mnl.Tlv.{Attr, Attrs, leaf, nest, nil, cons, one, ◌⧺◌, ⧺_assoc, attr_size, attrs_size}
use gatebench.Mnl.Writing.{Draft, add, add_all, open_nest, draft_size}

-- The innermost nest becomes an attribute of the level around it.
abbrev pub close_nest : Draft → Draft
close_nest d = elim d.enclosing [
  | [] ↦ d
  | fr ∷ frs ↦ record d { enclosing = frs; body = fr.before ⧺ one (nest fr.kind d.body) }
]

-- The attributes before and from an offset.
unfoldable pub before : ℕ → Attrs → Attrs
before n nil = nil
before n (cons a f) = let rest = before (n - attr_size a) f in if n == 0 then nil else cons a rest

unfoldable pub behind : ℕ → Attrs → Attrs
behind n nil = nil
behind n (cons a f) = let rest = behind (n - attr_size a) f in if n == 0 then cons a f else rest

abbrev kind_of : Attr → ℕ
kind_of (leaf t bs) = t
kind_of (nest t f) = t

abbrev pub wrap : Attrs → Attrs
wrap nil = nil
wrap (cons a f) = one (nest (kind_of a) f)

size_pos : (a : Attr) → 4 ≤ attr_size a
unfolding attr_size
size_pos (leaf t bs) = omega arith
size_pos (nest t f) = omega arith

minus : (a b : ℕ) → a + b - a ≡ b
minus a b = omega arith

nonzero : (a : Attr) (n : ℕ) → (attr_size a + n == 0) ≡ false
nonzero a n = ground (arith, size_pos a)

before-append : (f g : Attrs) → before (attrs_size f) (f ⧺ g) ≡ f
unfolding before attrs_size
before-append nil nil = refl
before-append nil (cons a g) = refl
before-append (cons a f) g =
    rw (before, nonzero a (attrs_size f), minus (attr_size a) (attrs_size f))
      (ap (cons a) (before-append f g))

behind-append : (f : Attrs) (a : Attr) (g : Attrs) → behind (attrs_size f) (f ⧺ cons a g) ≡ cons a g
unfolding behind attrs_size
behind-append nil a g = refl
behind-append (cons b f) a g =
    rw (behind, nonzero b (attrs_size f), minus (attr_size b) (attrs_size f)) (behind-append f a g)

-- The offset of the attributes of the innermost level.
abbrev pub body_start : Draft → ℕ
body_start d = draft_size (record d { body = nil })

-- The attribute at an offset, with what follows it, becomes a nest.
abbrev pub wrap_at : ℕ → Draft → Draft
wrap_at n d = record d {
  body = before (n - body_start d) d.body ⧺ wrap (behind (n - body_start d) d.body);
}

offset_lem : (d : Draft) → draft_size d - body_start d ≡ attrs_size d.body
unfolding attrs_size
offset_lem d = omega arith

pub wrap_at_lem :
    (b : Draft) (n t : ℕ) (d : Draft) (f : Attrs)
    → b ≡ add_all f (add (leaf t []) d)
    → n ≡ draft_size d
    → wrap_at n b ≡ add (nest t f) d
wrap_at_lem b n t d f e h =
    rw
      (
        e,
        h,
        offset_lem d,
        ⧺_assoc d.body (one (leaf t [])) f,
        before-append d.body (cons (leaf t []) f),
        behind-append d.body (leaf t []) f,
      )
      refl

pub close_nest_lem :
    (b : Draft) (n t : ℕ) (d : Draft) (f : Attrs)
    → b ≡ add_all f (open_nest n t d)
    → close_nest b ≡ add (nest t f) d
close_nest_lem b n t d f e = rw e refl
