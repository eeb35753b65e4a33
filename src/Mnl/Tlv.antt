-- ===== src/Mnl/Tlv.antt =====
-- Netlink attributes, and the walk of libmnl's parsers over them.
use gatebench.Base.{
  ℕ, Bool, false, ◌||◌, [], ◌∷◌, zero, suc, ◌+◌, ◌*◌, ◌/◌, ◌%◌, ◌^◌, ◌≡◌, refl, ap, Option, none,
  some, ℤ, pos, negsuc, arith, ◌==◌, if◌then◌else◌, length,
}
use gatebench.Base.Libc.{Bytes}

-- The type of a nest is the one that was asked for, without the flag NLA_F_NESTED.
mutual
  pub data Attr : Type 0 where
    leaf : ℕ → Bytes → Attr
    nest : ℕ → Attrs → Attr

  pub data Attrs : Type 0 where
    nil : Attrs
    cons : Attr → Attrs → Attrs

infixr 65 ◌⧺◌
abbrev pub ◌⧺◌ : Attrs → Attrs → Attrs
nil ⧺ g = g
cons a f ⧺ g = cons a (f ⧺ g)

abbrev pub one : Attr → Attrs
one a = cons a nil

pub ⧺_assoc : (f g h : Attrs) → (f ⧺ g) ⧺ h ≡ f ⧺ (g ⧺ h)
⧺_assoc nil g h = refl
⧺_assoc (cons a f) g h = ap (cons a) (⧺_assoc f g h)

pub ⧺-nil : (f : Attrs) → f ⧺ nil ≡ f
⧺-nil nil = refl
⧺-nil (cons a f) = ap (cons a) (⧺-nil f)

-- nla_type & NLA_TYPE_MASK
abbrev pub attr_type : Attr → ℕ
attr_type (leaf t bs) = t % 2 ^ 14
attr_type (nest t f) = t % 2 ^ 14

-- A byte 0 ends a string of C.
abbrev pub has_nul : Bytes → Bool
has_nul [] = false
has_nul (c ∷ cs) = (c == 0) || has_nul cs

-- NLA_ALIGN
abbrev pub align4 : ℕ → ℕ
align4 n = (n + 3) / 4 * 4

-- The room that attributes take: a header of 4 bytes and the payload, padded to 4.
unfoldable mutual
  pub attr_size : Attr → ℕ
  attr_size (leaf t bs) = 4 + align4 (length bs)
  attr_size (nest t f) = 4 + attrs_size f

  pub attrs_size : Attrs → ℕ
  attrs_size nil = 0
  attrs_size (cons a f) = attr_size a + attrs_size f

pub attrs_size-append : (f g : Attrs) → attrs_size (f ⧺ g) ≡ attrs_size f + attrs_size g
unfolding attrs_size
attrs_size-append nil g = omega arith
attrs_size-append (cons a f) g = omega (arith, attrs_size-append f g)

-- MNL_CB_ERROR, MNL_CB_STOP, MNL_CB_OK
abbrev pub cb_error : ℤ
cb_error = negsuc 0

abbrev pub cb_stop : ℤ
cb_stop = pos 0

abbrev pub cb_ok : ℤ
cb_ok = pos 1

-- The walk behind a callback's return: on if it is above MNL_CB_STOP, else its code.
abbrev pub walk_on : {S : Type 0} → ℤ × S → (ℤ → S → ℤ × S) → ℤ × S
walk_on (pos zero, s) rest = (pos zero, s)
walk_on (pos (suc r), s) rest = rest (pos (suc r)) s
walk_on (negsuc r, s) rest = (negsuc r, s)

-- The callback on each attribute in order; the last return is the code of the walk.
unfoldable pub each_from : {S : Type 0} → (Attr → S → ℤ × S) → ℤ → Attrs → S → ℤ × S
each_from cb ret nil s = (ret, s)
each_from cb ret (cons a f) s = walk_on (cb a s) (λ r s'. each_from cb r f s')

abbrev pub each : {S : Type 0} → (Attr → S → ℤ × S) → Attrs → S → ℤ × S
each cb f s = each_from cb cb_ok f s

-- The attribute of type k that stands last, as a table filled in order keeps it.
abbrev pub later : {A : Type 0} → Option A → Option A → Option A
later none o = o
later (some a) o = some a

unfoldable pub last_attr : ℕ → Attrs → Option Attr
last_attr k nil = none
last_attr k (cons a f) = later (last_attr k f) (if attr_type a == k then some a else none)
