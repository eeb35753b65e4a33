-- ===== src/Mnl/Writing.antt =====
-- What is known of a message under construction.
use gatebench.Base.{ℕ, ◌+◌, ◌≡◌, ap, List, [], ◌∷◌}
use gatebench.Mnl.Tlv.{Attr, Attrs, nil, one, ◌⧺◌, ⧺_assoc, align4, attrs_size}

-- A nest that is still open: its offset and type, and the attributes that stand before it on its
-- level.
pub record Frame : Type 0 where
  pub start : ℕ
  pub kind : ℕ
  pub before : Attrs

-- `body` holds the attributes of the innermost level, `enclosing` the open nests, innermost first.
pub record Draft : Type 0 where
  pub nlmsg_type : ℕ
  pub nlmsg_flags : ℕ
  pub nlmsg_seq : ℕ
  pub extra : ℕ
  pub enclosing : List Frame
  pub body : Attrs

abbrev pub header_only : Draft
header_only = record {
  nlmsg_type = 0;
  nlmsg_flags = 0;
  nlmsg_seq = 0;
  extra = 0;
  enclosing = [];
  body = nil;
}

abbrev pub add_all : Attrs → Draft → Draft
add_all f d = record d { body = d.body ⧺ f }

abbrev pub add : Attr → Draft → Draft
add a d = add_all (one a) d

abbrev pub open_nest : ℕ → ℕ → Draft → Draft
open_nest start kind d = record d {
  enclosing = record { start = start; kind = kind; before = d.body } ∷ d.enclosing;
  body = nil;
}

-- NLMSG_HDRLEN
abbrev pub nlmsg_hdrlen : ℕ
nlmsg_hdrlen = 16

abbrev pub frames_size : List Frame → ℕ
frames_size [] = 0
frames_size (fr ∷ frs) = 4 + attrs_size fr.before + frames_size frs

abbrev pub draft_size : Draft → ℕ
draft_size d = nlmsg_hdrlen + align4 d.extra + frames_size d.enclosing + attrs_size d.body

pub add_all_twice : (f g : Attrs) (d : Draft) → add_all g (add_all f d) ≡ add_all (f ⧺ g) d
add_all_twice f g d = ap (λ b. record d { body = b }) (⧺_assoc d.body f g)
