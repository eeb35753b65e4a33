-- ===== src/Mnl.antt =====
-- libmnl, as a parameter: the calls that build and read netlink messages, and what the program relies
-- on. The data it works on is the netlink format: attributes with a type and a payload of bytes or of
-- further attributes.
pub mod Tlv
pub mod Writing
pub mod Writes
use gatebench.Base.{ℕ, Bool, false, ◌+◌, ◌<◌, ◌^◌, ◌%◌, ◌≡◌, List, [], ◌∷◌, ◌++◌, ℤ, length}
use gatebench.Base.Libc.{Bytes}
use Tlv.{has_nul, Attr, Attrs, leaf, nest, attr_type, each, attrs_size}
use Writing.{Draft, header_only, add_all, add, open_nest, draft_size}

pub record Mnl : Type 1 where
  -- a buffer that holds a message
  pub Buf : Type 0
  -- writing: each call returns the buffer as it leaves it; a pointer to an open nest is its offset
  pub put_header : Buf → Buf
  pub set_nlmsg_type : Buf → ℕ → Buf
  pub set_nlmsg_flags : Buf → ℕ → Buf
  pub set_nlmsg_seq : Buf → ℕ → Buf
  pub put_extra_header : Buf → ℕ → Buf
  pub attr_put : Buf → ℕ → Bytes → Buf
  pub attr_put_u32 : Buf → ℕ → ℕ → Buf
  pub attr_put_u64 : Buf → ℕ → ℕ → Buf
  pub attr_put_strz : Buf → ℕ → Bytes → Buf
  pub attr_nest_start : Buf → ℕ → Buf × ℕ
  pub attr_nest_end : Buf → ℕ → Buf
  -- nest->nla_len = len, for the attribute at an offset
  pub set_nla_len : Buf → ℕ → ℕ → Buf
  pub nlmsg_len : Buf → ℕ
  -- reading
  pub attr_get_type : Attr → ℕ
  pub attr_get_u32 : Attr → ℕ
  pub attr_get_u64 : Attr → ℕ
  pub attr_get_str : Attr → Bytes
  pub attr_get_payload : Attr → Bytes
  pub attr_parse_nested : (S : Type 0) → Attr → (Attr → S → ℤ × S) → S → ℤ × S
  pub attr_parse : (S : Type 0) → Buf → ℕ → (Attr → S → ℤ × S) → S → ℤ × S
  -- how the machine lays out integers and strings
  pub u32_bytes : ℕ → Bytes
  pub u64_bytes : ℕ → Bytes
  pub strz_bytes : Bytes → Bytes
  pub u32_of : Bytes → ℕ
  pub u64_of : Bytes → ℕ
  pub length-u32_bytes : (v : ℕ) → length (u32_bytes v) ≡ 4
  pub length-u64_bytes : (v : ℕ) → length (u64_bytes v) ≡ 8
  pub length-strz_bytes : (s : Bytes) → length (strz_bytes s) ≡ length s + 1
  pub u32_of-bytes : (v : ℕ) (rest : Bytes) → v < 2 ^ 32 → u32_of (u32_bytes v ++ rest) ≡ v
  pub u64_of-bytes : (v : ℕ) (rest : Bytes) → v < 2 ^ 64 → u64_of (u64_bytes v ++ rest) ≡ v
  -- what a buffer holds while it is written
  pub draft : Buf → Draft
  pub draft-put_header : (b : Buf) → draft (put_header b) ≡ header_only
  pub draft-set_type :
      (b : Buf) (t : ℕ) → draft (set_nlmsg_type b t) ≡ record (draft b) { nlmsg_type = t }
  pub draft-set_flags :
      (b : Buf) (f : ℕ) → draft (set_nlmsg_flags b f) ≡ record (draft b) { nlmsg_flags = f }
  pub draft-set_seq :
      (b : Buf) (n : ℕ) → draft (set_nlmsg_seq b n) ≡ record (draft b) { nlmsg_seq = n }
  pub draft-put_extra :
      (b : Buf) (n : ℕ) → draft (put_extra_header b n) ≡ record (draft b) { extra = n }
  pub draft-put :
      (b : Buf) (t : ℕ) (bs : Bytes) → draft (attr_put b t bs) ≡ add (leaf t bs) (draft b)
  pub draft-put_u32 :
      (b : Buf) (t v : ℕ) → draft (attr_put_u32 b t v) ≡ add (leaf t (u32_bytes v)) (draft b)
  pub draft-put_u64 :
      (b : Buf) (t v : ℕ) → draft (attr_put_u64 b t v) ≡ add (leaf t (u64_bytes v)) (draft b)
  pub draft-put_strz :
      (b : Buf) (t : ℕ) (s : Bytes)
      → draft (attr_put_strz b t s) ≡ add (leaf t (strz_bytes s)) (draft b)
  pub draft-nest_start :
      (b : Buf) (t : ℕ)
      → draft (attr_nest_start b t).0 ≡ open_nest (attr_nest_start b t).1 t (draft b)
  -- closing the innermost nest makes one attribute of what was put since, if its 16-bit length holds it
  pub draft-nest_end :
      (b : Buf) (n t : ℕ) (d : Draft) (f : Attrs)
      → attrs_size f + 4 < 2 ^ 16
      → draft b ≡ add_all f (open_nest n t d)
      → draft (attr_nest_end b n) ≡ add (nest t f) d
  -- an empty attribute whose length is set to reach the tail takes in what follows it
  pub draft-set_nla_len :
      (b : Buf) (n len t : ℕ) (d : Draft) (f : Attrs)
      → draft b ≡ add_all f (add (leaf t []) d)
      → n ≡ draft_size d
      → n + len ≡ draft_size (draft b)
      → draft (set_nla_len b n len) ≡ add (nest t f) d
  pub nlmsg_len-draft : (b : Buf) → nlmsg_len b ≡ draft_size (draft b)
  -- what is read is what is there; the callback is called for each attribute in order
  pub get_type_lem : (a : Attr) → attr_get_type a ≡ attr_type a
  pub get_u32_leaf : (t : ℕ) (bs : Bytes) → attr_get_u32 (leaf t bs) ≡ u32_of bs
  pub get_u64_leaf : (t : ℕ) (bs : Bytes) → attr_get_u64 (leaf t bs) ≡ u64_of bs
  pub get_str_leaf :
      (t : ℕ) (s : Bytes) → has_nul s ≡ false → attr_get_str (leaf t (strz_bytes s)) ≡ s
  pub get_payload_leaf : (t : ℕ) (bs : Bytes) → attr_get_payload (leaf t bs) ≡ bs
  pub parse_nested_lem :
      (S : Type 0) (t : ℕ) (f : Attrs) (cb : Attr → S → ℤ × S) (s : S)
      → attr_parse_nested S (nest t f) cb s ≡ each cb f s
  pub parse_lem :
      (S : Type 0) (b : Buf) (cb : Attr → S → ℤ × S) (s : S)
      → (draft b).enclosing ≡ []
      → attr_parse S b (draft b).extra cb s ≡ each cb (draft b).body s
