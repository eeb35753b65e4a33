-- ===== src/Tests/SampleMnl.antt =====
-- A libmnl for the runs, whose buffer is the draft of its message.
use gatebench.Base.{refl, []}
use gatebench.Base.Libc.{Bytes}
use gatebench.Mnl.{Mnl}
use gatebench.Mnl.Tlv.{Attr, Attrs, leaf, nest, nil, attr_type, each}
use gatebench.Mnl.Writing.{Draft, header_only, add, open_nest, draft_size}
use gatebench.Tests.SampleBytes.{
  u32_bytes, u32_of, u32_of-bytes, u64_bytes, u64_of, u64_of-bytes, strz_bytes, str_of, str_of-strz,
  length-strz,
}
use gatebench.Tests.SampleDraft.{close_nest, close_nest_lem, wrap_at, wrap_at_lem}

abbrev payload : Attr → Bytes
payload (leaf t bs) = bs
payload (nest t f) = []

abbrev nested : Attr → Attrs
nested (leaf t bs) = nil
nested (nest t f) = f

abbrev pub sample_mnl : Mnl
sample_mnl = record {
  Buf = Draft;
  put_header = λ b. header_only;
  set_nlmsg_type = λ b t. record b { nlmsg_type = t };
  set_nlmsg_flags = λ b f. record b { nlmsg_flags = f };
  set_nlmsg_seq = λ b n. record b { nlmsg_seq = n };
  put_extra_header = λ b n. record b { extra = n };
  attr_put = λ b t bs. add (leaf t bs) b;
  attr_put_u32 = λ b t v. add (leaf t (u32_bytes v)) b;
  attr_put_u64 = λ b t v. add (leaf t (u64_bytes v)) b;
  attr_put_strz = λ b t s. add (leaf t (strz_bytes s)) b;
  attr_nest_start = λ b t. (open_nest (draft_size b) t b, draft_size b);
  attr_nest_end = λ b n. close_nest b;
  set_nla_len = λ b n len. wrap_at n b;
  nlmsg_len = λ b. draft_size b;
  attr_get_type = λ a. attr_type a;
  attr_get_u32 = λ a. u32_of (payload a);
  attr_get_u64 = λ a. u64_of (payload a);
  attr_get_str = λ a. str_of (payload a);
  attr_get_payload = λ a. payload a;
  attr_parse_nested = λ S a cb s. each cb (nested a) s;
  attr_parse = λ S b n cb s. each cb b.body s;
  u32_bytes = λ v. u32_bytes v;
  u64_bytes = λ v. u64_bytes v;
  strz_bytes = λ s. strz_bytes s;
  u32_of = λ bs. u32_of bs;
  u64_of = λ bs. u64_of bs;
  length-u32_bytes = λ v. refl;
  length-u64_bytes = λ v. refl;
  length-strz_bytes = length-strz;
  u32_of-bytes = u32_of-bytes;
  u64_of-bytes = u64_of-bytes;
  draft = λ b. b;
  draft-put_header = λ b. refl;
  draft-set_type = λ b t. refl;
  draft-set_flags = λ b f. refl;
  draft-set_seq = λ b n. refl;
  draft-put_extra = λ b n. refl;
  draft-put = λ b t bs. refl;
  draft-put_u32 = λ b t v. refl;
  draft-put_u64 = λ b t v. refl;
  draft-put_strz = λ b t s. refl;
  draft-nest_start = λ b t. refl;
  draft-nest_end = λ b n t d f small e. close_nest_lem b n t d f e;
  draft-set_nla_len = λ b n len t d f e h l. wrap_at_lem b n t d f e h;
  nlmsg_len-draft = λ b. refl;
  get_type_lem = λ a. refl;
  get_u32_leaf = λ t bs. refl;
  get_u64_leaf = λ t bs. refl;
  get_str_leaf = λ t s h. str_of-strz s h;
  get_payload_leaf = λ t bs. refl;
  parse_nested_lem = λ S t f cb s. refl;
  parse_lem = λ S b cb s e. refl;
}
