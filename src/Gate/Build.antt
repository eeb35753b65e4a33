-- ===== src/Gate/Build.antt =====
-- The messages of src/gate_msg.c to the kernel.
use Prim.Native.Nat.{bit_or}
use gatebench.Base.{
  ℕ, not, Option, none, some, List, [], ◌∷◌, ◌++◌, ℤ, pos, neg, einval, ltb, ◌==◌, ◌==ℤ◌,
  if◌then◌else◌, is_some, first_cells,
}
use gatebench.Base.Libc.{Bytes}
use gatebench.Mnl.{Mnl}
use gatebench.Mnl.Writes.{◌⨾◌, when, in_nest, in_raw_nest}
use gatebench.Gate.Types.{GateShape, GateEntry, NlMsg, to_u32}
use gatebench.Gate.Numbers.{
  rtm_newaction, rtm_delaction, rtm_getaction, tc_act_pipe, nlm_f_request, nlm_f_ack, nlm_f_root,
  nlm_f_dump, tca_act_tab, gatebench_act_prio, tca_root_flags, tca_act_kind, tca_act_options,
  tca_act_index, tca_act_flag_large_dump_on, tca_gate_parms, tca_gate_priority, tca_gate_entry_list,
  tca_gate_base_time, tca_gate_cycle_time, tca_gate_cycle_time_ext, tca_gate_flags,
  tca_gate_clockid, tca_gate_one_entry, tca_gate_entry_gate, tca_gate_entry_interval,
  tca_gate_entry_ipv, tca_gate_entry_max_octets, gate_kind,
}

module _ (m : Mnl) where
  open m use {Buf}

  -- One call after another.
  infixr 20 ◌▹◌
  abbrev pub ◌▹◌ : (Buf → Buf) → (Buf → Buf) → Buf → Buf
  ◌▹◌ = ◌⨾◌ m

  abbrev pub add_attr_u32 : ℕ → ℕ → Buf → Buf
  add_attr_u32 type value b = m.attr_put_u32 b type value

  -- sizeof(value) bytes at &value
  abbrev pub add_attr_s32 : ℕ → ℤ → Buf → Buf
  add_attr_s32 type value b = m.attr_put b type (m.u32_bytes (to_u32 value))

  abbrev pub add_attr_u64 : ℕ → ℕ → Buf → Buf
  add_attr_u64 type value b = m.attr_put_u64 b type value

  abbrev pub add_attr_strz : ℕ → Bytes → Buf → Buf
  add_attr_strz type str b = m.attr_put_strz b type str

  abbrev pub put_bytes : ℕ → Bytes → Buf → Buf
  put_bytes type bytes b = m.attr_put b type bytes

  -- struct tc_gate { index, capab, action, refcnt, bindcnt }, all but two fields zero
  abbrev pub tc_gate_bytes : ℕ → ℕ → Bytes
  tc_gate_bytes index action =
      m.u32_bytes index
      ++ (m.u32_bytes 0 ++ (m.u32_bytes action ++ (m.u32_bytes 0 ++ m.u32_bytes 0)))

  -- struct nla_bitfield32 with value and selector TCA_ACT_FLAG_LARGE_DUMP_ON
  abbrev pub large_dump_bytes : Bytes
  large_dump_bytes =
      m.u32_bytes tca_act_flag_large_dump_on ++ m.u32_bytes tca_act_flag_large_dump_on

  -- The header of each message, and the zeroed struct tcamsg of 4 bytes behind it (AF_UNSPEC is 0).
  unfoldable pub start_message : ℕ → ℕ → Buf → Buf
  start_message type flags b =
      m.put_extra_header
        (m.set_nlmsg_seq (m.set_nlmsg_flags (m.set_nlmsg_type (m.put_header b) type) flags) 0) 4

  unfoldable pub put_entry : GateEntry → Buf → Buf
  put_entry e = in_nest m tca_gate_one_entry (
      when m e.gate_state (put_bytes tca_gate_entry_gate [])
      ▹ add_attr_u32 tca_gate_entry_interval e.interval
      ▹ add_attr_s32 tca_gate_entry_ipv e.ipv
      ▹ add_attr_s32 tca_gate_entry_max_octets e.maxoctets)

  -- for (i = 0; i < num_entries; i++) { ... }
  unfoldable pub put_entries : List GateEntry → Buf → Buf
  put_entries [] b = b
  put_entries (e ∷ es) b = put_entries es (put_entry e b)

  -- The options of a gate, between the start and the end of nest_opts.
  unfoldable pub put_options : ℕ → GateShape → List GateEntry → ℕ → ℕ → ℤ → Buf → Buf
  put_options index shape es num_entries gate_flags priority =
      put_bytes tca_gate_parms (tc_gate_bytes index tc_act_pipe)
      ▹ add_attr_u32 tca_gate_clockid shape.clockid
      ▹ add_attr_u64 tca_gate_base_time shape.base_time
      ▹ add_attr_u64 tca_gate_cycle_time shape.cycle_time
      ▹ when m (not (shape.cycle_time_ext == 0))
          (add_attr_u64 tca_gate_cycle_time_ext shape.cycle_time_ext)
      ▹ when m (not (priority ==ℤ neg 1)) (add_attr_s32 tca_gate_priority priority)
      ▹ when m (not (gate_flags == 0)) (add_attr_u32 tca_gate_flags gate_flags)
      ▹ when m (ltb 0 num_entries) (in_nest m tca_gate_entry_list (put_entries es))

  -- The whole message of build_gate_newaction.
  unfoldable pub newaction : ℕ → GateShape → List GateEntry → ℕ → ℕ → ℕ → ℤ → Buf → Buf
  newaction index shape es num_entries nlmsg_flags gate_flags priority =
      start_message rtm_newaction (bit_or (bit_or nlm_f_request nlm_f_ack) nlmsg_flags)
      ▹ in_nest m tca_act_tab (
          in_nest m gatebench_act_prio (
            add_attr_strz tca_act_kind gate_kind
            ▹ add_attr_u32 tca_act_index index
            ▹ in_nest m tca_act_options
                (put_options index shape es num_entries gate_flags priority)))

  -- The attributes that name one action, as three of the messages have them.
  unfoldable pub by_index : ℕ → Buf → Buf
  by_index index = in_nest m tca_act_tab (
      in_nest m gatebench_act_prio
        (add_attr_strz tca_act_kind gate_kind ▹ add_attr_u32 tca_act_index index))

  -- The attributes that name the kind, in raw nests, and the flag for a large dump.
  unfoldable pub by_kind : Buf → Buf
  by_kind =
      in_raw_nest m tca_act_tab
        (in_raw_nest m gatebench_act_prio (add_attr_strz tca_act_kind gate_kind))
      ▹ put_bytes tca_root_flags large_dump_bytes

  unfoldable pub delaction : ℕ → Buf → Buf
  delaction index = start_message rtm_delaction (bit_or nlm_f_request nlm_f_ack) ▹ by_index index

  unfoldable pub flushaction : Buf → Buf
  flushaction =
      start_message rtm_delaction (bit_or (bit_or nlm_f_request nlm_f_ack) nlm_f_root) ▹ by_kind

  unfoldable pub getaction_ex : ℕ → ℕ → Buf → Buf
  getaction_ex index nlmsg_flags =
      start_message rtm_getaction (bit_or nlm_f_request nlmsg_flags) ▹ by_index index

  unfoldable pub dumpaction : Buf → Buf
  dumpaction = start_message rtm_getaction (bit_or nlm_f_request nlm_f_dump) ▹ by_kind

  -- if (!msg || !msg->buf) return -EINVAL; ... msg->len = nlh->nlmsg_len; return 0;
  abbrev pub build_into : Option (NlMsg Buf) → (Buf → Buf) → ℤ × Option (NlMsg Buf)
  build_into none write = (neg einval, none)
  build_into (some msg) write = elim msg.buf [
    | none ↦ (neg einval, some msg)
    | some b ↦ (pos 0, some (record msg { buf = some (write b); len = m.nlmsg_len (write b) }))
  ]

  unfoldable pub build_gate_delaction : Option (NlMsg Buf) → ℕ → ℤ × Option (NlMsg Buf)
  build_gate_delaction msg index = build_into msg (delaction index)

  unfoldable pub build_gate_flushaction : Option (NlMsg Buf) → ℤ × Option (NlMsg Buf)
  build_gate_flushaction msg = build_into msg flushaction

  unfoldable pub build_gate_getaction_ex : Option (NlMsg Buf) → ℕ → ℕ → ℤ × Option (NlMsg Buf)
  build_gate_getaction_ex msg index nlmsg_flags = build_into msg (getaction_ex index nlmsg_flags)

  unfoldable pub build_gate_getaction : Option (NlMsg Buf) → ℕ → ℤ × Option (NlMsg Buf)
  unfolding build_gate_getaction_ex
  build_gate_getaction msg index = build_gate_getaction_ex msg index 0

  unfoldable pub build_gate_dumpaction : Option (NlMsg Buf) → ℤ × Option (NlMsg Buf)
  build_gate_dumpaction msg = build_into msg dumpaction

  -- The part of build_gate_newaction behind its tests of `msg` and `shape`; `cells` are the entries
  -- that may be read, and the result is `none` if the loop reads behind them.
  abbrev pub newaction_checked :
      Option (NlMsg Buf)
      → ℕ
      → GateShape
      → Option (List GateEntry)
      → ℕ
      → ℕ
      → ℕ
      → ℤ
      → Option (ℤ × Option (NlMsg Buf))
  newaction_checked msg index shape none num_entries nlmsg_flags gate_flags priority =
      if ltb 0 num_entries
      then some (neg einval, msg)
      else some (build_into msg (newaction index shape [] 0 nlmsg_flags gate_flags priority))
  newaction_checked msg index shape (some cells) num_entries nlmsg_flags gate_flags priority =
      elim (first_cells num_entries cells) [
        | none ↦ none
        | some es ↦
            some (
              build_into msg (newaction index shape es num_entries nlmsg_flags gate_flags priority))
      ]

  unfoldable pub build_gate_newaction :
      Option (NlMsg Buf)
      → ℕ
      → Option GateShape
      → Option (List GateEntry)
      → ℕ
      → ℕ
      → ℕ
      → ℤ
      → Option (ℤ × Option (NlMsg Buf))
  build_gate_newaction none index shape entries num_entries nlmsg_flags gate_flags priority =
      some (neg einval, none)
  build_gate_newaction (some msg) index none entries num_entries nlmsg_flags gate_flags priority =
      some (neg einval, some msg)
  build_gate_newaction (some msg) index (some shape) entries num_entries nlmsg_flags gate_flags
        priority =
      if is_some msg.buf
      then newaction_checked (some msg) index shape entries num_entries nlmsg_flags gate_flags
          priority
      else some (neg einval, some msg)
