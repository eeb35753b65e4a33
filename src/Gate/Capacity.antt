-- ===== src/Gate/Capacity.antt =====
-- gate_msg_capacity of src/gate_msg.c, and that the messages fit the buffers of that size.
use gatebench.Base.{
  ℕ, ◌+◌, ◌*◌, ◌/◌, ◌%◌, ◌≤◌, ◌≡◌, List, ℤ, arith, ltb, if◌then◌else◌, length, ap, u32_mod,
}
use gatebench.Config.{gb_max_entries}
use gatebench.Mnl.{Mnl}
use gatebench.Mnl.Tlv.{one, nest, nil, attrs_size}
use gatebench.Mnl.Writing.{draft_size}
use gatebench.Gate.Types.{GateShape, GateEntry}
use gatebench.Gate.Numbers.{tca_act_options}
use gatebench.Gate.Build.{newaction, delaction, getaction_ex}
use gatebench.Gate.Trees.{option_attrs}
use gatebench.Gate.Sizes.{options_size, action_size}
use gatebench.Gate.Contents.{newaction_contents, by_index_contents}

-- (size_t)entries * 96, capped at 1024 * 1024
abbrev pub entry_room : ℕ → ℕ
entry_room entries = if ltb 1048576 (entries * 96) then 1048576 else entries * 96

abbrev pub at_least : ℕ → ℕ → ℕ
at_least low cap = if ltb cap low then low else cap

-- `socket_buffer` is MNL_SOCKET_BUFFER_SIZE. The mask ~4095u clears the low 12 bits, and as a 32-bit
-- constant the bits from 32 on.
unfoldable pub gate_msg_capacity : ℕ → ℕ → ℕ → ℕ
gate_msg_capacity socket_buffer entries flags =
    let cap = if ltb 0 entries then 2048 + entry_room entries else 2048 in
    (at_least socket_buffer cap + 4095) / 4096 * 4096 % u32_mod

module _ (m : Mnl) where
  -- A message of build_gate_newaction with up to 64 entries is no longer than the capacity that its
  -- callers allocate for that number of entries, whatever the optional attributes, with a socket
  -- buffer size of at most 8192 as libmnl has it.
  pub newaction-le-capacity :
      (socket_buffer index : ℕ) (shape : GateShape) (es : List GateEntry)
      (nlmsg_flags gate_flags flags : ℕ) (priority : ℤ) (b : m.Buf)
      → socket_buffer ≤ 8192
      → length es ≤ gb_max_entries
      → m.nlmsg_len (newaction m index shape es (length es) nlmsg_flags gate_flags priority b)
        ≤ gate_msg_capacity socket_buffer (length es) flags
  unfolding gate_msg_capacity attrs_size
  newaction-le-capacity socket_buffer index shape es nlmsg_flags gate_flags flags priority b low
        few =
      ground (
        arith,
        m.nlmsg_len-draft
            (newaction m index shape es (length es) nlmsg_flags gate_flags priority b),
        ap draft_size (
            newaction_contents m index shape es (length es) nlmsg_flags gate_flags priority b
              (omega arith)),
        action_size m index (
            one (
              nest tca_act_options
                (option_attrs m index shape es (length es) gate_flags priority))),
        options_size m index shape es (length es) gate_flags priority,
      )

  -- The requests that name an action by its index take 48 bytes, of the 1024 that are allocated.
  pub by_index_length :
      (index nlmsg_flags : ℕ) (b : m.Buf)
      → (m.nlmsg_len (delaction m index b) ≡ 48)
        × (m.nlmsg_len (getaction_ex m index nlmsg_flags b) ≡ 48)
  unfolding attrs_size
  by_index_length index nlmsg_flags b =
      let (p, q) = by_index_contents m index nlmsg_flags b in
      (
        omega (
          arith,
          m.nlmsg_len-draft (delaction m index b),
          ap draft_size p,
          action_size m index nil,
        ),
        omega (
          arith,
          m.nlmsg_len-draft (getaction_ex m index nlmsg_flags b),
          ap draft_size q,
          action_size m index nil,
        ),
      )
