-- ===== src/Race/Invalid.antt =====
-- The requests with something wrong that a worker of src/race.c sends.
-- The pointers to the messages are not NULL, as the workers pass them.
use Prim.Native.Nat.{bit_or}
use gatebench.Base.{ℕ, Bool, Option, some, ◌==◌, if◌then◌else◌}
use gatebench.Config.{clock_tai}
use gatebench.Mnl.{Mnl}
use gatebench.Mnl.Writes.{in_nest}
use gatebench.Gate.Build.{◌▹◌, add_attr_u32, add_attr_u64, add_attr_strz, put_bytes, tc_gate_bytes}
use gatebench.Gate.Numbers.{
  rtm_newaction, tc_act_pipe, nlm_f_request, nlm_f_ack, nlm_f_create, nlm_f_excl, tca_act_tab,
  gatebench_act_prio, tca_act_kind, tca_act_index, tca_act_options, tca_gate_parms,
  tca_gate_clockid, tca_gate_base_time, tca_gate_cycle_time, tca_gate_entry_list,
  tca_gate_one_entry, tca_gate_entry_interval, tca_gate_entry_ipv, tca_gate_entry_max_octets,
  gate_kind,
}
use gatebench.Nl.{NlSock}
use gatebench.Nl.Exchange.{Message, World, Exchanged, Answer, gb_nl_send_recv}

-- RACE_INVALID_INTERVAL_NS
abbrev pub race_invalid_interval_ns : ℕ
race_invalid_interval_ns = 1000000

module _ (m : Mnl) where
  open m use {Buf}

  infixr 20 ◌⊳◌
  abbrev ◌⊳◌ : (Buf → Buf) → (Buf → Buf) → Buf → Buf
  ◌⊳◌ = ◌▹◌ m

  -- race_gate_nlmsg_start up to the first nest; AF_UNSPEC is 0
  unfoldable pub race_start : ℕ → Buf → Buf
  race_start flags b =
      m.put_extra_header
        (m.set_nlmsg_flags (m.set_nlmsg_type (m.put_header b) rtm_newaction)
          (bit_or (bit_or nlm_f_request nlm_f_ack) flags))
        4

  -- race_gate_nlmsg_start, the options, race_gate_nlmsg_end
  unfoldable pub race_message : ℕ → ℕ → (Buf → Buf) → Buf → Buf
  unfolding race_start in_nest
  race_message flags index options =
      race_start flags
      ⊳ in_nest m tca_act_tab (
          in_nest m gatebench_act_prio (
            add_attr_strz m tca_act_kind gate_kind
            ⊳ add_attr_u32 m tca_act_index index
            ⊳ in_nest m tca_act_options options))

  abbrev pub parms : ℕ → ℕ → Buf → Buf
  parms index action = put_bytes m tca_gate_parms (tc_gate_bytes m index action)

  -- CLOCKID with 64 bits instead of 32
  abbrev pub bad_clockid : ℕ → Buf → Buf
  bad_clockid index =
      parms index tc_act_pipe
      ⊳ add_attr_u64 m tca_gate_clockid clock_tai
      ⊳ add_attr_u64 m tca_gate_base_time 0
      ⊳ add_attr_u64 m tca_gate_cycle_time race_invalid_interval_ns

  -- BASE_TIME with 32 bits instead of 64
  abbrev pub bad_base_time : ℕ → Buf → Buf
  bad_base_time index =
      parms index tc_act_pipe
      ⊳ add_attr_u32 m tca_gate_clockid clock_tai
      ⊳ add_attr_u32 m tca_gate_base_time 0
      ⊳ add_attr_u64 m tca_gate_cycle_time race_invalid_interval_ns

  -- CYCLE_TIME with 32 bits instead of 64
  abbrev pub bad_cycle_time : ℕ → Buf → Buf
  bad_cycle_time index =
      parms index tc_act_pipe
      ⊳ add_attr_u32 m tca_gate_clockid clock_tai
      ⊳ add_attr_u64 m tca_gate_base_time 0
      ⊳ add_attr_u32 m tca_gate_cycle_time race_invalid_interval_ns

  abbrev pub invalid_action : ℕ → Buf → Buf
  invalid_action index =
      parms index 0x7fffffff
      ⊳ add_attr_u32 m tca_gate_clockid clock_tai
      ⊳ add_attr_u64 m tca_gate_base_time 0
      ⊳ add_attr_u64 m tca_gate_cycle_time race_invalid_interval_ns

  -- before = nlh->nlmsg_len; put; race_set_attr_len_unaligned(nlh, before, bad_attr_len);
  abbrev pub put_short : ℕ → ℕ → Buf → Buf
  put_short type value b = m.set_nla_len (m.attr_put_u32 b type value) (m.nlmsg_len b) 5

  -- switch (which)
  abbrev pub bad_entry : ℕ → Buf → Buf
  bad_entry which =
      if which == 0
      then put_short tca_gate_entry_interval race_invalid_interval_ns
      else if which == 1
      then add_attr_u32 m tca_gate_entry_interval race_invalid_interval_ns
        ⊳ put_short tca_gate_entry_ipv 0
      else add_attr_u32 m tca_gate_entry_interval race_invalid_interval_ns
        ⊳ put_short tca_gate_entry_max_octets 0

  abbrev pub invalid_entry_attr : ℕ → ℕ → Buf → Buf
  invalid_entry_attr index which =
      parms index tc_act_pipe
      ⊳ add_attr_u32 m tca_gate_clockid clock_tai
      ⊳ add_attr_u64 m tca_gate_base_time 0
      ⊳ add_attr_u64 m tca_gate_cycle_time race_invalid_interval_ns
      ⊳ in_nest m tca_gate_entry_list (in_nest m tca_gate_one_entry (bad_entry which))

  -- gb_nl_msg_reset(msg); the message; return gb_nl_send_recv(sock, msg, resp, timeout_ms);
  abbrev pub send_options :
      (ℕ → Buf → Buf)
      → Option NlSock
      → Message Buf
      → Bool
      → ℕ
      → World Buf
      → Exchanged Buf (Answer m)
  send_options options sock msg has_resp index world =
      let b = race_message (bit_or nlm_f_create nlm_f_excl) index (options index) msg.buf in
      gb_nl_send_recv m sock (some (record msg { buf = b; len = m.nlmsg_len b })) has_resp world

  module _ (sock : Option NlSock) (msg : Message Buf) (has_resp : Bool) (index : ℕ)
      (world : World Buf) where
    unfoldable pub race_send_bad_clockid : Exchanged Buf (Answer m)
    unfolding race_message gb_nl_send_recv
    race_send_bad_clockid = send_options bad_clockid sock msg has_resp index world

    unfoldable pub race_send_bad_base_time : Exchanged Buf (Answer m)
    unfolding race_message gb_nl_send_recv
    race_send_bad_base_time = send_options bad_base_time sock msg has_resp index world

    unfoldable pub race_send_bad_cycle_time : Exchanged Buf (Answer m)
    unfolding race_message gb_nl_send_recv
    race_send_bad_cycle_time = send_options bad_cycle_time sock msg has_resp index world

    unfoldable pub race_send_invalid_action : Exchanged Buf (Answer m)
    unfolding race_message gb_nl_send_recv
    race_send_invalid_action = send_options invalid_action sock msg has_resp index world

    unfoldable pub race_send_invalid_entry_attr : ℕ → Exchanged Buf (Answer m)
    unfolding race_message gb_nl_send_recv
    race_send_invalid_entry_attr which =
        send_options (λ i. invalid_entry_attr i which) sock msg has_resp index world
