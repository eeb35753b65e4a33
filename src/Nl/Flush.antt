-- ===== src/Nl/Flush.antt =====
-- gb_nl_send_recv_flush of src/nl.c: the answers to a flush, and the number of actions that went away.
use gatebench.Base.{
  ℕ, not, ◌&&◌, Bool, Option, none, some, is_some, List, [], ◌∷◌, ℤ, pos, neg, is_neg, ◌==◌, ltb,
  if◌then◌else◌, einval, enoent, e2big, etimedout, ◌-◌, ◌==ℤ◌, u32_mod,
}
use gatebench.Mnl.{Mnl}
use gatebench.Mnl.Tlv.{Attr}
use gatebench.Gate.Numbers.{rtm_delaction, tca_act_tab}
use gatebench.Gate.Parse.{Table, no_attrs}
use gatebench.Nl.{
  NlSock, Arrived, Event, poll_failed, timed_out, recv_failed, datagram, nlmsg_error, parse_error,
}
use gatebench.Nl.Dump.{nl_attr_cb_copy}
use gatebench.Nl.Exchange.{Message, World, Exchanged, exchange, with_seq}

-- INT_MAX
abbrev pub int_max : ℕ
int_max = 2147483647

-- TCA_FCNT
abbrev pub tca_fcnt : ℕ
tca_fcnt = 6

-- What the functions of libmnl read where a pointer to an attribute points.
pub record Met : Type 0 where
  pub nla_len : ℕ
  pub nla_type : ℕ
  pub u32 : ℕ

-- And what mnl_attr_next meets from its payload on, as far as the memory of the buffer goes.
pub record MetNest : Type 0 where
  pub nla_len : ℕ
  pub nla_type : ℕ
  pub inside : List Met

-- The walk through memory: mnl_attr_ok of a length and the room for it, mnl_attr_get_payload_len of a
-- length, mnl_attr_get_payload_len of an attribute, and what lies in memory from its payload on.
pub record Walk : Type 0 where
  pub attr_ok : ℕ → ℕ → Bool
  pub payload_len : ℕ → ℕ
  pub tab_len : Attr → ℕ
  pub payload : Attr → List MetNest

module _ (k : Walk) where
  -- The loop over `inner`: its result, if it returns. `none` is a read behind the memory of the buffer.
  unfoldable pub find_fcnt : ℕ → List Met → Option (Option (ℤ × Option ℕ))
  find_fcnt inner_len [] = none
  find_fcnt inner_len (inner ∷ later) =
      let rest = find_fcnt inner_len later in
      if not (k.attr_ok inner.nla_len inner_len)
      then some none
      else if not (inner.nla_type == tca_fcnt)
      then rest
      else if ltb (k.payload_len inner.nla_len) 4
      then some (some (neg einval, none))
      else some (some (pos 0, some inner.u32))

  abbrev pub in_nest_or :
      Option (Option (ℤ × Option ℕ)) → Option (ℤ × Option ℕ) → Option (ℤ × Option ℕ)
  in_nest_or none rest = none
  in_nest_or (some none) rest = rest
  in_nest_or (some (some r)) rest = some r

  -- The loop over `attr`, and the return behind it.
  unfoldable pub find_nest : ℕ → List MetNest → Option (ℤ × Option ℕ)
  unfolding find_fcnt
  find_nest tab_len [] = none
  find_nest tab_len (attr ∷ later) =
      let rest = find_nest tab_len later in
      if not (k.attr_ok attr.nla_len tab_len)
      then some (neg enoent, none)
      else if not (attr.nla_type == 0)
      then rest
      else if ltb int_max (k.payload_len attr.nla_len)
      then some (neg e2big, none)
      else in_nest_or (find_fcnt (k.payload_len attr.nla_len) attr.inside) rest

  abbrev pub find_in_tab : Option Attr → Option (ℤ × Option ℕ)
  find_in_tab none = some (neg enoent, none)
  find_in_tab (some tab) =
      if ltb int_max (k.tab_len tab)
      then some (neg e2big, none)
      else find_nest (k.tab_len tab) (k.payload tab)

  module _ (m : Mnl) where
    open m use {Buf}

    -- The code, and what is stored; fcnt_out is not NULL.
    unfoldable pub parse_delaction_fcnt : Arrived Buf → Option (ℤ × Option ℕ)
    unfolding nl_attr_cb_copy find_nest
    parse_delaction_fcnt nlh =
        let (ret, tb) = m.attr_parse Table nlh.message 4 (nl_attr_cb_copy m) no_attrs in
        if is_neg ret then some (neg einval, none) else find_in_tab (tb tca_act_tab)

    -- if (parse_delaction_fcnt(nlh, &fcnt) == 0) *fcnt_out = fcnt;
    abbrev pub stored_fcnt : Option (ℤ × Option ℕ) → Option ℕ → Option (Option ℕ)
    stored_fcnt none fcnt_out = none
    stored_fcnt (some (ret, none)) fcnt_out = some fcnt_out
    stored_fcnt (some (ret, some fcnt)) fcnt_out =
        if ret ==ℤ pos 0 then some (some fcnt) else some fcnt_out

    abbrev pub count_noted : Arrived Buf → Option ℕ → Option (Option ℕ)
    count_noted nlh fcnt_out =
        if nlh.nlmsg_type == rtm_delaction && is_some fcnt_out
        then stored_fcnt (parse_delaction_fcnt nlh) fcnt_out
        else some fcnt_out

    abbrev pub answered_or :
        Arrived Buf
        → Option (Option ℕ)
        → (Option ℕ → Option (Option ℤ × Option ℕ))
        → Option (Option ℤ × Option ℕ)
    answered_or nlh none go_on = none
    answered_or nlh (some fcnt_out) go_on =
        if nlh.nlmsg_type == nlmsg_error
        then some (some (parse_error nlh), fcnt_out)
        else go_on fcnt_out

    -- The messages of a datagram: the code if the call returns, and *fcnt_out, `none` for NULL.
    unfoldable pub flush_datagram : ℕ → List (Arrived Buf) → Option ℕ → Option (Option ℤ × Option ℕ)
    unfolding parse_delaction_fcnt
    flush_datagram seq [] fcnt_out = some (none, fcnt_out)
    flush_datagram seq (nlh ∷ later) fcnt_out =
        let rest = flush_datagram seq later in
        if not (nlh.nlmsg_seq == seq)
        then rest fcnt_out
        else answered_or nlh (count_noted nlh fcnt_out) rest

    abbrev pub returned_or :
        Option (Option ℤ × Option ℕ) → (Option ℕ → Option (ℤ × Option ℕ)) → Option (ℤ × Option ℕ)
    returned_or none go_on = none
    returned_or (some (none, fcnt_out)) go_on = go_on fcnt_out
    returned_or (some (some ret, fcnt_out)) go_on = some (ret, fcnt_out)

    unfoldable pub flush_events : ℕ → List (Event Buf) → Option ℕ → Option (ℤ × Option ℕ)
    unfolding flush_datagram
    flush_events seq [] fcnt_out = none
    flush_events seq (poll_failed e ∷ events) fcnt_out = some (neg e, fcnt_out)
    flush_events seq (timed_out ∷ events) fcnt_out = some (neg etimedout, fcnt_out)
    flush_events seq (recv_failed e ∷ events) fcnt_out = some (neg e, fcnt_out)
    flush_events seq (datagram hs ∷ events) fcnt_out =
        returned_or (flush_datagram seq hs fcnt_out) (flush_events seq events)

    -- if (fcnt_out) *fcnt_out = UINT32_MAX;
    abbrev pub unknown : Option ℕ → Option ℕ
    unknown none = none
    unknown (some fcnt) = some (u32_mod - 1)

    -- `none` is a call that still waits or reads behind the memory of its buffer.
    unfoldable pub gb_nl_send_recv_flush :
        Option NlSock
        → Option (Message Buf)
        → Bool
        → Option ℕ
        → World Buf
        → Exchanged Buf (Option (ℤ × Option ℕ))
    unfolding flush_events
    gb_nl_send_recv_flush sock req has_resp fcnt_out world =
        exchange m sock req has_resp (λ e. some (neg e, fcnt_out))
          (λ s r.
            with_seq m s r world.sending (λ e. some (neg e, unknown fcnt_out))
              (λ seq. flush_events seq world.events (unknown fcnt_out)))
