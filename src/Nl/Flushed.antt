-- ===== src/Nl/Flushed.antt =====
-- What gb_nl_send_recv_flush of src/nl.c makes of a count of actions.
use gatebench.Base.{
  ℕ, ◌≡◌, ◌∙◌, refl, ap, true, false, not, Option, none, some, List, [], ◌∷◌, ◌++◌, ℤ, pos, is_neg,
  ◌==◌, ltb, All, map, neg, einval, if◌then◌else◌, if_false, if_true, ◌&&◌, ◌-◌, u32_mod,
}
use gatebench.Mnl.{Mnl}
use gatebench.Mnl.Tlv.{Attr}
use gatebench.Gate.Numbers.{rtm_delaction, tca_act_tab}
use gatebench.Gate.Parse.{Table, no_attrs}
use gatebench.Nl.{NlSock, Arrived, Event, datagram, sent, nlmsg_error, parse_error}
use gatebench.Nl.Dump.{nl_attr_cb_copy}
use gatebench.Nl.Exchange.{Message}
use gatebench.Nl.Flush.{
  tca_fcnt, int_max, Met, MetNest, Walk, find_fcnt, find_nest, parse_delaction_fcnt, flush_datagram,
  flush_events, in_nest_or, find_in_tab, stored_fcnt, answered_or, returned_or,
  gb_nl_send_recv_flush,
}

module _ (k : Walk) where
  -- An attribute that the loop over a nest goes past.
  abbrev pub IsPassed : ℕ → Met → Type 0
  IsPassed len a = (k.attr_ok a.nla_len len ≡ true) × ((a.nla_type == tca_fcnt) ≡ false)

  -- A count that the loop takes.
  abbrev pub IsCount : ℕ → Met → Type 0
  IsCount len a =
      (k.attr_ok a.nla_len len ≡ true)
      × (a.nla_type ≡ tca_fcnt)
      × (ltb (k.payload_len a.nla_len) 4 ≡ false)

  -- A nest of type 0 that the table has room for.
  abbrev pub IsNest : ℕ → MetNest → Type 0
  IsNest len a =
      (k.attr_ok a.nla_len len ≡ true)
      × (a.nla_type ≡ 0)
      × (ltb int_max (k.payload_len a.nla_len) ≡ false)

  find_fcnt-passed :
      (len : ℕ) (before later : List Met)
      → All (IsPassed len) before
      → find_fcnt k len (before ++ later) ≡ find_fcnt k len later
  unfolding find_fcnt
  find_fcnt-passed len [] later h = refl
  find_fcnt-passed len (a ∷ before) later h =
      rw (h.0.0, h.0.1) (find_fcnt-passed len before later h.1)

  find_fcnt-count :
      (len : ℕ) (a : Met) (later : List Met)
      → IsCount len a
      → find_fcnt k len (a ∷ later) ≡ some (some (pos 0, some a.u32))
  unfolding find_fcnt
  find_fcnt-count len a later h = rw (h.0, h.1, h.2) refl

  find_nest-first :
      (len : ℕ) (a : MetNest) (later : List MetNest)
      → IsNest len a
      → find_nest k len (a ∷ later)
        ≡ in_nest_or k (find_fcnt k (k.payload_len a.nla_len) a.inside) (find_nest k len later)
  unfolding find_nest
  find_nest-first len a later h = rw (h.0, h.1, h.2) refl

  module _ (m : Mnl) where
    -- The table of a reply, with the nest at its begin.
    pub record HasNest (h : Arrived m.Buf) (a : MetNest) : Type 0 where
      pub ret : ℤ
      pub tb : Table
      pub tab : Attr
      pub later : List MetNest
      pub tb_parsed : m.attr_parse Table h.message 4 (nl_attr_cb_copy m) no_attrs ≡ (ret, tb)
      pub fine : is_neg ret ≡ false
      pub there : tb tca_act_tab ≡ some tab
      pub small : ltb int_max (k.tab_len tab) ≡ false
      pub first : k.payload tab ≡ a ∷ later
      pub nest : IsNest (k.tab_len tab) a

    parse_delaction_fcnt-nest :
        (h : Arrived m.Buf) (a : MetNest) (n : HasNest h a)
        → parse_delaction_fcnt k m h
          ≡ in_nest_or k
              (find_fcnt k (k.payload_len a.nla_len) a.inside)
              (find_nest k (k.tab_len n.tab) n.later)
    unfolding parse_delaction_fcnt
    parse_delaction_fcnt-nest h a n =
        ap
          (λ (r : ℤ × Table).
            if is_neg r.0 then some (neg einval, none) else find_in_tab k (r.1 tca_act_tab))
          n.tb_parsed
        ∙ (if_false _ _ n.fine
            ∙ (ap (find_in_tab k) n.there
                ∙ (if_false _ _ n.small
                    ∙ (ap (find_nest k (k.tab_len n.tab)) n.first
                        ∙ find_nest-first (k.tab_len n.tab) a n.later n.nest))))

    parse_delaction_fcnt-count :
        (h : Arrived m.Buf) (a : MetNest) (before : List Met) (c : Met) (behind : List Met)
        → HasNest h a
        → a.inside ≡ before ++ c ∷ behind
        → All (IsPassed (k.payload_len a.nla_len)) before
        → IsCount (k.payload_len a.nla_len) c
        → parse_delaction_fcnt k m h ≡ some (pos 0, some c.u32)
    parse_delaction_fcnt-count h a before c behind n e p q =
        parse_delaction_fcnt-nest h a n
        ∙ ap (λ o. in_nest_or k o (find_nest k (k.tab_len n.tab) n.later))
            (ap (find_fcnt k (k.payload_len a.nla_len)) e
              ∙ (find_fcnt-passed (k.payload_len a.nla_len) before (c ∷ behind) p
                  ∙ find_fcnt-count (k.payload_len a.nla_len) c behind q))

    abbrev pub IsOther : ℕ → Arrived m.Buf → Type 0
    IsOther seq h = (h.nlmsg_seq == seq) ≡ false

    flush_datagram-other :
        (seq : ℕ) (hs : List (Arrived m.Buf)) (fcnt_out : Option ℕ)
        → All (IsOther seq) hs
        → flush_datagram k m seq hs fcnt_out ≡ some (none, fcnt_out)
    unfolding flush_datagram
    flush_datagram-other seq [] fcnt_out o = refl
    flush_datagram-other seq (h ∷ hs) fcnt_out o =
        if_true _ _ (ap not o.0) ∙ flush_datagram-other seq hs fcnt_out o.1

    flush_events-other :
        (seq : ℕ) (stale : List (List (Arrived m.Buf))) (events : List (Event m.Buf))
        (fcnt_out : Option ℕ)
        → All (All (IsOther seq)) stale
        → flush_events k m seq (map datagram stale ++ events) fcnt_out
          ≡ flush_events k m seq events fcnt_out
    unfolding flush_events
    flush_events-other seq [] events fcnt_out o = refl
    flush_events-other seq (hs ∷ stale) events fcnt_out o =
        ap (λ r. returned_or k m r (flush_events k m seq (map datagram stale ++ events)))
          (flush_datagram-other seq hs fcnt_out o.0)
        ∙ flush_events-other seq stale events fcnt_out o.1

    -- A reply with a count, and the NLMSG_ERROR behind it.
    flush_datagram-counted :
        (seq fcnt v : ℕ) (h e : Arrived m.Buf) (rest : List (Arrived m.Buf))
        → (h.nlmsg_seq == seq) ≡ true
        → h.nlmsg_type ≡ rtm_delaction
        → (e.nlmsg_seq == seq) ≡ true
        → e.nlmsg_type ≡ nlmsg_error
        → parse_delaction_fcnt k m h ≡ some (pos 0, some v)
        → flush_datagram k m seq (h ∷ e ∷ rest) (some fcnt) ≡ some (some (parse_error e), some v)
    unfolding flush_datagram
    flush_datagram-counted seq fcnt v h e rest hs ht es et p =
        if_false _ _ (ap not hs)
        ∙ (ap (λ c. answered_or k m h c (flush_datagram k m seq (e ∷ rest)))
              (ap
                  (λ t.
                    if (t == rtm_delaction) && true
                    then stored_fcnt k m (parse_delaction_fcnt k m h) (some fcnt)
                    else some (some fcnt))
                  ht
                ∙ ap (λ r. stored_fcnt k m r (some fcnt)) p)
            ∙ (if_false _ _ (ap (λ t. t == nlmsg_error) ht)
                ∙ (if_false _ _ (ap not es)
                    ∙ (ap (λ c. answered_or k m e c (flush_datagram k m seq rest))
                          (ap
                            (λ t.
                              if (t == rtm_delaction) && true
                              then stored_fcnt k m (parse_delaction_fcnt k m e) (some v)
                              else some (some v))
                            et)
                        ∙ if_true _ _ (ap (λ t. t == nlmsg_error) et)))))

    -- If a flush goes out whole, and after any datagrams of other sequence numbers a datagram begins
    -- with an RTM_DELACTION of the sequence number of the socket and its NLMSG_ERROR, and the table of
    -- the former begins with a nest of type 0 with a TCA_FCNT of at least 4 bytes behind other
    -- attributes: gb_nl_send_recv_flush returns the code of the NLMSG_ERROR and stores the count.
    pub gb_nl_send_recv_flush-count :
        (s : NlSock) (req : Message m.Buf) (fcnt n : ℕ) (stale : List (List (Arrived m.Buf)))
        (h e : Arrived m.Buf) (rest : List (Arrived m.Buf)) (later : List (Event m.Buf))
        (a : MetNest) (before : List Met) (c : Met) (behind : List Met)
        → ltb req.cap req.len ≡ false
        → (n == req.len) ≡ true
        → All (All (IsOther s.seq)) stale
        → (h.nlmsg_seq == s.seq) ≡ true
        → h.nlmsg_type ≡ rtm_delaction
        → (e.nlmsg_seq == s.seq) ≡ true
        → e.nlmsg_type ≡ nlmsg_error
        → HasNest h a
        → a.inside ≡ before ++ c ∷ behind
        → All (IsPassed (k.payload_len a.nla_len)) before
        → IsCount (k.payload_len a.nla_len) c
        → (gb_nl_send_recv_flush k m (some s) (some req) true (some fcnt) (record {
          sending = sent n;
          events = map datagram stale ++ datagram (h ∷ e ∷ rest) ∷ later;
        })).result
          ≡ some (parse_error e, some c.u32)
    unfolding gb_nl_send_recv_flush flush_events
    gb_nl_send_recv_flush-count s req fcnt n stale h e rest later a before c behind fits whole
          others hs ht es et nest inside passed count =
        rw (gb_nl_send_recv_flush, fits, whole)
          (flush_events-other s.seq stale (datagram (h ∷ e ∷ rest) ∷ later) (some (u32_mod - 1))
              others
            ∙ ap (λ r. returned_or k m r (flush_events k m s.seq later))
                (flush_datagram-counted s.seq (u32_mod - 1) c.u32 h e rest hs ht es et
                  (parse_delaction_fcnt-count h a before c behind nest inside passed count)))
