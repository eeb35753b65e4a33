-- ===== src/Nl/Totals.antt =====
-- What a dump that ends with NLMSG_DONE has counted.
use gatebench.Base.{
  ℕ, ◌+◌, ◌-◌, ◌%◌, ◌≡◌, refl, ap, ◌∙◌, Bool, true, false, not, ◌&&◌, ◌||◌, Option, some, List, [],
  ◌∷◌, ◌++◌, append-nil, map, concat, ℤ, pos, ◌==◌, ◌==ℤ◌, leb, if◌then◌else◌, All, arith, u32_mod,
  u64_mod, Bool-cases, inl, inr, ◌⊎◌,
}
use gatebench.Mnl.{Mnl}
use gatebench.Mnl.Tlv.{Attrs, nil, cons, cb_ok, each_from}
use gatebench.Gate.Numbers.{tca_root_max, rtm_getaction}
use gatebench.Gate.Parse.{Table, no_attrs}
use gatebench.Nl.{Arrived, Event, datagram, nlmsg_error, nlmsg_done, nlmsg_hdrlen, parse_error}
use gatebench.Nl.Dump.{
  GbDumpStats, no_stats, nl_attr_cb_copy, count_actions, count_message, dump_message, dump_datagram,
  dump_events,
}

module _ {Buf : Type 0} (seq : ℕ) where
  -- A message of the dump that ends it: an error or NLMSG_DONE.
  abbrev pub ends : Arrived Buf → Bool
  ends h =
      (h.nlmsg_seq == seq)
      && ((h.nlmsg_type == nlmsg_error) && not (parse_error h ==ℤ pos 0)
          || (h.nlmsg_type == nlmsg_done))

  -- A message of the dump that carries data.
  abbrev pub is_counted : Arrived Buf → Bool
  is_counted h =
      (h.nlmsg_seq == seq)
      && (not (h.nlmsg_type == nlmsg_error) && not (h.nlmsg_type == nlmsg_done))

  abbrev pub number : List (Arrived Buf) → ℕ
  number [] = 0
  number (h ∷ hs) = (if is_counted h then 1 else 0) + number hs

  abbrev pub payload : List (Arrived Buf) → ℕ
  payload [] = 0
  payload (h ∷ hs) = (if is_counted h then h.nlmsg_len - nlmsg_hdrlen else 0) + payload hs

  number-append : (hs more : List (Arrived Buf)) → number (hs ++ more) ≡ number hs + number more
  number-append [] more = omega arith
  number-append (h ∷ hs) more = omega (arith, number-append hs more)

  payload-append : (hs more : List (Arrived Buf)) → payload (hs ++ more) ≡ payload hs + payload more
  payload-append [] more = omega arith
  payload-append (h ∷ hs) more = omega (arith, payload-append hs more)

-- The statistics after n messages with b bytes.
abbrev pub counted : ℕ → ℕ → GbDumpStats
counted n b = record no_stats { reply_msgs = n % u32_mod; payload_bytes = b % u64_mod }

next_u32 : (a b : ℕ) → (a % u32_mod + b) % u32_mod ≡ (a + b) % u32_mod
next_u32 a b = omega arith

next_u64 : (a b : ℕ) → (a % u64_mod + b) % u64_mod ≡ (a + b) % u64_mod
next_u64 a b = omega arith

module _ (m : Mnl) where
  -- The message is finished and starts with the struct tcamsg.
  abbrev pub IsFinished : Arrived m.Buf → Type 0
  IsFinished h = ((m.draft h.message).enclosing ≡ []) × ((m.draft h.message).extra ≡ 4)

  copy_ok : (f : Attrs) (tb : Table) → (each_from (nl_attr_cb_copy m) cb_ok f tb).0 ≡ cb_ok
  unfolding each_from nl_attr_cb_copy
  copy_ok nil tb = refl
  copy_ok (cons a f) tb = elim (Bool-cases (leb (m.attr_get_type a) tca_root_max)) [
    | inl e ↦ rw e (copy_ok f _)
    | inr e ↦ rw e (copy_ok f tb)
  ]

  walk_ok :
      (h : Arrived m.Buf)
      → IsFinished h
      → (m.attr_parse Table h.message 4 (nl_attr_cb_copy m) no_attrs).0 ≡ cb_ok
  walk_ok h w =
      ap (λ r. r.0) (rw w.1 at (m.parse_lem Table h.message (nl_attr_cb_copy m) no_attrs w.0))
      ∙ copy_ok (m.draft h.message).body no_attrs

  -- The walk over the attributes returns MNL_CB_OK, and the code counts only where it returns 0.
  count_actions-none :
      (h : Arrived m.Buf) (stats : GbDumpStats) → IsFinished h → count_actions m h stats ≡ stats
  unfolding count_actions
  count_actions-none h stats w = rw (walk_ok h w) refl

  count-counted :
      (h : Arrived m.Buf) (n b : ℕ)
      → count_message m h (counted n b) ≡ counted (n + 1) (b + (h.nlmsg_len - nlmsg_hdrlen))
  count-counted h n b = ground (arith, next_u32 n 1, next_u64 b (h.nlmsg_len - nlmsg_hdrlen))

  -- What dump_message makes of a message if it does not look into it.
  abbrev dump_unread : ℕ → Arrived m.Buf → GbDumpStats → Bool × GbDumpStats
  dump_unread seq h stats =
      if not (h.nlmsg_seq == seq)
      then (false, stats)
      else if h.nlmsg_type == nlmsg_error
      then if parse_error h ==ℤ pos 0
        then (false, stats)
        else (true, record stats { saw_error = true; error_code = parse_error h })
      else if h.nlmsg_type == nlmsg_done
      then (true, record stats { saw_done = true })
      else (false, count_message m h stats)

  -- A message of the dump that gb_nl_dump_action looks into.
  abbrev pub is_reply : ℕ → Arrived m.Buf → Bool
  is_reply seq h = (h.nlmsg_seq == seq) && (h.nlmsg_type == rtm_getaction)

  abbrev pub Passes : ℕ → Arrived m.Buf → Type 0
  Passes seq h = ((is_reply seq h ≡ false) ⊎ IsFinished h) × (ends seq h ≡ false)

  -- It is counted whole whether or not the code looks into it.
  same_count :
      (seq : ℕ) (h : Arrived m.Buf) (stats : GbDumpStats)
      → (is_reply seq h ≡ false) ⊎ IsFinished h
      → dump_message m seq h stats ≡ dump_unread seq h stats
  unfolding dump_message
  same_count seq h stats (inl e) = ground (arith, e)
  same_count seq h stats (inr w) = rw (count_actions-none h stats w) (ground arith)

  message_counts :
      (seq : ℕ) (h : Arrived m.Buf) (n b : ℕ)
      → (is_reply seq h ≡ false) ⊎ IsFinished h
      → ends seq h ≡ false
      → dump_message m seq h (counted n b)
        ≡ (false, counted (n + number seq (h ∷ [])) (b + payload seq (h ∷ [])))
  unfolding dump_message
  message_counts seq h n b w e =
      same_count seq h (counted n b) w ∙ rw (count-counted h n b) (ground arith)

  same_counts :
      (seq : ℕ) (more : List (Arrived m.Buf)) {n n' b b' : ℕ}
      → n ≡ n'
      → b ≡ b'
      → dump_datagram m seq more (counted n b) ≡ dump_datagram m seq more (counted n' b')
  same_counts seq more e f = cc (e, f)

  -- The messages of a datagram, in front of others.
  datagram_counts :
      (seq : ℕ) (hs more : List (Arrived m.Buf)) (n b : ℕ)
      → All (Passes seq) hs
      → dump_datagram m seq (hs ++ more) (counted n b)
        ≡ dump_datagram m seq more (counted (n + number seq hs) (b + payload seq hs))
  unfolding dump_datagram
  datagram_counts seq [] more n b p = same_counts seq more (omega arith) (omega arith)
  datagram_counts seq (h ∷ hs) more n b p =
      rw (dump_datagram, message_counts seq h n b p.0.0 p.0.1)
        (datagram_counts seq hs more (n + number seq (h ∷ [])) (b + payload seq (h ∷ [])) p.1
          ∙ same_counts seq more (omega arith) (omega arith))

  done_message :
      (seq : ℕ) (h : Arrived m.Buf) (stats : GbDumpStats)
      → h.nlmsg_seq ≡ seq
      → h.nlmsg_type ≡ nlmsg_done
      → dump_message m seq h stats ≡ (true, record stats { saw_done = true })
  unfolding dump_message
  done_message seq h stats e t = ground arith

  done_ends :
      (seq : ℕ) (h : Arrived m.Buf) (after : List (Arrived m.Buf)) (stats : GbDumpStats)
      → h.nlmsg_seq ≡ seq
      → h.nlmsg_type ≡ nlmsg_done
      → dump_datagram m seq (h ∷ after) stats ≡ (true, record stats { saw_done = true })
  unfolding dump_datagram
  done_ends seq h after stats e t = rw (dump_datagram, done_message seq h stats e t) refl

  whole_datagram :
      (seq : ℕ) (hs : List (Arrived m.Buf)) (n b : ℕ)
      → All (Passes seq) hs
      → dump_datagram m seq hs (counted n b)
        ≡ (false, counted (n + number seq hs) (b + payload seq hs))
  unfolding dump_datagram
  whole_datagram seq hs n b p = rw append-nil at (datagram_counts seq hs [] n b p)

  same_totals :
      (stats_end : GbDumpStats → GbDumpStats) {n n' b b' : ℕ}
      → n ≡ n'
      → b ≡ b'
      → ◌≡◌ {A = Option (ℤ × GbDumpStats)}
          (some (pos 0, stats_end (counted n b)))
          (some (pos 0, stats_end (counted n' b')))
  same_totals stats_end e f = cc (e, f)

  -- From any count on.
  events_count :
      (seq : ℕ) (ds : List (List (Arrived m.Buf))) (before after : List (Arrived m.Buf))
      (h : Arrived m.Buf) (rest : List (Event m.Buf)) (n b : ℕ)
      → All (All (Passes seq)) ds
      → All (Passes seq) before
      → h.nlmsg_seq ≡ seq
      → h.nlmsg_type ≡ nlmsg_done
      → dump_events m seq (map datagram ds ++ datagram (before ++ h ∷ after) ∷ rest) (counted n b)
        ≡ some (
          pos 0,
          record (counted
              (n + number seq (concat ds ++ before))
              (b + payload seq (concat ds ++ before))) { saw_done = true },
        )
  unfolding dump_events
  events_count seq [] before after h rest n b p q e t =
      rw
        (
          dump_events,
          datagram_counts seq before (h ∷ after) n b q,
          done_ends seq h after (counted (n + number seq before) (b + payload seq before)) e t,
        )
        refl
  events_count seq (d ∷ ds) before after h rest n b p q e t =
      rw (dump_events, whole_datagram seq d n b p.0)
        (events_count seq ds before after h rest (n + number seq d) (b + payload seq d) p.1 q e t
          ∙ same_totals (λ s. record s { saw_done = true })
              (omega (
                arith,
                number-append seq d (concat ds),
                number-append seq (d ++ concat ds) before,
                number-append seq (concat ds) before,
              ))
              (omega (
                arith,
                payload-append seq d (concat ds),
                payload-append seq (d ++ concat ds) before,
                payload-append seq (concat ds) before,
              )))

  -- A dump whose datagrams bear no message that ends it up to an NLMSG_DONE of its sequence number, and
  -- whose own RTM_GETACTION messages are finished and start with a struct tcamsg, returns 0 with
  -- saw_done set. It has counted exactly the messages of its sequence number but for NLMSG_ERROR and
  -- NLMSG_DONE (modulo 2 ^ 32) and the bytes behind their headers (modulo 2 ^ 64), whatever messages
  -- of other numbers and errors of code 0 are mixed in, and its action_count is 0 whatever count the
  -- kernel sent.
  pub dump_events_totals :
      (seq : ℕ) (ds : List (List (Arrived m.Buf))) (before after : List (Arrived m.Buf))
      (h : Arrived m.Buf) (rest : List (Event m.Buf))
      → All (All (Passes seq)) ds
      → All (Passes seq) before
      → h.nlmsg_seq ≡ seq
      → h.nlmsg_type ≡ nlmsg_done
      → dump_events m seq (map datagram ds ++ datagram (before ++ h ∷ after) ∷ rest) no_stats
        ≡ some (
          pos 0,
          record no_stats {
            reply_msgs = number seq (concat ds ++ before) % u32_mod;
            payload_bytes = payload seq (concat ds ++ before) % u64_mod;
            saw_done = true;
          },
        )
  dump_events_totals seq ds before after h rest p q e t =
      events_count seq ds before after h rest 0 0 p q e t
      ∙ same_totals (λ s. record s { saw_done = true }) (omega arith) (omega arith)
