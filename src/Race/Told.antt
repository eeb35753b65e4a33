-- ===== src/Race/Told.antt =====
-- The slots of race_record_extack tell what was recorded.
use gatebench.Base.{
  ◌+◌, ◌%◌, ◌≤◌, ◌<◌, ◌^◌, ◌≡◌, ◌∙◌, refl, sym, subst, true, false, some, List, ◌∷◌, u64_mod,
  str_eq, str_eq_sound, length, arith, Bool-cases, inl, inr,
}
use gatebench.Base.Libc.{Bytes}
use gatebench.Race.Extack.{ExtackEntry, ExtackStats, is_nil, record_msg, race_record_extack}
use gatebench.Race.Slots.{
  occurrences, counts, held, free, AreExact, AreDistinct, IsCounted, or_false, str_eq_comm,
  unaffected, count_again_cases,
}
use gatebench.Race.FreeSlot.{IsHeld, take_slot_cases}

-- The slots and `other` after the messages of h, the latest first.
pub record IsTold (h : List Bytes) (s : ExtackStats) : Type 0 where
  pub slots : length s.entries ≡ 6
  pub exact : AreExact (λ k. occurrences k h) s.entries
  pub distinct : AreDistinct s.entries
  pub complete :
      (k : Bytes) → held k s.entries ≡ false → free s.entries ≡ true → occurrences k h ≡ 0
  pub covered : counts s.entries + s.other ≡ length h

module _ (msg : Bytes) (h : List Bytes) (s : ExtackStats) (t : IsTold h s)
    (short : length msg ≤ 127) (small : length h + 1 < 2 ^ 64) where
  counted-IsTold :
      (es : List ExtackEntry)
      → IsCounted msg (λ k. occurrences k h) s.entries es
      → IsTold (msg ∷ h) (record s { entries = es })
  counted-IsTold es c = record {
    slots = c.same_length ∙ t.slots;
    exact = c.exact;
    distinct = c.distinct;
    complete = λ k n fr.
        let not_before = sym (c.same_held k) ∙ n in
        let other : str_eq k msg ≡ false = elim (Bool-cases (str_eq k msg)) [
          | inl e ↦ absurd (
              apart (
                sym (subst (λ j. held j s.entries ≡ true) (sym (str_eq_sound k msg e)) c.was_held)
                ∙ not_before))
          | inr e ↦ e
        ] in
        rw other (omega (arith, t.complete k not_before (sym c.same_free ∙ fr)));
    covered = omega (arith, t.covered, c.one_more);
  }
    where
      apart : true ≡ false → ⊥
      apart e = cc

  held-IsTold :
      (es : List ExtackEntry)
      → IsHeld msg (λ k. occurrences k h) s.entries es
      → IsTold (msg ∷ h) (record s { entries = es })
  held-IsTold es c = record {
    slots = c.same_length ∙ t.slots;
    exact = c.exact;
    distinct = c.distinct;
    complete = λ k n fr.
        let (other, not_before) =
          or_false (str_eq msg k) (held k s.entries) (sym (c.not_held k) ∙ n) in
        rw (str_eq_comm msg k other) (omega (arith, t.complete k not_before c.was_free));
    covered = omega (arith, t.covered, c.one_more);
  }

  other-IsTold :
      held msg s.entries ≡ false
      → free s.entries ≡ false
      → IsTold (msg ∷ h) (record s { other = (s.other + 1) % u64_mod })
  other-IsTold n full = record {
    slots = t.slots;
    exact = unaffected msg (λ k. occurrences k h) s.entries n t.exact;
    distinct = t.distinct;
    complete = λ k not_held fr. absurd (apart (sym full ∙ fr));
    covered = omega (arith, t.covered);
  }
    where
      apart : false ≡ true → ⊥
      apart e = cc

  record_msg-IsTold : IsTold (msg ∷ h) (record_msg s msg)
  record_msg-IsTold =
      elim (count_again_cases msg (λ k. occurrences k h) s.entries t.exact t.distinct
        (omega (arith, t.covered))) [
          | inr (es, c) ↦ rw (record_msg, c.pass) (counted-IsTold es c)
          | inl (q, n) ↦
              elim (take_slot_cases msg (λ k. occurrences k h) s.entries short (t.complete msg n) n
                t.exact t.distinct) [
                  | inr (es, c) ↦ rw (record_msg, q, c.pass) (held-IsTold es c)
                  | inl (q', full) ↦ rw (record_msg, q, q') (other-IsTold n full)
                ]
        ]

  -- From slots that tell of the messages of h, and of those only, race_record_extack of a further
  -- message of 1 to 127 bytes leaves slots that tell of it too: each of the six slots in use counts
  -- how often its message was recorded, no two hold the same message, a message that no slot holds
  -- while one is free was never recorded, and the slots and `other` together count all messages, as
  -- long as these are fewer than 2 ^ 64 - 1.
  pub race_record_extack-IsTold :
      is_nil msg ≡ false
      → (s' : ExtackStats) × (race_record_extack (some s) (some msg) ≡ some s')
        × IsTold (msg ∷ h) s'
  unfolding race_record_extack
  race_record_extack-IsTold n = (record_msg s msg, rw n refl, record_msg-IsTold)
