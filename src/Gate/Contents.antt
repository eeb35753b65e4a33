-- ===== src/Gate/Contents.antt =====
-- What each message of Gate/Build holds: its header and its tree of attributes.
use Prim.Native.Nat.{bit_or}
use gatebench.Base.{ℕ, ◌<◌, ◌≤◌, ◌+◌, ◌^◌, ◌≡◌, ap, ◌∙◌, List, [], ◌∷◌, ℤ, arith, length}
use gatebench.Mnl.{Mnl}
use gatebench.Mnl.Tlv.{Attrs, nest, nil, one, attrs_size}
use gatebench.Mnl.Writing.{add_all}
use gatebench.Mnl.Writes.{
  Writes, Writes-put, Writes-u32, Writes-u64, Writes-strz, Writes-nothing, Writes-then, Writes-when,
  Writes-nest, Writes-raw_nest,
}
use gatebench.Gate.Types.{GateShape, GateEntry}
use gatebench.Gate.Trees.{
  entry_attrs, entries_attrs, option_attrs, action_attrs, in_table, newaction_attrs, message,
  kind_attrs,
}
use gatebench.Gate.Sizes.{entry_size, entries_size, options_size, action_size}
use gatebench.Gate.Build.{
  start_message, put_entry, put_entries, put_options, newaction, by_index, by_kind, delaction,
  flushaction, getaction_ex, dumpaction,
}
use gatebench.Gate.Numbers.{
  rtm_newaction, rtm_delaction, rtm_getaction, nlm_f_request, nlm_f_ack, nlm_f_root, nlm_f_dump,
  gatebench_act_prio, tca_act_options, tca_gate_one_entry, gate_kind,
}

pub nested_size : (t : ℕ) (f : Attrs) → attrs_size (one (nest t f)) ≡ 4 + attrs_size f
unfolding attrs_size
nested_size t f = omega arith

pub table_small :
    (f : Attrs)
    → attrs_size f + 8 < 2 ^ 16
    → attrs_size (one (nest gatebench_act_prio f)) + 4 < 2 ^ 16
unfolding attrs_size
table_small f h = omega arith

module _ (m : Mnl) where
  draft-start_message :
      (type flags : ℕ) (b : m.Buf) → m.draft (start_message m type flags b) ≡ message type flags nil
  unfolding start_message
  draft-start_message type flags b =
      simp (
        m.draft-put_extra, m.draft-set_seq, m.draft-set_flags, m.draft-set_type, m.draft-put_header,
      )

  finished :
      (type flags : ℕ) (b : m.Buf) {g : m.Buf → m.Buf} {f : Attrs}
      → Writes m g f
      → m.draft (g (start_message m type flags b)) ≡ message type flags f
  finished type flags b {g} {f} p =
      p.at (start_message m type flags b) ∙ ap (add_all f) (draft-start_message type flags b)

  put_entry-Writes :
      (e : GateEntry) → Writes m (put_entry m e) (one (nest tca_gate_one_entry (entry_attrs m e)))
  unfolding put_entry
  put_entry-Writes e = Writes-nest m _ (omega (arith, entry_size m e)) (
      Writes-then m (Writes-when m e.gate_state (Writes-put m _ _))
        (Writes-then m (Writes-u32 m _ _) (Writes-then m (Writes-put m _ _) (Writes-put m _ _))))

  put_entries-Writes : (es : List GateEntry) → Writes m (put_entries m es) (entries_attrs m es)
  unfolding put_entries entries_attrs
  put_entries-Writes [] = Writes-nothing m
  put_entries-Writes (e ∷ es) = Writes-then m (put_entry-Writes e) (put_entries-Writes es)

  put_options-Writes :
      (index : ℕ) (shape : GateShape) (es : List GateEntry) (num_entries gate_flags : ℕ)
      (priority : ℤ)
      → length es ≤ 2000
      → Writes m
          (put_options m index shape es num_entries gate_flags priority)
          (option_attrs m index shape es num_entries gate_flags priority)
  unfolding put_options
  put_options-Writes index shape es num_entries gate_flags priority few =
      Writes-then m (Writes-put m _ _) (
        Writes-then m (Writes-u32 m _ _) (
          Writes-then m (Writes-u64 m _ _) (
            Writes-then m (Writes-u64 m _ _) (
              Writes-then m (Writes-when m _ (Writes-u64 m _ _)) (
                Writes-then m (Writes-when m _ (Writes-put m _ _)) (
                  Writes-then m (Writes-when m _ (Writes-u32 m _ _)) (
                    Writes-when m _ (
                      Writes-nest m _ (omega (arith, entries_size m es))
                        (put_entries-Writes es)))))))))

  -- With at most 2000 entries, build_gate_newaction leaves one RTM_NEWACTION request with the whole tree of the gate.
  pub newaction_contents :
      (index : ℕ) (shape : GateShape) (es : List GateEntry) (num_entries nlmsg_flags gate_flags : ℕ)
      (priority : ℤ) (b : m.Buf)
      → length es ≤ 2000
      → m.draft (newaction m index shape es num_entries nlmsg_flags gate_flags priority b)
        ≡ message rtm_newaction
            (bit_or (bit_or nlm_f_request nlm_f_ack) nlmsg_flags)
            (newaction_attrs m index shape es num_entries gate_flags priority)
  unfolding newaction
  newaction_contents index shape es num_entries nlmsg_flags gate_flags priority b few =
      let options = option_attrs m index shape es num_entries gate_flags priority in
      let size = options_size m index shape es num_entries gate_flags priority in
      finished _ _ b (
        Writes-nest m _
          (table_small (action_attrs m index (one (nest tca_act_options options))) (
            omega (
              arith,
              action_size m index (one (nest tca_act_options options)),
              nested_size tca_act_options options,
            )))
          (Writes-nest m _
            (omega (
              arith,
              action_size m index (one (nest tca_act_options options)),
              nested_size tca_act_options options,
            ))
            (Writes-then m (Writes-strz m _ _) (
              Writes-then m (Writes-u32 m _ _) (
                Writes-nest m _ (omega arith)
                  (put_options-Writes index shape es num_entries gate_flags priority few))))))

  by_index-Writes : (index : ℕ) → Writes m (by_index m index) (in_table (action_attrs m index nil))
  unfolding by_index attrs_size
  by_index-Writes index =
      let size = action_size m index nil in
      Writes-nest m _ (table_small (action_attrs m index nil) (omega arith))
        (Writes-nest m _ (omega arith) (Writes-then m (Writes-strz m _ _) (Writes-u32 m _ _)))

  by_kind-Writes : Writes m (by_kind m) (kind_attrs m)
  unfolding by_kind attrs_size
  by_kind-Writes =
      Writes-then m
        (Writes-raw_nest m _ (omega (arith, m.length-strz_bytes gate_kind))
          (Writes-raw_nest m _ (omega (arith, m.length-strz_bytes gate_kind)) (Writes-strz m _ _)))
        (Writes-put m _ _)

  -- The requests that name one action by its index hold exactly its kind and index in slot 1 of the
  -- action table, and the flags that go with them.
  pub by_index_contents :
      (index nlmsg_flags : ℕ) (b : m.Buf)
      → (m.draft (delaction m index b)
          ≡ message rtm_delaction
              (bit_or nlm_f_request nlm_f_ack)
              (in_table (action_attrs m index nil)))
        × (m.draft (getaction_ex m index nlmsg_flags b)
            ≡ message rtm_getaction
                (bit_or nlm_f_request nlmsg_flags)
                (in_table (action_attrs m index nil)))
  unfolding delaction getaction_ex
  by_index_contents index nlmsg_flags b =
      (finished _ _ b (by_index-Writes index), finished _ _ b (by_index-Writes index))

  -- The requests for all gates hold the kind in slot 1, in nests whose lengths were set by hand, and
  -- the flag for a large dump behind the table.
  pub by_kind_contents :
      (b : m.Buf)
      → (m.draft (flushaction m b)
          ≡ message rtm_delaction
              (bit_or (bit_or nlm_f_request nlm_f_ack) nlm_f_root)
              (kind_attrs m))
        × (m.draft (dumpaction m b)
            ≡ message rtm_getaction (bit_or nlm_f_request nlm_f_dump) (kind_attrs m))
  unfolding flushaction dumpaction
  by_kind_contents b = (finished _ _ b by_kind-Writes, finished _ _ b by_kind-Writes)
