-- ===== src/Race/Contents.antt =====
-- What the messages of the worker for invalid requests hold, and the cycle of an update.
use Prim.Native.Nat.{bit_or}
use gatebench.Base.{ℕ, ◌<◌, ◌≡◌, ◌∙◌, ap, Option, List, arith, if◌then◌else◌, ◌==◌}
use gatebench.Config.{GbConfig, clock_tai}
use gatebench.Mnl.{Mnl}
use gatebench.Mnl.Tlv.{Attrs, leaf, nest, cons, nil, one, attrs_size}
use gatebench.Mnl.Writing.{Draft, add_all}
use gatebench.Mnl.Writes.{
  Writes, Writes-put, Writes-u32, Writes-u64, Writes-strz, Writes-then, Writes-nest,
}
use gatebench.Gate.Types.{GateEntry}
use gatebench.Gate.Build.{tc_gate_bytes}
use gatebench.Gate.Trees.{message, in_table, action_attrs, u32_attr, u64_attr}
use gatebench.Gate.Sizes.{action_size, length-tc_gate_bytes}
use gatebench.Gate.Contents.{nested_size, table_small}
use gatebench.Gate.Numbers.{
  rtm_newaction, tc_act_pipe, nlm_f_request, nlm_f_ack, tca_act_options, tca_gate_parms,
  tca_gate_clockid, tca_gate_base_time, tca_gate_cycle_time,
}
use gatebench.Race.Invalid.{
  race_start, race_message, bad_clockid, bad_base_time, bad_cycle_time, invalid_action,
  race_invalid_interval_ns,
}
use gatebench.Race.Updates.{intervals, or_interval, cycle_of, basetime_shape}

module _ (m : Mnl) where
  race_start_draft :
      (flags : ℕ) (b : m.Buf)
      → m.draft (race_start m flags b)
        ≡ message rtm_newaction (bit_or (bit_or nlm_f_request nlm_f_ack) flags) nil
  unfolding race_start
  race_start_draft flags b =
      simp (m.draft-put_extra, m.draft-set_flags, m.draft-set_type, m.draft-put_header)

  race_finished :
      (flags : ℕ) (b : m.Buf) {g : m.Buf → m.Buf} {f : Attrs}
      → Writes m g f
      → m.draft (g (race_start m flags b))
        ≡ message rtm_newaction (bit_or (bit_or nlm_f_request nlm_f_ack) flags) f
  race_finished flags b {g} {f} p =
      p.at (race_start m flags b) ∙ ap (add_all f) (race_start_draft flags b)

  -- A message whose options are f.
  abbrev pub holding : ℕ → ℕ → Attrs → Draft
  holding flags index f =
      message rtm_newaction (bit_or (bit_or nlm_f_request nlm_f_ack) flags)
        (in_table (action_attrs m index (one (nest tca_act_options f))))

  race_message_holds :
      (flags index : ℕ) {options : m.Buf → m.Buf} {f : Attrs} (b : m.Buf)
      → attrs_size f < 1000
      → Writes m options f
      → m.draft (race_message m flags index options b) ≡ holding flags index f
  unfolding race_message
  race_message_holds flags index {options} {f} b small p = race_finished flags b (
      Writes-nest m _
        (table_small (action_attrs m index (one (nest tca_act_options f))) (
          omega (
            arith,
            action_size m index (one (nest tca_act_options f)),
            nested_size tca_act_options f,
          )))
        (Writes-nest m _
          (omega (
            arith,
            action_size m index (one (nest tca_act_options f)),
            nested_size tca_act_options f,
          ))
          (Writes-then m (Writes-strz m _ _)
            (Writes-then m (Writes-u32 m _ _) (Writes-nest m _ (omega arith) p)))))

  -- The four requests with one wrong attribute hold the index, TC_ACT_PIPE or 0x7fffffff as action, and
  -- a clock, a base time and a cycle time, of which one has the wrong size: 64 bits for the clock, 32
  -- for the base time, 32 for the cycle time.
  pub invalid_contents :
      (flags index : ℕ) (b : m.Buf)
      → (m.draft (race_message m flags index (bad_clockid m index) b)
          ≡ holding flags index (
              cons (leaf tca_gate_parms (tc_gate_bytes m index tc_act_pipe)) (
                cons (u64_attr m tca_gate_clockid clock_tai) (
                  cons
                    (u64_attr m tca_gate_base_time 0)
                    (one (u64_attr m tca_gate_cycle_time race_invalid_interval_ns))))))
        × (m.draft (race_message m flags index (bad_base_time m index) b)
            ≡ holding flags index (
                cons (leaf tca_gate_parms (tc_gate_bytes m index tc_act_pipe)) (
                  cons (u32_attr m tca_gate_clockid clock_tai) (
                    cons
                      (u32_attr m tca_gate_base_time 0)
                      (one (u64_attr m tca_gate_cycle_time race_invalid_interval_ns))))))
        × (m.draft (race_message m flags index (bad_cycle_time m index) b)
            ≡ holding flags index (
                cons (leaf tca_gate_parms (tc_gate_bytes m index tc_act_pipe)) (
                  cons (u32_attr m tca_gate_clockid clock_tai) (
                    cons
                      (u64_attr m tca_gate_base_time 0)
                      (one (u32_attr m tca_gate_cycle_time race_invalid_interval_ns))))))
        × (m.draft (race_message m flags index (invalid_action m index) b)
            ≡ holding flags index (
                cons (leaf tca_gate_parms (tc_gate_bytes m index 0x7fffffff)) (
                  cons (u32_attr m tca_gate_clockid clock_tai) (
                    cons
                      (u64_attr m tca_gate_base_time 0)
                      (one (u64_attr m tca_gate_cycle_time race_invalid_interval_ns))))))
  unfolding attrs_size
  invalid_contents flags index b = (
    race_message_holds flags index b
        (omega (
          arith,
          length-tc_gate_bytes m index tc_act_pipe,
          m.length-u64_bytes clock_tai,
          m.length-u64_bytes 0,
          m.length-u64_bytes race_invalid_interval_ns,
        ))
        (Writes-then m (Writes-put m _ _)
          (Writes-then m (Writes-u64 m _ _) (Writes-then m (Writes-u64 m _ _) (Writes-u64 m _ _)))),
    race_message_holds flags index b
        (omega (
          arith,
          length-tc_gate_bytes m index tc_act_pipe,
          m.length-u32_bytes clock_tai,
          m.length-u32_bytes 0,
          m.length-u64_bytes race_invalid_interval_ns,
        ))
        (Writes-then m (Writes-put m _ _)
          (Writes-then m (Writes-u32 m _ _) (Writes-then m (Writes-u32 m _ _) (Writes-u64 m _ _)))),
    race_message_holds flags index b
        (omega (
          arith,
          length-tc_gate_bytes m index tc_act_pipe,
          m.length-u32_bytes clock_tai,
          m.length-u64_bytes 0,
          m.length-u32_bytes race_invalid_interval_ns,
        ))
        (Writes-then m (Writes-put m _ _)
          (Writes-then m (Writes-u32 m _ _) (Writes-then m (Writes-u64 m _ _) (Writes-u32 m _ _)))),
    race_message_holds flags index b
        (omega (
          arith,
          length-tc_gate_bytes m index 0x7fffffff,
          m.length-u32_bytes clock_tai,
          m.length-u64_bytes 0,
          m.length-u64_bytes race_invalid_interval_ns,
        ))
        (Writes-then m (Writes-put m _ _)
          (Writes-then m (Writes-u32 m _ _) (Writes-then m (Writes-u64 m _ _) (Writes-u64 m _ _)))),
  )

-- Whatever the configuration and the entries, and even where the sum of the intervals wraps around to
-- 0, an update of the base time has a cycle time above 0.
pub basetime_shape-cycle :
    (cfg : Option GbConfig) (basetime clockid : ℕ) (entries : List GateEntry)
    → 0 < (basetime_shape cfg basetime clockid entries).cycle_time
unfolding basetime_shape
basetime_shape-cycle cfg basetime clockid entries =
    positive (if cycle_of cfg == 0 then intervals 0 entries else cycle_of cfg)
  where
    positive : (cycle : ℕ) → 0 < or_interval cfg cycle
    positive cycle = ground arith
