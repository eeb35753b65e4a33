-- ===== src/Bench/SingleRun.antt =====
-- benchmark_single_run beside a kernel that answers, its messages included.
use Prim.Native.Nat.{bit_or}
use gatebench.Base.{
  ℕ, zero, suc, ◌*◌, ◌%◌, ◌≤◌, ◌<◌, ◌^◌, ◌≡◌, ◌⊎◌, refl, true, false, Option, none, some, List, [],
  ◌∷◌, pos, neg, ltb, ◌==◌, if◌then◌else◌, arith, u64_mod, u32_mod, inl, inr, length, replicate,
  first_cells_all, ap, subst, sym, ◌∙◌, first_cells,
}
use gatebench.Config.{GbConfig, gb_max_entries}
use gatebench.Gate.Types.{GateEntry, GateShape}
use gatebench.Gate.Numbers.{nlm_f_create, nlm_f_excl, nlm_f_replace}
use gatebench.Gate.Build.{
  newaction_checked, newaction, delaction, build_gate_newaction, build_gate_delaction,
}
use gatebench.Gate.Capacity.{gate_msg_capacity, newaction-le-capacity, by_index_length}
use gatebench.Nl.Exchange.{Message}
use gatebench.Stats.{GbStats, gb_stats_init}
use gatebench.Bench.{gb_fill_entries}
use gatebench.Bench.Filled.{gb_fill_entries-Filled}
use gatebench.Bench.Act.{Machine, Scene, ok}
use gatebench.Bench.Run.{entries_of, shape_of, to_build, benchmark_single_run}
use gatebench.Bench.Served.{Request, Ready}
use gatebench.Bench.Taken.{taken}
use gatebench.Bench.Completed.{run_requests, run_readings, Completed, timed_run-Completed}

length-replicate : {A : Type 0} (n : ℕ) (x : A) → length (replicate n x) ≡ n
length-replicate zero x = refl
length-replicate (suc n) x = ap suc (length-replicate n x)

module _ (w : Machine) (cfg : GbConfig) where
  open w use {mnl, double, malloc, socket_buffer, fresh, blank}

  abbrev pub entry_count : ℕ
  entry_count = if ltb gb_max_entries cfg.entries then gb_max_entries else cfg.entries

  -- The entries that the messages carry.
  abbrev pub entries_sent : ℕ → List GateEntry
  entries_sent n = elim (gb_fill_entries (some (replicate n blank)) n cfg.interval_ns) [
    | none ↦ []
    | some (ret, o) ↦ elim o [ none ↦ [] | some es ↦ es ]
  ]

  -- The message that creates or replaces the gate, and its length.
  abbrev pub gate_message : ℕ → mnl.Buf
  gate_message flags =
      newaction mnl cfg.index (shape_of w cfg entry_count) (entries_sent entry_count) entry_count
        flags 0 (neg 1) fresh

  abbrev pub gate_length : ℕ → ℕ
  gate_length flags = mnl.nlmsg_len (gate_message flags)

  record Given (n : ℕ) (o : Option (List GateEntry)) : Type 0 where
    eq : (sc : Scene mnl.Buf) → entries_of w n cfg sc ≡ some (ok o, sc)
    same_length : length (entries_sent n) ≡ n
    passed : (o ≡ some (entries_sent n)) ⊎ ((o ≡ none) × (n ≡ 0))

  built_newaction :
      (msg : Message mnl.Buf) (shape : GateShape) (es : List GateEntry)
      (o : Option (List GateEntry)) (n flags : ℕ)
      → length es ≡ n
      → (o ≡ some es) ⊎ ((o ≡ none) × (n ≡ 0))
      → build_gate_newaction mnl (to_build w msg) cfg.index (some shape) o n flags 0 (neg 1)
        ≡ some (
          pos 0,
          some (record {
            buf = some (newaction mnl cfg.index shape es n flags 0 (neg 1) msg.buf);
            cap = msg.cap;
            len = mnl.nlmsg_len (newaction mnl cfg.index shape es n flags 0 (neg 1) msg.buf);
          }),
        )
  unfolding build_gate_newaction
  built_newaction msg shape es o n flags e (inl p) =
      let all : first_cells n es ≡ some es =
        subst (λ k. first_cells k es ≡ some es) e (first_cells_all es) in
      rw (p, newaction_checked, all) refl
  built_newaction msg shape [] o n flags e (inr (p, z)) = rw (p, z, newaction_checked) refl
  built_newaction msg shape (x ∷ es) o n flags e (inr (p, z)) = absurd (omega arith)

  none-Given : Given 0 none
  unfolding gb_fill_entries
  none-Given = record { eq = λ sc. refl; same_length = refl; passed = inr (refl, refl) }

  module _ (granted : (n : ℕ) → malloc n ≡ true) (some_time : 0 < cfg.interval_ns)
      (small_time : cfg.interval_ns < 2 ^ 32) where
    entries-Given : (n : ℕ) → (o : Option (List GateEntry)) × Given n o
    entries-Given zero = (none, none-Given)
    entries-Given (suc n) =
        let (es, q, len, fit, pattern, guards, lasts) =
          gb_fill_entries-Filled (replicate (suc n) blank) (suc n) cfg.interval_ns
            (length-replicate (suc n) blank) (omega arith) some_time small_time in
        let no : (suc n == 0) ≡ false = ground arith in
        let sent : entries_sent (suc n) ≡ es = rw (entries_sent, q) refl in
        (
          some es,
          record {
            eq = λ sc. rw (no, granted (suc n * 20), q) refl;
            same_length = ap (length {0}) sent ∙ len;
            passed = inl (ap (λ k. some k) (sym sent));
          },
        )

    few : entry_count ≤ gb_max_entries
    few = ground arith

    gate_fits :
        (flags : ℕ)
        → socket_buffer ≤ 8192
        → gate_length flags ≤ gate_msg_capacity socket_buffer entry_count 0
    gate_fits flags low =
        let (o, g) = entries-Given entry_count in
        subst
          (λ n.
            mnl.nlmsg_len (
              newaction mnl cfg.index (shape_of w cfg entry_count) (entries_sent entry_count) n
                flags 0 (neg 1) fresh)
            ≤ gate_msg_capacity socket_buffer n 0)
          g.same_length
          (newaction-le-capacity mnl socket_buffer cfg.index (shape_of w cfg entry_count)
            (entries_sent entry_count) flags 0 0 (neg 1) fresh low
            (omega (arith, g.same_length, few)))

    abbrev initial : GbStats
    initial = record { values = some []; capacity = cfg.iters * 2; count = 0; sorted = false }

    -- With memory for everything, an interval that gb_fill_entries takes, at least one index whose
    -- latencies are kept, and a kernel that answers each request of the run with a code that the
    -- benchmark goes on with: benchmark_single_run ends with a result, and has asked for those requests
    -- and that many readings of the clock.
    pub benchmark_single_run-Completed :
        socket_buffer ≤ 8192
        → cfg.iters * 2 < 2 ^ 32
        → 0 < taken cfg 0 cfg.iters
        → (n : ℕ) (rs : List Request) (sc : Scene mnl.Buf)
        → Ready mnl
            (run_readings w cfg n)
            (run_requests w cfg
              (gate_length (bit_or nlm_f_create nlm_f_excl))
              (gate_length (bit_or nlm_f_create nlm_f_replace))
              48
              rs)
            sc
        → Completed w cfg n rs (benchmark_single_run w cfg sc)
    unfolding benchmark_single_run gb_stats_init build_gate_delaction
    benchmark_single_run-Completed low few_iters some_taken n rs sc ready =
        let (o, g) = entries-Given entry_count in
        let flags = bit_or nlm_f_create nlm_f_excl in
        let flags' = bit_or nlm_f_create nlm_f_replace in
        let capacity = gate_msg_capacity socket_buffer entry_count 0 in
        let msg : Message mnl.Buf = record { buf = fresh; cap = capacity; len = 0 } in
        let create : Message mnl.Buf = record {
          buf = gate_message flags;
          cap = capacity;
          len = gate_length flags;
        } in
        let replace : Message mnl.Buf = record {
          buf = gate_message flags';
          cap = capacity;
          len = gate_length flags';
        } in
        let del : Message mnl.Buf = record {
          buf = delaction mnl cfg.index fresh;
          cap = 1024;
          len = mnl.nlmsg_len (delaction mnl cfg.index fresh);
        } in
        let del_length : del.len ≡ 48 = (by_index_length mnl cfg.index 0 fresh).0 in
        let run =
          timed_run-Completed w cfg n (gate_length flags) (gate_length flags') 48 rs create replace
            del initial sc (gate_fits flags low) (gate_fits flags' low) (omega (arith, del_length))
            refl refl del_length
            (record { counted = refl; fits = omega arith; truly_sorted = λ e. cc }) refl
            (omega arith) (omega arith) some_taken ready in
        let wanted : (cfg.iters * 2 % u32_mod) ≡ cfg.iters * 2 = omega arith in
        let some_iters : (cfg.iters * 2 == 0) ≡ false = ground arith in
        record {
          result = run.result;
          after = run.after;
          eq =
              rw
                (
                  wanted,
                  some_iters,
                  granted (cfg.iters * 2 * 8 % u64_mod),
                  granted 24,
                  granted socket_buffer,
                  g.eq,
                  granted capacity,
                  granted 1024,
                  built_newaction msg (shape_of w cfg entry_count) (entries_sent entry_count) o
                      entry_count flags g.same_length g.passed,
                  built_newaction msg (shape_of w cfg entry_count) (entries_sent entry_count) o
                      entry_count flags' g.same_length g.passed,
                )
                run.eq;
          ready = run.ready;
        }
