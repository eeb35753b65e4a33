-- ===== src/Bench/Run.antt =====
-- One run of the benchmark: benchmark_single_run of src/bench.c. Its pointers are not NULL, as its
-- caller passes them.
use gatebench.Base.{
  ℕ, zero, suc, ◌+◌, ◌-◌, ◌*◌, ◌%◌, Bool, false, not, ◌&&◌, Option, none, some, List, ℤ, neg,
  is_neg, ◌==◌, ◌==ℤ◌, ltb, if◌then◌else◌, enomem, enoent, eexist, u32_mod, u64_mod, replicate,
}
use Prim.Native.Nat.{bit_or}
use gatebench.Config.{GbConfig, gb_max_entries}
use gatebench.Gate.Types.{GateShape, GateEntry, NlMsg}
use gatebench.Gate.Numbers.{nlm_f_create, nlm_f_excl, nlm_f_replace}
use gatebench.Gate.Build.{build_gate_newaction, build_gate_delaction}
use gatebench.Gate.Capacity.{gate_msg_capacity}
use gatebench.Nl.Exchange.{Message, gb_nl_msg_alloc}
use gatebench.Stats.{GbStats, stored, gb_stats_init}
use gatebench.Stats.Moments.{Summary, gb_stats_calculate}
use gatebench.Bench.{gb_fill_entries, stats_add_sample}
use gatebench.Bench.Act.{
  Machine, Scene, ok, err, Act, pure, raise, ◌>>=◌, ◌>>◌, raise_if, kept, send, now,
}

-- struct gb_run_result; `samples` is `none` for NULL
pub record RunResult (F : Type 0) : Type 0 where
  pub secs : F
  pub ops_per_sec : F
  pub summary : Summary F
  pub create_len : ℕ
  pub replace_len : ℕ
  pub del_len : ℕ
  pub samples : Option (List ℕ)
  pub sample_count : ℕ

-- What the measuring loop changes.
pub record Meter (Buf : Type 0) : Type 0 where
  pub create : Message Buf
  pub replace : Message Buf
  pub stats : GbStats

-- The struct gb_stats of the run before gb_stats_init, which clears it.
abbrev stats_before : GbStats
stats_before = record { values = none; count = 0; capacity = 0; sorted = false }

-- ret < 0 && ret != -e
abbrev pub refused_but : ℕ → ℤ → Bool
refused_but e ret = is_neg ret && not (ret ==ℤ neg e)

-- b - a in uint64_t
abbrev pub elapsed : ℕ → ℕ → ℕ
elapsed a b = (b + u64_mod - a) % u64_mod

module _ (w : Machine) where
  open w use {mnl, double, sort, malloc, realloc, socket_buffer, fresh, blank}

  -- for (i = 0; i < cfg->warmup; i++)
  unfoldable pub warm :
      ℕ
      → Message mnl.Buf
      → Message mnl.Buf
      → Act (Scene mnl.Buf) (Message mnl.Buf × Message mnl.Buf)
  unfolding send
  warm zero create replace = pure (create, replace)
  warm (suc left) create replace = do
    c ← send mnl create
    raise_if (refused_but eexist c.0) c.0
    r ← send mnl replace
    raise_if (is_neg r.0) r.0
    warm left c.1 r.1

  -- The body of the measuring loop for index i.
  unfoldable pub measure_once : GbConfig → ℕ → Meter mnl.Buf → Act (Scene mnl.Buf) (Meter mnl.Buf)
  unfolding send now stats_add_sample
  measure_once cfg i me = do
    a ← now mnl
    c ← send mnl me.create
    raise_if (refused_but eexist c.0) c.0
    b ← now mnl
    let stats = kept me.stats (stats_add_sample realloc me.stats cfg i (elapsed a b))
    a' ← now mnl
    r ← send mnl me.replace
    raise_if (is_neg r.0) r.0
    b' ← now mnl
    pure (record {
      create = c.1;
      replace = r.1;
      stats = kept stats (stats_add_sample realloc stats cfg i (elapsed a' b'));
    })

  unfoldable pub measure : GbConfig → ℕ → ℕ → Meter mnl.Buf → Act (Scene mnl.Buf) (Meter mnl.Buf)
  unfolding measure_once
  measure cfg i zero me = pure me
  measure cfg i (suc left) me = do me' ← measure_once cfg i me; measure cfg (i + 1) left me'

  abbrev pub or_enomem : {A : Type 0} → Option A → Act (Scene mnl.Buf) A
  or_enomem none = raise (neg enomem)
  or_enomem (some a) = pure a

  -- what gb_fill_entries leaves in the array, or its code; `none` for a write outside
  abbrev pub filled :
      Option (ℤ × Option (List GateEntry)) → Act (Scene mnl.Buf) (Option (List GateEntry))
  filled none sc = none
  filled (some (ret, es)) sc = if is_neg ret then some (err ret, sc) else some (ok es, sc)

  abbrev pub entries_of : ℕ → GbConfig → Act (Scene mnl.Buf) (Option (List GateEntry))
  entries_of count cfg =
      if count == 0
      then pure none
      else if malloc (count * 20)
      then filled (gb_fill_entries (some (replicate count blank)) count cfg.interval_ns)
      else raise (neg enomem)

  -- what a builder leaves in the message, or its code
  abbrev pub built :
      Message mnl.Buf → Option (ℤ × Option (NlMsg mnl.Buf)) → Act (Scene mnl.Buf) (Message mnl.Buf)
  built msg none sc = none
  built msg (some (ret, none)) sc = some (err ret, sc)
  built msg (some (ret, some b)) sc =
      if is_neg ret
      then some (err ret, sc)
      else some (ok (record { buf = kept msg.buf b.buf; cap = b.cap; len = b.len }), sc)

  abbrev pub to_build : Message mnl.Buf → Option (NlMsg mnl.Buf)
  to_build msg = some (record { buf = some msg.buf; cap = msg.cap; len = msg.len })

  abbrev pub shape_of : GbConfig → ℕ → GateShape
  shape_of cfg count = record {
    clockid = cfg.clockid;
    base_time = cfg.base_time;
    cycle_time = cfg.cycle_time;
    cycle_time_ext = cfg.cycle_time_ext;
    interval_ns = cfg.interval_ns;
    entries = count;
  }

  -- What gb_stats_calculate stores, or its code.
  abbrev pub summed :
      Option (ℤ × Option GbStats × Option (Summary double.F))
      → GbStats
      → Act (Scene mnl.Buf) (GbStats × Summary double.F)
  summed none old sc = none
  summed (some (ret, s, none)) old sc = some (err ret, sc)
  summed (some (ret, s, some x)) old sc =
      if is_neg ret then some (err ret, sc) else some (ok (kept old s, x), sc)

  -- if (cfg->sample_mode) { ... }
  abbrev pub sample_count_of : GbConfig → GbStats → ℕ
  sample_count_of cfg stats = if cfg.sample_mode then stats.count % u32_mod else 0

  abbrev pub samples_of : GbConfig → GbStats → Option (List ℕ)
  samples_of cfg stats =
      if cfg.sample_mode && (ltb 0 stats.count && malloc (stats.count * 8 % u64_mod))
      then some (stored stats)
      else none

  -- (double)cfg->iters * 2.0 / secs, where secs is above 0
  abbrev pub rate : GbConfig → double.F → double.F
  rate cfg secs =
      if double.lt double.f0 secs
      then double.div (double.mul (double.of_ℕ cfg.iters) double.f2) secs
      else double.f0

  abbrev pub result_of :
      GbConfig → ℕ → ℕ → ℕ → ℕ → ℕ → GbStats × Summary double.F → RunResult double.F
  result_of cfg create_len replace_len del_len start_ns end_ns (stats, x) =
      let secs = double.div (double.of_ℕ (elapsed start_ns end_ns)) double.f1e9 in
      record {
        secs = secs;
        ops_per_sec = rate cfg secs;
        summary = x;
        create_len = create_len % u32_mod;
        replace_len = replace_len % u32_mod;
        del_len = del_len % u32_mod;
        samples = samples_of cfg stats;
        sample_count = sample_count_of cfg stats;
      }

  -- What follows the building of the messages.
  unfoldable pub timed_run :
      GbConfig
      → Message mnl.Buf
      → Message mnl.Buf
      → Message mnl.Buf
      → GbStats
      → Act (Scene mnl.Buf) (RunResult double.F)
  unfolding warm measure send now
  timed_run cfg create replace del stats = do
    warmed ← warm cfg.warmup create replace
    d ← send mnl del
    raise_if (refused_but enoent d.0) d.0
    start_ns ← now mnl
    me ← measure cfg 0 cfg.iters (record { create = warmed.0; replace = warmed.1; stats = stats })
    end_ns ← now mnl
    send mnl d.1
    x ← summed (gb_stats_calculate sort double (some me.stats)) me.stats
    pure (result_of cfg create.len replace.len del.len start_ns end_ns x)

  unfoldable pub benchmark_single_run : GbConfig → Act (Scene mnl.Buf) (RunResult double.F)
  unfolding timed_run gb_stats_init build_gate_newaction build_gate_delaction gate_msg_capacity
      gb_fill_entries
  benchmark_single_run cfg =
      let count = if ltb gb_max_entries cfg.entries then gb_max_entries else cfg.entries in
      let (ret, stats) = gb_stats_init malloc (some stats_before) (cfg.iters * 2 % u32_mod) in
      let capacity = gate_msg_capacity socket_buffer count 0 in
      let newaction = λ (msg : Message mnl.Buf) (es : Option (List GateEntry)) (flags : ℕ).
        built msg (
          build_gate_newaction mnl (to_build msg) cfg.index (some (shape_of cfg count)) es count
            flags 0 (neg 1)) in
      do
        raise_if (is_neg ret) ret
        or_enomem (gb_nl_msg_alloc malloc fresh socket_buffer)
        es ← entries_of count cfg
        create ← or_enomem (gb_nl_msg_alloc malloc fresh capacity)
        replace ← or_enomem (gb_nl_msg_alloc malloc fresh capacity)
        del ← or_enomem (gb_nl_msg_alloc malloc fresh 1024)
        create' ← newaction create es (bit_or nlm_f_create nlm_f_excl)
        replace' ← newaction replace es (bit_or nlm_f_create nlm_f_replace)
        del' ← built del (some (build_gate_delaction mnl (to_build del) cfg.index))
        timed_run cfg create' replace' del' (kept stats_before stats)
