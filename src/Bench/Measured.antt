-- ===== src/Bench/Measured.antt =====
-- The loops of the benchmark beside a kernel that answers.
use gatebench.Base.{
  ℕ, zero, suc, ◌+◌, ◌*◌, ◌≤◌, ◌<◌, ◌^◌, ◌≡◌, refl, Option, some, List, ◌∷◌, is_neg, if◌then◌else◌,
  arith, eexist,
}
use gatebench.Config.{GbConfig}
use gatebench.Nl.Exchange.{Message}
use gatebench.Stats.Growth.{IsValid}
use gatebench.Bench.Taken.{takes, taken, stats_add_sample-Grown}
use gatebench.Bench.Act.{Machine, Scene, Result, ok}
use gatebench.Bench.Run.{Meter, refused_but, elapsed, warm, measure_once, measure}
use gatebench.Bench.Served.{Request, Ready, send-Sent, now-Read}

module _ (w : Machine) (cfg : GbConfig) where
  open w use {mnl, realloc}

  -- Both messages fit their buffers.
  pub record Fits (me : Meter mnl.Buf) (create_len replace_len : ℕ) : Type 0 where
    pub create_fits : me.create.len ≤ me.create.cap
    pub replace_fits : me.replace.len ≤ me.replace.cap
    pub create_same : me.create.len ≡ create_len
    pub replace_same : me.replace.len ≡ replace_len

  -- The loop went on, with so many more latencies.
  pub record Went (n : ℕ) (rs : List Request) (c r : ℕ) (more : ℕ) (me : Meter mnl.Buf)
      (o : Option (Result (Meter mnl.Buf) × Scene mnl.Buf)) : Type 0 where
    pub meter : Meter mnl.Buf
    pub after : Scene mnl.Buf
    pub eq : o ≡ some (ok meter, after)
    pub ready : Ready mnl n rs after
    pub fits : Fits meter c r
    pub valid : IsValid meter.stats
    pub counted : meter.stats.count ≡ me.stats.count + more
    pub same_capacity : meter.stats.capacity ≡ me.stats.capacity

  measure_once-Went :
      (i n c r : ℕ) (rs : List Request) (me : Meter mnl.Buf) (sc : Scene mnl.Buf)
      → Fits me c r
      → IsValid me.stats
      → me.stats.count + 2 ≤ me.stats.capacity
      → me.stats.capacity < 2 ^ 59
      → Ready mnl (suc (suc (suc (suc n)))) ((c, refused_but eexist) ∷ (r, is_neg) ∷ rs) sc
      → Went n rs c r (if takes cfg i then 2 else 0) me (measure_once w cfg i me sc)
  unfolding measure_once
  measure_once-Went i n c r rs me sc f v room small ready =
      let a =
        now-Read mnl (suc (suc (suc n))) ((c, refused_but eexist) ∷ (r, is_neg) ∷ rs) sc ready in
      let s =
        send-Sent mnl me.create c (refused_but eexist) (suc (suc (suc n))) ((r, is_neg) ∷ rs)
          a.after f.create_fits f.create_same a.ready in
      let b = now-Read mnl (suc (suc n)) ((r, is_neg) ∷ rs) s.after s.ready in
      let g =
        stats_add_sample-Grown realloc me.stats cfg i (elapsed a.time b.time) v (omega arith)
          small in
      let a' = now-Read mnl (suc n) ((r, is_neg) ∷ rs) b.after b.ready in
      let s' =
        send-Sent mnl me.replace r is_neg (suc n) rs a'.after f.replace_fits f.replace_same
          a'.ready in
      let b' = now-Read mnl n rs s'.after s'.ready in
      let room' : g.stats.count < g.stats.capacity = ground (arith, g.counted, g.same_capacity) in
      let g' =
        stats_add_sample-Grown realloc g.stats cfg i (elapsed a'.time b'.time) g.valid room'
          (omega (arith, g.same_capacity)) in
      record {
        meter = record {
          create = record me.create { buf = s.buf };
          replace = record me.replace { buf = s'.buf };
          stats = g'.stats;
        };
        after = b'.after;
        eq =
            rw
              (
                a.runs, s.runs, s.goes_on, b.runs, g.eq, a'.runs, s'.runs, s'.goes_on, b'.runs,
                g'.eq,
              )
              refl;
        ready = b'.ready;
        fits = record {
          create_fits = f.create_fits;
          replace_fits = f.replace_fits;
          create_same = f.create_same;
          replace_same = f.replace_same;
        };
        valid = g'.valid;
        counted = ground (arith, g.counted, g'.counted);
        same_capacity = omega (arith, g.same_capacity, g'.same_capacity);
      }

  -- What the loop asks for: two requests and four readings of the clock for each index.
  abbrev pub rounds : ℕ → ℕ → ℕ → List Request → List Request
  rounds c r zero rs = rs
  rounds c r (suc left) rs = (c, refused_but eexist) ∷ (r, is_neg) ∷ rounds c r left rs

  abbrev pub readings : ℕ → ℕ → ℕ
  readings zero n = n
  readings (suc left) n = suc (suc (suc (suc (readings left n))))

  taken-bound : (i left : ℕ) → taken cfg i left ≤ 2 * left
  taken-bound i zero = omega arith
  taken-bound i (suc left) = ground (arith, taken-bound (i + 1) left)

  -- Where the kernel answers each request with a code that the benchmark goes on with, and the clock
  -- can be read, the measuring loop runs to its end: it keeps the invariant of the samples and adds
  -- two latencies for each index that is kept, with room for all of them.
  pub measure-Went :
      (left i n c r : ℕ) (rs : List Request) (me : Meter mnl.Buf) (sc : Scene mnl.Buf)
      → Fits me c r
      → IsValid me.stats
      → me.stats.count + 2 * left ≤ me.stats.capacity
      → me.stats.capacity < 2 ^ 59
      → Ready mnl (readings left n) (rounds c r left rs) sc
      → Went n rs c r (taken cfg i left) me (measure w cfg i left me sc)
  unfolding measure
  measure-Went zero i n c r rs me sc f v room small ready = record {
    meter = me;
    after = sc;
    eq = refl;
    ready = ready;
    fits = f;
    valid = v;
    counted = omega arith;
    same_capacity = refl;
  }
  measure-Went (suc left) i n c r rs me sc f v room small ready =
      let one =
        measure_once-Went i (readings left n) c r (rounds c r left rs) me sc f v (omega arith) small
          ready in
      let room' : one.meter.stats.count + 2 * left ≤ one.meter.stats.capacity =
        ground (arith, one.counted, one.same_capacity) in
      let rest =
        measure-Went left (i + 1) n c r rs one.meter one.after one.fits one.valid room'
          (omega (arith, one.same_capacity)) one.ready in
      record {
        meter = rest.meter;
        after = rest.after;
        eq = rw (measure, one.eq) rest.eq;
        ready = rest.ready;
        fits = rest.fits;
        valid = rest.valid;
        counted = omega (arith, one.counted, rest.counted);
        same_capacity = omega (arith, one.same_capacity, rest.same_capacity);
      }

  -- The warming up asks for two requests in each round.
  pub record Warmed (n c r : ℕ) (rs : List Request)
      (o : Option (Result (Message mnl.Buf × Message mnl.Buf) × Scene mnl.Buf)) : Type 0 where
    pub create : Message mnl.Buf
    pub replace : Message mnl.Buf
    pub after : Scene mnl.Buf
    pub eq : o ≡ some (ok (create, replace), after)
    pub ready : Ready mnl n rs after
    pub create_fits : create.len ≤ create.cap
    pub replace_fits : replace.len ≤ replace.cap
    pub create_same : create.len ≡ c
    pub replace_same : replace.len ≡ r

  pub warm-Warmed :
      (left n c r : ℕ) (rs : List Request) (create replace : Message mnl.Buf) (sc : Scene mnl.Buf)
      → create.len ≤ create.cap
      → replace.len ≤ replace.cap
      → create.len ≡ c
      → replace.len ≡ r
      → Ready mnl n (rounds c r left rs) sc
      → Warmed n c r rs (warm w left create replace sc)
  unfolding warm
  warm-Warmed zero n c r rs create replace sc fc fr ec er ready = record {
    create = create;
    replace = replace;
    after = sc;
    eq = refl;
    ready = ready;
    create_fits = fc;
    replace_fits = fr;
    create_same = ec;
    replace_same = er;
  }
  warm-Warmed (suc left) n c r rs create replace sc fc fr ec er ready =
      let s =
        send-Sent mnl create c (refused_but eexist) n ((r, is_neg) ∷ rounds c r left rs) sc fc ec
          ready in
      let s' = send-Sent mnl replace r is_neg n (rounds c r left rs) s.after fr er s.ready in
      let rest =
        warm-Warmed left n c r rs (record create { buf = s.buf }) (record replace { buf = s'.buf })
          s'.after fc fr ec er s'.ready in
      record {
        create = rest.create;
        replace = rest.replace;
        after = rest.after;
        eq = rw (warm, s.runs, s.goes_on, s'.runs, s'.goes_on) rest.eq;
        ready = rest.ready;
        create_fits = rest.create_fits;
        replace_fits = rest.replace_fits;
        create_same = rest.create_same;
        replace_same = rest.replace_same;
      }
