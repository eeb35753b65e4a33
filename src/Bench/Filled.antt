-- ===== src/Bench/Filled.antt =====
-- What gb_fill_entries writes.
use gatebench.Base.{
  Bool, not, neg, ◌&&◌, ℕ, zero, suc, ◌+◌, ◌-◌, ◌*◌, ◌/◌, ◌%◌, ◌<◌, ◌^◌, ◌≡◌, refl, false, some,
  List, [], ◌∷◌, pos, leb, ltb, ◌==◌, if◌then◌else◌, length, All, arith, u32_mod, Bool-cases, inl,
  inr,
}
use gatebench.Gate.Types.{GateEntry}
use gatebench.Gate.EntryTrip.{IsEntry}
use gatebench.Bench.{slot, fill_from, gb_fill_entries}

-- How many entries close the gate, and how long the entries last together.
abbrev pub closed : List GateEntry → ℕ
closed [] = 0
closed (e ∷ es) = (if e.gate_state then 0 else 1) + closed es

abbrev pub duration : List GateEntry → ℕ
duration [] = 0
duration (e ∷ es) = e.interval + duration es

-- The guard slots: every tenth of ten or more.
abbrev pub is_guard : ℕ → ℕ → Bool
is_guard n i = leb 10 n && ((i + 1) % 10 == 0)

-- Entry i of n has its number and the interval; a guard slot closes the gate without limits, and the
-- others open it for two classes in turn.
pub record IsPatterned (n interval_ns i : ℕ) (e : GateEntry) : Type 0 where
  pub numbered : e.index ≡ i
  pub timed : e.interval ≡ interval_ns
  pub state : e.gate_state ≡ not (is_guard n i)
  pub class : e.ipv ≡ (if is_guard n i then neg 1 else if i % 2 == 0 then pos 7 else pos 0)
  pub limit :
      e.maxoctets ≡ (if is_guard n i then neg 1 else if i % 2 == 0 then pos 8192 else pos 32768)

-- The entries from the i-th of n on.
abbrev pub ArePatterned : ℕ → ℕ → ℕ → List GateEntry → Type 0
ArePatterned n interval_ns i [] = Unit
ArePatterned n interval_ns i (e ∷ es) =
    IsPatterned n interval_ns i e × ArePatterned n interval_ns (i + 1) es

slot-IsPatterned :
    (n interval_ns i : ℕ)
    → interval_ns < 2 ^ 32
    → IsPatterned n interval_ns i (slot n interval_ns i)
slot-IsPatterned n interval_ns i small = elim (Bool-cases (leb 10 n && ((i + 1) % 10 == 0))) [
  | inl e ↦ record {
    numbered = rw e refl;
    timed = rw e (omega arith);
    state = rw e refl;
    class = rw e refl;
    limit = rw e refl;
  }
  | inr e ↦ elim (Bool-cases (i % 2 == 0)) [
    | inl k ↦ record {
      numbered = rw (e, k) refl;
      timed = rw (e, k) (omega arith);
      state = rw (e, k) refl;
      class = rw (e, k) refl;
      limit = rw (e, k) refl;
    }
    | inr k ↦ record {
      numbered = rw (e, k) refl;
      timed = rw (e, k) (omega arith);
      state = rw (e, k) refl;
      class = rw (e, k) refl;
      limit = rw (e, k) refl;
    }
  ]
]

-- What the loop gives from index i on.
record Filled (n interval_ns i left : ℕ) (es : List GateEntry) : Type 0 where
  same_length : length es ≡ left
  fit : All IsEntry es
  pattern : ArePatterned n interval_ns i es
  guards : closed es ≡ (if leb 10 n then (i + left) / 10 - i / 10 else 0)
  lasts : duration es ≡ left * interval_ns

slot-IsEntry : (n interval_ns i : ℕ) → IsEntry (slot n interval_ns i)
slot-IsEntry n interval_ns i = elim (Bool-cases (leb 10 n && ((i + 1) % 10 == 0))) [
  | inl e ↦
      rw e
        (record { interval_u32 = omega arith; ipv_s32 = omega arith; maxoctets_s32 = omega arith })
  | inr e ↦ elim (Bool-cases (i % 2 == 0)) [
    | inl k ↦
        rw (e, k)
          (record {
            interval_u32 = omega arith;
            ipv_s32 = omega arith;
            maxoctets_s32 = omega arith;
          })
    | inr k ↦
        rw (e, k)
          (record {
            interval_u32 = omega arith;
            ipv_s32 = omega arith;
            maxoctets_s32 = omega arith;
          })
  ]
]

fill_from-Filled :
    (n interval_ns i left : ℕ) (cells : List GateEntry)
    → interval_ns < 2 ^ 32
    → length cells ≡ left
    → (es : List GateEntry) × (fill_from n interval_ns i left cells ≡ some es)
      × Filled n interval_ns i left es
unfolding fill_from
fill_from-Filled n interval_ns i zero [] small e = (
  [],
  refl,
  record { same_length = refl; fit = tt; pattern = tt; guards = ground arith; lasts = omega arith },
)
fill_from-Filled n interval_ns i zero (c ∷ cells) small e = absurd (omega arith)
fill_from-Filled n interval_ns i (suc left) [] small e = absurd (omega arith)
fill_from-Filled n interval_ns i (suc left) (c ∷ cells) small e =
    let (es, q, f) = fill_from-Filled n interval_ns (i + 1) left cells small (omega arith) in
    (
      slot n interval_ns i ∷ es,
      rw q refl,
      record {
        same_length = omega (arith, f.same_length);
        fit = (slot-IsEntry n interval_ns i, f.fit);
        pattern = (slot-IsPatterned n interval_ns i small, f.pattern);
        guards = ground (arith, f.guards);
        lasts = ground (arith, f.lasts);
      },
    )

-- For an array of n > 0 entries and an interval of 1 to 2 ^ 32 - 1 ns, gb_fill_entries writes no cell
-- outside and returns 0 with n entries that fit their types. Entry i has index i and the interval; if
-- there are ten or more, every tenth closes the gate, with ipv and maxoctets -1; the others open it,
-- at even places for class 7 with 8192 octets, at odd ones for class 0 with 32768. So n / 10 of ten or
-- more are closed, and together the entries last n times the interval.
pub gb_fill_entries-Filled :
    (cells : List GateEntry) (n interval_ns : ℕ)
    → length cells ≡ n
    → 0 < n
    → 0 < interval_ns
    → interval_ns < 2 ^ 32
    → (es : List GateEntry) × (gb_fill_entries (some cells) n interval_ns ≡ some (pos 0, some es))
      × (length es ≡ n)
      × All IsEntry es
      × ArePatterned n interval_ns 0 es
      × (closed es ≡ (if leb 10 n then n / 10 else 0))
      × (duration es ≡ n * interval_ns)
unfolding gb_fill_entries
gb_fill_entries-Filled cells n interval_ns e some_cells some_time small =
    let (es, q, f) = fill_from-Filled n interval_ns 0 n cells small e in
    let nonzero : (n == 0) ≡ false = ground arith in
    let low : (ltb (u32_mod - 1) interval_ns) ≡ false = ground arith in
    let high : (interval_ns == 0) ≡ false = ground arith in
    (
      es,
      rw (nonzero, low, high, q) refl,
      f.same_length,
      f.fit,
      f.pattern,
      ground (arith, f.guards),
      f.lasts,
    )
