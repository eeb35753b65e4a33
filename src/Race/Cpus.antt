-- ===== src/Race/Cpus.antt =====
-- The CPUs that the workers of src/race.c are pinned to, and the clock that they read.
use gatebench.Base.{
  ℕ, zero, suc, ◌+◌, ◌*◌, ◌%◌, ◌≤◌, ◌<◌, ◌≡◌, refl, Bool, true, false, not, Option, none, some,
  List, [], ◌∷◌, ℤ, pos, negsuc, u64_mod, ◌==◌, ◌∙◌, sym, subst, if◌then◌else◌, min, length, All,
  arith, Bool-cases, inl, inr,
}
use gatebench.Util.{Call, failed, success, Timespec, cpu_setsize}

-- for (cpu = 0; cpu < CPU_SETSIZE && count < max; cpu++): from a CPU on, with so many CPUs left and so
-- much room
unfoldable pub set_cpus : (ℕ → Bool) → ℕ → ℕ → ℕ → List ℕ
set_cpus isset cpu zero room = []
set_cpus isset cpu (suc left) zero = []
set_cpus isset cpu (suc left) (suc room) =
    let with_it = set_cpus isset (cpu + 1) left room in
    let without = set_cpus isset (cpu + 1) left (suc room) in
    if isset cpu then cpu ∷ with_it else without

-- for (i = 0; i < nproc_i; i++) cpus[i] = i;
unfoldable pub first_cpus : ℕ → ℕ → List ℕ
first_cpus i zero = []
first_cpus i (suc left) = i ∷ first_cpus (i + 1) left

-- Behind sched_getaffinity: sysconf(_SC_NPROCESSORS_ONLN) is a number, or negative.
abbrev pub online_cpus : ℕ → ℤ → List ℕ
online_cpus max (negsuc n) = []
online_cpus max (pos nproc) = first_cpus 0 (min nproc max)

abbrev pub or_online : ℕ → ℤ → List ℕ → List ℕ
or_online max nproc [] = online_cpus max nproc
or_online max nproc (c ∷ cs) = c ∷ cs

-- What is written to `cpus`, its length being the number returned; `affinity` is `none` if
-- sched_getaffinity fails, `cpus` says that the pointer is not NULL.
unfoldable pub race_collect_cpus : Bool → ℤ → Option (ℕ → Bool) → ℤ → List ℕ
race_collect_cpus cpus (negsuc n) affinity nproc = []
race_collect_cpus cpus (pos max) none nproc =
    if not cpus then [] else if max == 0 then [] else online_cpus max nproc
race_collect_cpus cpus (pos max) (some isset) nproc =
    if not cpus
    then []
    else if max == 0
    then []
    else or_online max nproc (set_cpus isset 0 cpu_setsize max)

abbrev pub ns_of : Timespec → ℕ
ns_of (sec, nsec) = (sec * 1000000000 + nsec) % u64_mod

-- clock_gettime for the clock, then for CLOCK_MONOTONIC
unfoldable pub race_clock_now_ns : Call Timespec → Call Timespec → ℕ
race_clock_now_ns (success t) monotonic = ns_of t
race_clock_now_ns (failed e) (success t) = ns_of t
race_clock_now_ns (failed e) (failed e') = 0

-- Every element is greater than the one before, the first at least `low`.
abbrev pub Climbs : ℕ → List ℕ → Type 0
Climbs low [] = Unit
Climbs low (c ∷ cs) = (low ≤ c) × Climbs (c + 1) cs

Climbs-lower : (a b : ℕ) (cs : List ℕ) → a ≤ b → Climbs b cs → Climbs a cs
Climbs-lower a b [] h k = tt
Climbs-lower a b (c ∷ cs) h k = (omega (arith, k.0), k.1)

set_cpus-Climbs : (isset : ℕ → Bool) (cpu left room : ℕ) → Climbs cpu (set_cpus isset cpu left room)
unfolding set_cpus
set_cpus-Climbs isset cpu zero room = tt
set_cpus-Climbs isset cpu (suc left) zero = tt
set_cpus-Climbs isset cpu (suc left) (suc room) = elim (Bool-cases (isset cpu)) [
  | inl e ↦ rw (set_cpus, e) (omega arith, set_cpus-Climbs isset (cpu + 1) left room)
  | inr e ↦
      rw (set_cpus, e)
        (Climbs-lower cpu (cpu + 1) (set_cpus isset (cpu + 1) left (suc room)) (omega arith)
          (set_cpus-Climbs isset (cpu + 1) left (suc room)))
]

set_cpus-all :
    (isset : ℕ → Bool) (cpu left room : ℕ)
    → All (λ c. isset c ≡ true) (set_cpus isset cpu left room)
unfolding set_cpus
set_cpus-all isset cpu zero room = tt
set_cpus-all isset cpu (suc left) zero = tt
set_cpus-all isset cpu (suc left) (suc room) = elim (Bool-cases (isset cpu)) [
  | inl e ↦ rw (set_cpus, e) (e, set_cpus-all isset (cpu + 1) left room)
  | inr e ↦ rw (set_cpus, e) (set_cpus-all isset (cpu + 1) left (suc room))
]

length-set_cpus :
    (isset : ℕ → Bool) (cpu left room : ℕ) → length (set_cpus isset cpu left room) ≤ room
unfolding set_cpus
length-set_cpus isset cpu zero room = omega arith
length-set_cpus isset cpu (suc left) zero = omega arith
length-set_cpus isset cpu (suc left) (suc room) = elim (Bool-cases (isset cpu)) [
  | inl e ↦ rw (set_cpus, e) (omega (arith, length-set_cpus isset (cpu + 1) left room))
  | inr e ↦ rw (set_cpus, e) (length-set_cpus isset (cpu + 1) left (suc room))
]

set_cpus-some :
    (isset : ℕ → Bool) (cpu left room k : ℕ)
    → cpu ≤ k
    → k < cpu + left
    → isset k ≡ true
    → 0 < length (set_cpus isset cpu left (suc room))
unfolding set_cpus
set_cpus-some isset cpu zero room k low high s = absurd (omega arith)
set_cpus-some isset cpu (suc left) room k low high s = elim (Bool-cases (isset cpu)) [
  | inl e ↦ rw (set_cpus, e) (omega arith)
  | inr e ↦
      let other : (cpu == k) ≡ false = elim (Bool-cases (cpu == k)) [
        | inl q ↦ absurd (apart (sym e ∙ (subst (λ j. isset j ≡ true) (ground arith) s)))
        | inr q ↦ q
      ] in
      rw (set_cpus, e) (set_cpus-some isset (cpu + 1) left room k (ground arith) (omega arith) s)
]
  where
    apart : false ≡ true → ⊥
    apart e = cc

kept_cpus : (max : ℕ) (nproc : ℤ) (cs : List ℕ) → 0 < length cs → or_online max nproc cs ≡ cs
kept_cpus max nproc [] h = absurd (omega arith)
kept_cpus max nproc (c ∷ cs) h = refl

positive_test : (n : ℕ) → (suc n == 0) ≡ false
positive_test n = ground arith

-- Where the affinity of the process is known and allows some CPU below CPU_SETSIZE, and there is room
-- for at least one: race_collect_cpus finds at least one and at most as many CPUs as there is room for,
-- in ascending order without repetition, all of them allowed.
pub race_collect_cpus-allowed :
    (isset : ℕ → Bool) (max k : ℕ) (nproc : ℤ)
    → 0 < max
    → k < cpu_setsize
    → isset k ≡ true
    → let cs = race_collect_cpus true (pos max) (some isset) nproc in
      (0 < length cs) × (length cs ≤ max) × Climbs 0 cs × All (λ c. isset c ≡ true) cs
unfolding race_collect_cpus
race_collect_cpus-allowed isset zero k nproc room low s = absurd (omega arith)
race_collect_cpus-allowed isset (suc max) k nproc room low s =
    let cs = set_cpus isset 0 cpu_setsize (suc max) in
    let found = set_cpus-some isset 0 cpu_setsize max k (omega arith) (omega arith) s in
    rw (positive_test max, kept_cpus (suc max) nproc cs found)
      (
        found,
        length-set_cpus isset 0 cpu_setsize (suc max),
        set_cpus-Climbs isset 0 cpu_setsize (suc max),
        set_cpus-all isset 0 cpu_setsize (suc max),
      )
