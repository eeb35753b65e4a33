-- ===== src/Stats/Cells.antt =====
-- Cells of an ascending array against the values that it holds.
use mathlib.Core.List.{Mem, mem-cons, mem-cons_self, mem-cons_of_mem, not-mem-nil}
use mathlib.Core.Logic.Or
use native.Mathlib.Bridge.{le_prop}
use gatebench.Base.{
  ℕ, zero, suc, ◌≤◌, ◌<◌, ◌≡◌, some, List, [], ◌∷◌, arith, length, get_elem?, All, subst, sym, refl,
  some,
}
use gatebench.Base.Sort.{IsSortedBy, LeBy}
use gatebench.Stats.{compare_u64}
use gatebench.Stats.Sorting.{compare_u64-le}

abbrev pub IsLeast : ℕ → List ℕ → Type 0
IsLeast m l = Mem m l × ((x : ℕ) → Mem x l → m ≤ x)

abbrev pub IsGreatest : ℕ → List ℕ → Type 0
IsGreatest m l = Mem m l × ((x : ℕ) → Mem x l → x ≤ m)

All-le : (m : ℕ) (l : List ℕ) → All (LeBy compare_u64 m) l → (x : ℕ) → Mem x l → m ≤ x
All-le m [] h x k = absurd (not-mem-nil k)
All-le m (y ∷ l) h x k =
    Or.elim le_prop (mem-cons.0 k) (λ e. subst (λ z. m ≤ z) (sym e) (compare_u64-le m y h.0))
      (All-le m l h.1 x)

-- An index inside the array reads a cell, whose value the array holds.
pub cell_inside :
    {A : Type 0} (l : List A) (i : ℕ) → i < length l → (v : A) × (get_elem? l i ≡ some v)
cell_inside [] i h = absurd (omega arith)
cell_inside (x ∷ l) zero h = (x, refl)
cell_inside (x ∷ l) (suc i) h = cell_inside l i (omega arith)

pub cell-mem : (l : List ℕ) (i v : ℕ) → get_elem? l i ≡ some v → Mem v l
cell-mem [] i v e = absurd (ground arith)
cell-mem (x ∷ l) zero v e = subst (λ z. Mem z (x ∷ l)) (cc) mem-cons_self
cell-mem (x ∷ l) (suc i) v e = mem-cons_of_mem x (cell-mem l i v e)

-- In an ascending array a later cell is no smaller.
pub cells_ascend :
    (l : List ℕ) (i j a b : ℕ)
    → IsSortedBy compare_u64 l
    → i ≤ j
    → get_elem? l i ≡ some a
    → get_elem? l j ≡ some b
    → a ≤ b
cells_ascend [] i j a b s h e f = absurd (ground arith)
cells_ascend (x ∷ l) zero zero a b s h e f = ground arith
cells_ascend (x ∷ l) zero (suc j) a b s h e f =
    let below : x ≤ b = All-le x l s.0 b (cell-mem l j b f) in ground arith
cells_ascend (x ∷ l) (suc i) zero a b s h e f = absurd (omega arith)
cells_ascend (x ∷ l) (suc i) (suc j) a b s h e f = cells_ascend l i j a b s.1 (omega arith) e f

pub first-IsLeast :
    (l : List ℕ) (m : ℕ) → IsSortedBy compare_u64 l → get_elem? l 0 ≡ some m → IsLeast m l
first-IsLeast [] m s e = absurd (ground arith)
first-IsLeast (y ∷ l) m s e = (
  cell-mem (y ∷ l) 0 m e,
  λ x k.
      Or.elim le_prop (mem-cons.0 k) (λ q. omega (arith, first))
        (λ k'. let le : y ≤ x = All-le y l s.0 x k' in omega (arith, first)),
)
  where
    first : y ≡ m
    first = ground arith

last_ge :
    (l : List ℕ) (n m : ℕ)
    → IsSortedBy compare_u64 l
    → length l ≡ suc n
    → get_elem? l n ≡ some m
    → (x : ℕ) → Mem x l
    → x ≤ m
last_ge [] n m s c e x k = absurd (not-mem-nil k)
last_ge (y ∷ []) zero m s c e x k =
    Or.elim le_prop (mem-cons.0 k) (λ q. ground arith) (λ k'. absurd (not-mem-nil k'))
last_ge (y ∷ z ∷ l) zero m s c e x k = absurd (omega arith)
last_ge (y ∷ l) (suc n) m s c e x k =
    Or.elim le_prop (mem-cons.0 k)
      (λ q. let le : y ≤ m = All-le y l s.0 m (cell-mem l n m e) in omega arith)
      (last_ge l n m s.1 (omega arith) e x)

pub last-IsGreatest :
    (l : List ℕ) (n m : ℕ)
    → IsSortedBy compare_u64 l
    → length l ≡ suc n
    → get_elem? l n ≡ some m
    → IsGreatest m l
last-IsGreatest l n m s c e = (cell-mem l n m e, last_ge l n m s c e)
