-- ===== src/Base/Sort.antt =====
-- What the program takes from outside for its statistics: qsort of the C library.
use Prim.Native.Nat.{zero, suc}
use mathlib.Core.Path.{◌≡◌}
use mathlib.Core.Bool.{Bool, true, false}
use mathlib.Core.List.{List, [], ◌∷◌, Perm}
use gatebench.Base.Lists.{All, length}
use gatebench.Base.Int.{ℤ, pos, negsuc}

-- cmp(a, b) > 0
abbrev pub is_pos : ℤ → Bool
is_pos (pos zero) = false
is_pos (pos (suc n)) = true
is_pos (negsuc n) = false

module _ {A : Type 0} where
  -- `a` may stand before `b`.
  abbrev pub LeBy : (A → A → ℤ) → A → A → Type 0
  LeBy cmp a b = is_pos (cmp a b) ≡ false

  abbrev pub IsSortedBy : (A → A → ℤ) → List A → Type 0
  IsSortedBy cmp [] = Unit
  IsSortedBy cmp (x ∷ xs) = All (LeBy cmp x) xs × IsSortedBy cmp xs

-- What qsort asks of its comparison: a total order.
pub record IsOrder {A : Type 0} (cmp : A → A → ℤ) : Type 0 where
  pub total : (a b : A) → is_pos (cmp a b) ≡ true → LeBy cmp b a
  pub trans : (a b c : A) → LeBy cmp a b → LeBy cmp b c → LeBy cmp a c

-- qsort with a comparison that is an order: the elements rearranged, in ascending order.
pub record Qsort (A : Type 0) : Type 0 where
  pub qsort : (A → A → ℤ) → List A → List A
  pub qsort-perm : (cmp : A → A → ℤ) (l : List A) → Perm (qsort cmp l) l
  pub length-qsort : (cmp : A → A → ℤ) (l : List A) → length (qsort cmp l) ≡ length l
  pub qsort-IsSortedBy : (cmp : A → A → ℤ) (l : List A) → IsOrder cmp → IsSortedBy cmp (qsort cmp l)
