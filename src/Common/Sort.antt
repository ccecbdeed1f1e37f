-- ===== src/Common/Sort.antt =====
-- `Array.prototype.sort` with a comparator: a stable sort. The engine's algorithm is not in the
-- program; with a consistent comparator every stable sort returns the list that this one does.
pub mod Laws
use Prim.Native.Nat.{Ordering}
use mathlib.Core.Path.{◌≡◌}
use mathlib.Core.Logic.{◌≢◌}
use mathlib.Core.Bool.{Bool, true, false}
use mathlib.Core.List.{List, [], ◌∷◌}
use wai_ai.Common.Tests.{if◌then◌else◌}

-- The sign of a comparator's result: `lt` is negative, `gt` positive.
abbrev pub Comparator {ℓ} : Type ℓ → Type ℓ
Comparator A = A → A → Ordering

module _ {ℓ} {A : Type ℓ} (cmp : Comparator A) where
  unfoldable pub insert : A → List A → List A
  insert x [] = x ∷ []
  insert x (y ∷ ys) = elim (cmp x y) [ Ordering.gt ↦ y ∷ insert x ys | _ ↦ x ∷ y ∷ ys ]

  unfoldable pub sort : List A → List A
  unfolding insert
  sort [] = []
  sort (x ∷ xs) = insert x (sort xs)

-- `a < b ? -1 * dir : a > b ? 1 * dir : 0` on the keys of two items.
unfoldable pub compare_by {ℓ κ} :
    {A : Type ℓ} {K : Type κ} → (K → K → Bool) → (A → K) → Bool → Comparator A
compare_by lt key asc a b =
    if lt (key a) (key b)
    then (if asc then Ordering.lt else Ordering.gt)
    else if lt (key b) (key a)
    then (if asc then Ordering.gt else Ordering.lt)
    else Ordering.eq

-- A strict weak order, as the comparisons `<` of numbers and of texts are.
pub record IsStrictOrder {ℓ} {K : Type ℓ} (lt : K → K → Bool) : Type ℓ where
  pub asym : (a b : K) → lt a b ≡ true → lt b a ≡ false
  pub neg_trans : (a b c : K) → lt a b ≡ false → lt b c ≡ false → lt a c ≡ false

-- A comparator for which sorting is well defined.
pub record IsConsistent {ℓ} {A : Type ℓ} (cmp : Comparator A) : Type ℓ where
  pub flip : (a b : A) → cmp a b ≡ Ordering.gt → cmp b a ≢ Ordering.gt
  pub chain : (a b c : A) → cmp a b ≢ Ordering.gt → cmp b c ≢ Ordering.gt → cmp a c ≢ Ordering.gt

-- Every item stands before those that it may not follow.
abbrev pub NoneBefore {ℓ} : {A : Type ℓ} → Comparator A → A → List A → Type 0
NoneBefore cmp x [] = Unit
NoneBefore cmp x (y ∷ ys) = (cmp x y ≢ Ordering.gt) × NoneBefore cmp x ys

abbrev pub IsOrdered {ℓ} : {A : Type ℓ} → Comparator A → List A → Type 0
IsOrdered cmp [] = Unit
IsOrdered cmp (x ∷ xs) = NoneBefore cmp x xs × IsOrdered cmp xs
