-- ===== src/Common/Lists.antt =====
-- Lists measured by native numbers, Boolean tests on lists, and predicates by recursion.
use Prim.Native.Nat.{ℕ, zero, suc, ◌+◌, ◌-◌, ◌≤◌, ◌<◌, min}
use Prim.Native.String.{String}
use mathlib.Core.Path.{◌≡◌, refl, ap, sym, subst}
use mathlib.Core.Logic.{◌⊎◌, ◌↔◌, inl, inr}
use mathlib.Core.List.{List, [], ◌∷◌, ◌++◌}
use mathlib.Core.Bool.{Bool, true, false, ◌&&◌, ◌||◌}
use mathlib.Core.Option.{Option, none, some}
use native.Mathlib.Omega.{arith}
use text.Mathlib.Text.{◌==◌}
use text.Mathlib.TextEquality.{eq_iff}
use wai_ai.Common.Tests.{if◌then◌else◌, Bool-cases}

module _ {ℓ} {A : Type ℓ} where
  abbrev pub length : List A → ℕ
  length [] = 0
  length (x ∷ xs) = suc (length xs)

  -- `xs.slice(0, n)`
  abbrev pub take : ℕ → List A → List A
  take zero xs = []
  take (suc n) [] = []
  take (suc n) (x ∷ xs) = x ∷ take n xs

  -- `xs.slice(n)`
  abbrev pub drop : ℕ → List A → List A
  drop zero xs = xs
  drop (suc n) [] = []
  drop (suc n) (x ∷ xs) = drop n xs

  -- `xs[0]`
  abbrev pub head? : List A → Option A
  head? [] = none
  head? (x ∷ xs) = some x

  -- `xs.filter(p)`
  abbrev pub filter : (A → Bool) → List A → List A
  filter p [] = []
  filter p (x ∷ xs) = if p x then x ∷ filter p xs else filter p xs

  -- `xs.some(p)`
  abbrev pub any : (A → Bool) → List A → Bool
  any p [] = false
  any p (x ∷ xs) = p x || any p xs

  -- `xs.every(p)`
  abbrev pub all : (A → Bool) → List A → Bool
  all p [] = true
  all p (x ∷ xs) = p x && all p xs

  -- `xs.find(p)`
  abbrev pub find : (A → Bool) → List A → Option A
  find p [] = none
  find p (x ∷ xs) = if p x then some x else find p xs

  pub length-append : (xs ys : List A) → length (xs ++ ys) ≡ length xs + length ys
  length-append [] ys = omega arith
  length-append (x ∷ xs) ys = omega (arith, length-append xs ys)

  pub length-take : (n : ℕ) (xs : List A) → length (take n xs) ≡ min n (length xs)
  length-take zero xs = omega arith
  length-take (suc n) [] = omega arith
  length-take (suc n) (x ∷ xs) = omega (arith, length-take n xs)

  pub length-drop : (n : ℕ) (xs : List A) → length (drop n xs) ≡ length xs - n
  length-drop zero xs = omega arith
  length-drop (suc n) [] = omega arith
  length-drop (suc n) (x ∷ xs) = omega (arith, length-drop n xs)

  pub length-filter : (p : A → Bool) (xs : List A) → length (filter p xs) ≤ length xs
  length-filter p [] = omega arith
  length-filter p (x ∷ xs) = ground (arith, length-filter p xs)

  pub take_all : (n : ℕ) (xs : List A) → length xs ≤ n → take n xs ≡ xs
  take_all zero [] h = refl
  take_all zero (x ∷ xs) h = absurd (omega arith)
  take_all (suc n) [] h = refl
  take_all (suc n) (x ∷ xs) h = ap (◌∷◌ x) (take_all n xs (omega arith))

-- `xs.includes(s)`
abbrev pub member : String → List String → Bool
member s xs = any (λ x. x == s) xs

module _ {ℓ κ} {A : Type ℓ} (P : A → Type κ) where
  abbrev pub All : List A → Type κ
  All [] = Unit
  All (x ∷ xs) = P x × All xs

  pub All-append : (xs ys : List A) → All xs → All ys → All (xs ++ ys)
  All-append [] ys h k = k
  All-append (x ∷ xs) ys (p, h) k = (p, All-append xs ys h k)

  pub All-take : (n : ℕ) (xs : List A) → All xs → All (take n xs)
  All-take zero xs h = tt
  All-take (suc n) [] h = tt
  All-take (suc n) (x ∷ xs) (p, h) = (p, All-take n xs h)

  pub All-drop : (n : ℕ) (xs : List A) → All xs → All (drop n xs)
  All-drop zero xs h = h
  All-drop (suc n) [] h = tt
  All-drop (suc n) (x ∷ xs) (p, h) = All-drop n xs h

  pub All-filter : (q : A → Bool) (xs : List A) → All xs → All (filter q xs)
  All-filter q [] h = tt
  All-filter q (x ∷ xs) (p, h) = ground (arith, All-filter q xs h)

  pub All-map_intro : ((x : A) → P x) → (xs : List A) → All xs
  All-map_intro f [] = tt
  All-map_intro f (x ∷ xs) = (f x, All-map_intro f xs)

-- What `filter` keeps passes the test.
pub filter-passes {ℓ} :
    {A : Type ℓ} (q : A → Bool) (xs : List A) → All (λ x. q x ≡ true) (filter q xs)
filter-passes q [] = tt
filter-passes q (x ∷ xs) = elim (Bool-cases (q x)) [
  | inl e ↦ rw e (e, filter-passes q xs)
  | inr e ↦ rw e (filter-passes q xs)
]

module _ {A : Type 0} where
  -- `x` stands in the list.
  abbrev pub Listed : A → List A → Type 0
  Listed x [] = ⊥
  Listed x (y ∷ ys) = (x ≡ y) ⊎ Listed x ys

  -- No value stands twice.
  abbrev pub AllDistinct : List A → Type 0
  AllDistinct [] = Unit
  AllDistinct (x ∷ xs) = (Listed x xs → ⊥) × AllDistinct xs

  pub length_pos_of_Listed : (x : A) (xs : List A) → Listed x xs → 0 < length xs
  length_pos_of_Listed x [] h = elim h [ ]
  length_pos_of_Listed x (y ∷ ys) h = omega arith

  pub Listed-append : (x : A) (xs ys : List A) → Listed x (xs ++ ys) ↔ (Listed x xs ⊎ Listed x ys)
  Listed-append x [] ys = ground arith
  Listed-append x (y ∷ xs) ys = ground (arith, Listed-append x xs ys)

  -- What holds of all items holds of a listed one.
  pub of_Listed : (P : A → Type 0) (x : A) (xs : List A) → All P xs → Listed x xs → P x
  of_Listed P x [] h at = absurd at
  of_Listed P x (y ∷ ys) (p, h) (inl e) = subst P (sym e) p
  of_Listed P x (y ∷ ys) (p, h) (inr at) = of_Listed P x ys h at

  pub Listed-filter :
      (q : A → Bool) (x : A) (xs : List A) → Listed x (filter q xs) ↔ (Listed x xs × (q x ≡ true))
  Listed-filter q x [] = ground arith
  Listed-filter q x (y ∷ ys) = ground (arith, Listed-filter q x ys)

-- Membership in a list of texts, as the code tests it.
pub member_iff : (s : String) (xs : List String) → (member s xs ≡ true) ↔ Listed s xs
member_iff s [] = ground arith
member_iff s (x ∷ xs) = ground (arith, eq_iff x s, member_iff s xs)
