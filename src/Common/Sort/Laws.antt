-- ===== src/Common/Sort/Laws.antt =====
-- The stable sort: a permutation, in order, and equal items keep their order.
use Prim.Native.Nat.{Ordering}
use mathlib.Core.Path.{◌≡◌, refl, ap, ◌∙◌}
use mathlib.Core.Logic.{◌≢◌}
use mathlib.Core.Bool.{Bool, true}
use mathlib.Core.List.{List, [], ◌∷◌, Perm}
use mathlib.Core.List.Perm
use native.Mathlib.Omega.{arith}
use wai_ai.Common.Tests.{if◌then◌else◌}
use wai_ai.Common.Lists.{filter}
use wai_ai.Common.Sort.{
  Comparator, insert, sort, compare_by, IsStrictOrder, IsConsistent, NoneBefore, IsOrdered,
}

module _ {ℓ} {A : Type ℓ} (cmp : Comparator A) where
  insert-perm : (x : A) (ys : List A) → Perm (insert cmp x ys) (x ∷ ys)
  unfolding insert
  insert-perm x [] = Perm.refl (x ∷ [])
  insert-perm x (y ∷ ys) = split (cmp x y) refl (insert-perm x ys)
    where
      split :
          (o : Ordering)
          → cmp x y ≡ o
          → Perm (insert cmp x ys) (x ∷ ys)
          → Perm (insert cmp x (y ∷ ys)) (x ∷ y ∷ ys)
      split Ordering.lt e ih = rw (e, insert) (Perm.refl _)
      split Ordering.eq e ih = rw (e, insert) (Perm.refl _)
      split Ordering.gt e ih = rw (e, insert) (Perm.trans (Perm.cons y ih) (Perm.swap x y ys))

  pub sort-perm : (xs : List A) → Perm (sort cmp xs) xs
  unfolding sort
  sort-perm [] = Perm.refl []
  sort-perm (x ∷ xs) = Perm.trans (insert-perm x (sort cmp xs)) (Perm.cons x (sort-perm xs))

  -- Items that compare as equal are left in their order, whatever the test that picks them.
  insert-stable :
      (p : A → Bool)
      → ((a b : A) → p a ≡ true → p b ≡ true → cmp a b ≢ Ordering.gt)
      → (x : A) (ys : List A) → filter p (insert cmp x ys) ≡ filter p (x ∷ ys)
  unfolding insert
  insert-stable p h x [] = refl
  insert-stable p h x (y ∷ ys) = ground (arith, h x y, insert-stable p h x ys)

  pub sort-stable :
      (p : A → Bool)
      → ((a b : A) → p a ≡ true → p b ≡ true → cmp a b ≢ Ordering.gt)
      → (xs : List A) → filter p (sort cmp xs) ≡ filter p xs
  unfolding sort
  sort-stable p h [] = refl
  sort-stable p h (x ∷ xs) =
      insert-stable p h x (sort cmp xs) ∙ ap (λ ys. if p x then x ∷ ys else ys) (sort-stable p h xs)

module _ {ℓ} {A : Type ℓ} (cmp : Comparator A) (c : IsConsistent cmp) where
  NoneBefore-chain :
      (x y : A) (ys : List A) → cmp x y ≢ Ordering.gt → NoneBefore cmp y ys → NoneBefore cmp x ys
  NoneBefore-chain x y [] h k = tt
  NoneBefore-chain x y (z ∷ zs) h (k, ks) = (c.chain x y z h k, NoneBefore-chain x y zs h ks)

  NoneBefore-insert :
      (z x : A) (ys : List A)
      → cmp z x ≢ Ordering.gt
      → NoneBefore cmp z ys
      → NoneBefore cmp z (insert cmp x ys)
  unfolding insert
  NoneBefore-insert z x [] h k = (h, tt)
  NoneBefore-insert z x (y ∷ ys) h (k, ks) = ground (arith, NoneBefore-insert z x ys h ks)

  insert-IsOrdered : (x : A) (ys : List A) → IsOrdered cmp ys → IsOrdered cmp (insert cmp x ys)
  unfolding insert
  insert-IsOrdered x [] h = (tt, tt)
  insert-IsOrdered x (y ∷ ys) (k, h) = ground (
    arith,
    c.flip x y,
    NoneBefore-chain x y ys,
    NoneBefore-insert y x ys,
    insert-IsOrdered x ys h,
  )

  pub sort-IsOrdered : (xs : List A) → IsOrdered cmp (sort cmp xs)
  unfolding sort
  sort-IsOrdered [] = tt
  sort-IsOrdered (x ∷ xs) = insert-IsOrdered x (sort cmp xs) (sort-IsOrdered xs)

-- A comparator over the keys is consistent in both directions.
pub compare_by-IsConsistent {ℓ κ} :
    {A : Type ℓ} {K : Type κ} (lt : K → K → Bool) (o : IsStrictOrder lt) (key : A → K) (asc : Bool)
    → IsConsistent (compare_by lt key asc)
unfolding compare_by
compare_by-IsConsistent lt o key asc = record {
  flip = λ a b. ground (arith, o.asym (key a) (key b), o.asym (key b) (key a));
  chain = λ a b c. ground (
    arith,
    o.neg_trans (key a) (key b) (key c),
    o.neg_trans (key c) (key b) (key a),
    o.asym (key a) (key b),
    o.asym (key b) (key c),
    o.asym (key a) (key c),
    o.asym (key b) (key a),
    o.asym (key c) (key b),
    o.asym (key c) (key a),
  );
}

-- Items with equal keys compare as equal.
pub compare_by-ne_gt {ℓ κ} :
    {A : Type ℓ} {K : Type κ} (lt : K → K → Bool) (o : IsStrictOrder lt) (key : A → K) (asc : Bool)
    (a b : A)
    → key a ≡ key b
    → compare_by lt key asc a b ≢ Ordering.gt
unfolding compare_by
compare_by-ne_gt lt o key asc a b e = rw e (ground (arith, o.asym (key b) (key b)))
