-- ===== src/Common/Sets.antt =====
-- `Set` of texts: the list of its items in the order in which they were added, none of them twice.
use wai_ai.Common.Tests.{if◌then◌else◌, Bool-cases}
use wai_ai.Common.Lists.{
  length, filter, member, member_iff, Listed, Listed-append, Listed-filter, AllDistinct,
}
use Prim.Native.Nat.{suc, ◌≤◌}
use Prim.Native.String.{String}
use mathlib.Core.Path.{◌≡◌, refl, sym, ap, subst}
use mathlib.Core.Logic.{◌⊎◌, ◌↔◌, inl, inr}
use mathlib.Core.Bool.{Bool, true, false, not}
use mathlib.Core.List.{List, [], ◌∷◌, ◌++◌}
use native.Mathlib.Omega.{arith}
use text.Mathlib.Text.{◌==◌}
use text.Mathlib.TextEquality.{eq_iff}

-- `set.add(s)`
unfoldable pub add : String → List String → List String
add s xs = if member s xs then xs else xs ++ s ∷ []

-- `set.delete(s)`
unfoldable pub delete : String → List String → List String
delete s xs = filter (λ x. not (x == s)) xs

-- `for (const s of ss) set.add(s)`
unfoldable pub add_all : List String → List String → List String
unfolding add
add_all [] xs = xs
add_all (s ∷ ss) xs = add_all ss (add s xs)

unfoldable pub delete_all : List String → List String → List String
unfolding delete
delete_all [] xs = xs
delete_all (s ∷ ss) xs = delete_all ss (delete s xs)

-- `new Set(xs)`
unfoldable pub set_of : List String → List String
unfolding add_all
set_of xs = add_all xs []

pub Listed-add : (t s : String) (xs : List String) → Listed t (add s xs) ↔ ((t ≡ s) ⊎ Listed t xs)
unfolding add
Listed-add t s xs = elim (Bool-cases (member s xs)) [
  | inl e ↦ rw e (
    (λ h. inr h),
    (λ h. elim h [ inl q ↦ subst (λ z. Listed z xs) (sym q) ((member_iff s xs).0 e) | inr h ↦ h ]),
  )
  | inr e ↦ rw e (ground (arith, Listed-append t xs (s ∷ [])))
]

pub Listed-delete :
    (t s : String) (xs : List String) → Listed t (delete s xs) ↔ (Listed t xs × ((t ≡ s) → ⊥))
unfolding delete
Listed-delete t s xs = ground (arith, Listed-filter (λ x. not (x == s)) t xs, eq_iff t s)

append-AllDistinct :
    (s : String) (xs : List String)
    → AllDistinct xs
    → (Listed s xs → ⊥)
    → AllDistinct (xs ++ s ∷ [])
append-AllDistinct s [] d h = ((λ x. x), tt)
append-AllDistinct s (x ∷ xs) (fresh, d) h = (
  (λ q. elim ((Listed-append x xs (s ∷ [])).0 q) [
    | inl r ↦ fresh r
    | inr r ↦ elim r [ inl e ↦ h (inl (sym e)) | inr f ↦ f ]
  ]),
  append-AllDistinct s xs d (λ q. h (inr q)),
)

pub add-AllDistinct : (s : String) (xs : List String) → AllDistinct xs → AllDistinct (add s xs)
unfolding add
add-AllDistinct s xs d = elim (Bool-cases (member s xs)) [
  | inl e ↦ rw e d
  | inr e ↦ rw e (append-AllDistinct s xs d (λ h. absurd_member e ((member_iff s xs).1 h)))
]
  where
    absurd_member : {b : Bool} → b ≡ false → b ≡ true → ⊥
    absurd_member p q = cc

pub filter-AllDistinct :
    (p : String → Bool) (xs : List String) → AllDistinct xs → AllDistinct (filter p xs)
filter-AllDistinct p [] d = tt
filter-AllDistinct p (x ∷ xs) (fresh, d) = elim (Bool-cases (p x)) [
  | inl e ↦ rw e ((λ h. fresh ((Listed-filter p x xs).0 h).0), filter-AllDistinct p xs d)
  | inr e ↦ rw e (filter-AllDistinct p xs d)
]

pub delete-AllDistinct :
    (s : String) (xs : List String) → AllDistinct xs → AllDistinct (delete s xs)
unfolding delete
delete-AllDistinct s xs d = filter-AllDistinct (λ x. not (x == s)) xs d

pub add_all-AllDistinct : (ss xs : List String) → AllDistinct xs → AllDistinct (add_all ss xs)
unfolding add_all
add_all-AllDistinct [] xs d = d
add_all-AllDistinct (s ∷ ss) xs d = add_all-AllDistinct ss (add s xs) (add-AllDistinct s xs d)

pub delete_all-AllDistinct : (ss xs : List String) → AllDistinct xs → AllDistinct (delete_all ss xs)
unfolding delete_all
delete_all-AllDistinct [] xs d = d
delete_all-AllDistinct (s ∷ ss) xs d =
    delete_all-AllDistinct ss (delete s xs) (delete-AllDistinct s xs d)

pub Listed-add_all :
    (t : String) (ss xs : List String) → Listed t (add_all ss xs) ↔ (Listed t ss ⊎ Listed t xs)
unfolding add_all
Listed-add_all t [] xs = ground arith
Listed-add_all t (s ∷ ss) xs = ground (arith, Listed-add_all t ss (add s xs), Listed-add t s xs)

pub Listed-delete_all :
    (t : String) (ss xs : List String)
    → Listed t (delete_all ss xs) ↔ (Listed t xs × (Listed t ss → ⊥))
unfolding delete_all
Listed-delete_all t [] xs = ground arith
Listed-delete_all t (s ∷ ss) xs =
    ground (arith, Listed-delete_all t ss (delete s xs), Listed-delete t s xs)

delete_fresh : (s : String) (xs : List String) → (Listed s xs → ⊥) → delete s xs ≡ xs
unfolding delete
delete_fresh s [] h = refl
delete_fresh s (x ∷ xs) h =
    ground (arith, eq_iff x s, delete_fresh s xs (λ q. h (inr q)), λ (q : s ≡ x). h (inl q))

-- An item that is there once goes once.
pub length-delete :
    (s : String) (xs : List String)
    → AllDistinct xs
    → Listed s xs
    → suc (length (delete s xs)) ≡ length xs
unfolding delete
length-delete s [] d h = absurd h
length-delete s (x ∷ xs) (fresh, d) h = elim (Bool-cases (x == s)) [
  | inl e ↦
      let same : x ≡ s = (eq_iff x s).0 e in
      rw e (
        ap (λ l. suc (length l))
          (delete_fresh s xs (λ q. fresh (subst (λ z. Listed z xs) (sym same) q))))
  | inr e ↦
      rw e (ap suc (length-delete s xs d (behind h (λ q. absurd_eq e ((eq_iff x s).1 (sym q))))))
]
  where
    behind : ((s ≡ x) ⊎ Listed s xs) → ((s ≡ x) → ⊥) → Listed s xs
    behind (inl q) no_eq = absurd (no_eq q)
    behind (inr q) no_eq = q

    absurd_eq : {b : Bool} → b ≡ false → b ≡ true → ⊥
    absurd_eq p q = cc

-- Sets of one size, one of which holds the items of the other, have the same items.
pub same_items :
    (xs ys : List String)
    → AllDistinct xs
    → AllDistinct ys
    → ((t : String) → Listed t xs → Listed t ys)
    → length ys ≤ length xs
    → (t : String) → Listed t ys
    → Listed t xs
same_items [] [] d e sub le t h = h
same_items [] (y ∷ ys) d e sub le t h = absurd (omega arith)
same_items (x ∷ xs) ys (fresh, d) e sub le t h = elim (Bool-cases (t == x)) [
  | inl q ↦ inl ((eq_iff t x).0 q)
  | inr q ↦ inr (
      same_items xs (delete x ys) d (delete-AllDistinct x ys e)
        (λ u at.
          (Listed-delete u x ys).1 (sub u (inr at), (λ r. fresh (subst (λ z. Listed z xs) r at))))
        (omega (arith, length-delete x ys e (sub x (inl refl)))) t
        ((Listed-delete t x ys).1 (h, (λ r. differs q ((eq_iff t x).1 r)))))
]
  where
    differs : {b : Bool} → b ≡ false → b ≡ true → ⊥
    differs p q = cc

-- A set in another is no larger.
pub length_le_of_items :
    (xs ys : List String)
    → AllDistinct xs
    → AllDistinct ys
    → ((t : String) → Listed t xs → Listed t ys)
    → length xs ≤ length ys
length_le_of_items [] ys d e sub = omega arith
length_le_of_items (x ∷ xs) ys (fresh, d) e sub = omega (
  arith,
  length-delete x ys e (sub x (inl refl)),
  length_le_of_items xs (delete x ys) d (delete-AllDistinct x ys e) (λ u at.
      (Listed-delete u x ys).1 (sub u (inr at), (λ r. fresh (subst (λ z. Listed z xs) r at)))),
)
