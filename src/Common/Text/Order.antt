-- ===== src/Common/Text/Order.antt =====
-- `<` on texts is a strict weak order.
use Prim.Native.Nat.{ℕ}
use mathlib.Core.Path.{◌≡◌, refl}
use mathlib.Core.Bool.{true, false}
use mathlib.Core.List.{List, [], ◌∷◌}
use native.Mathlib.Omega.{arith}
use wai_ai.Common.Text.{lex_lt, units, text_lt}
use wai_ai.Common.Sort.{IsStrictOrder}

lex_lt-asym : (xs ys : List ℕ) → lex_lt xs ys ≡ true → lex_lt ys xs ≡ false
unfolding lex_lt
lex_lt-asym xs [] h = cc
lex_lt-asym [] (y ∷ ys) h = refl
lex_lt-asym (x ∷ xs) (y ∷ ys) h = ground (arith, lex_lt-asym xs ys)

lex_lt-neg_trans :
    (xs ys zs : List ℕ) → lex_lt xs ys ≡ false → lex_lt ys zs ≡ false → lex_lt xs zs ≡ false
unfolding lex_lt
lex_lt-neg_trans xs ys [] h k = refl
lex_lt-neg_trans [] [] (z ∷ zs) h k = k
lex_lt-neg_trans [] (y ∷ ys) (z ∷ zs) h k = cc
lex_lt-neg_trans (x ∷ xs) [] (z ∷ zs) h k = cc
lex_lt-neg_trans (x ∷ xs) (y ∷ ys) (z ∷ zs) h k = ground (arith, lex_lt-neg_trans xs ys zs)

pub text_lt-IsStrictOrder : IsStrictOrder text_lt
unfolding text_lt
text_lt-IsStrictOrder = record {
  asym = λ s t. lex_lt-asym (units s) (units t);
  neg_trans = λ s t u. lex_lt-neg_trans (units s) (units t) (units u);
}
