-- ===== src/Common/Text/Prefix.antt =====
-- `startsWith` and `+` on texts.
use Prim.Native.Char.{code}
use Prim.Native.String.{String, [], ◌∷◌}
use mathlib.Core.Path.{◌≡◌, refl, ap}
use mathlib.Core.Logic.{◌↔◌}
use mathlib.Core.Bool.{true}
use native.Mathlib.Omega.{arith}
use text.Mathlib.TextEquality.{Char-path}
use wai_ai.Common.Tests.{eqb_iff}
use wai_ai.Common.Text.{append, starts_with}

pub append_assoc : (s t u : String) → append (append s t) u ≡ append s (append t u)
unfolding append
append_assoc [] t u = refl
append_assoc (c ∷ s) t u = ap (◌∷◌ c) (append_assoc s t u)

pub append-nil : (s : String) → append s [] ≡ s
unfolding append
append-nil [] = refl
append-nil (c ∷ s) = ap (◌∷◌ c) (append-nil s)

starts_with-append : (p r : String) → starts_with (append p r) p ≡ true
unfolding starts_with append
starts_with-append [] [] = refl
starts_with-append [] (c ∷ r) = refl
starts_with-append (c ∷ p) r = rw ((eqb_iff (code c) (code c)).1 refl) (starts_with-append p r)

starts_with-rest : (s p : String) → starts_with s p ≡ true → (r : String) × (s ≡ append p r)
unfolding starts_with append
starts_with-rest [] [] h = ([], refl)
starts_with-rest (c ∷ s) [] h = (c ∷ s, refl)
starts_with-rest [] (d ∷ p) h = cc
starts_with-rest (c ∷ s) (d ∷ p) h =
    let same : code c ≡ code d = ground arith in
    let later : starts_with s p ≡ true = ground arith in
    let (r, e) = starts_with-rest s p later in (r, cc (Char-path c d same))

-- `s` starts with `p` exactly when it is `p` and a rest.
pub starts_with_iff : (s p : String) → (starts_with s p ≡ true) ↔ ((r : String) × (s ≡ append p r))
starts_with_iff s p = (starts_with-rest s p, λ w. rw w.1 (starts_with-append p w.0))
