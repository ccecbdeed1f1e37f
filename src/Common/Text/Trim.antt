-- ===== src/Common/Text/Trim.antt =====
-- `trim` leaves nothing to trim.
use Prim.Native.Char.{Char, code}
use Prim.Native.String.{String, [], ◌∷◌}
use mathlib.Core.Path.{◌≡◌, refl, ap, sym, ◌∙◌}
use mathlib.Core.Logic.{inl, inr}
use mathlib.Core.Bool.{false}
use wai_ai.Common.Tests.{Bool-cases}
use wai_ai.Common.Text.{is_space, trim_start, put_before, trim_end, trim}

put_before-ink : (c : Char) (s : String) → is_space (code c) ≡ false → put_before c s ≡ c ∷ s
unfolding put_before
put_before-ink c [] h = rw h refl
put_before-ink c (d ∷ s) h = refl

trim_end-put_before :
    (c : Char) (s : String) → trim_end s ≡ s → trim_end (put_before c s) ≡ put_before c s
unfolding trim_end put_before
trim_end-put_before c [] h = elim (Bool-cases (is_space (code c))) [
  | inl e ↦ rw e refl
  | inr e ↦ rw (e, put_before) (put_before-ink c [] e)
]
trim_end-put_before c (d ∷ s) h = ap (put_before c) h

trim_end-trim_end : (s : String) → trim_end (trim_end s) ≡ trim_end s
unfolding trim_end
trim_end-trim_end [] = refl
trim_end-trim_end (c ∷ s) = trim_end-put_before c (trim_end s) (trim_end-trim_end s)

-- A text that does not begin with a blank.
StartsInk : String → Type 0
StartsInk [] = Unit
StartsInk (c ∷ s) = is_space (code c) ≡ false

trim_start-StartsInk : (s : String) → StartsInk (trim_start s)
unfolding trim_start StartsInk
trim_start-StartsInk [] = tt
trim_start-StartsInk (c ∷ s) = elim (Bool-cases (is_space (code c))) [
  | inl e ↦ rw e (trim_start-StartsInk s)
  | inr e ↦ rw (e, StartsInk) e
]

trim_start-ink : (c : Char) (s : String) → is_space (code c) ≡ false → trim_start (c ∷ s) ≡ c ∷ s
unfolding trim_start
trim_start-ink c s h = rw h refl

trim_start-trim_end : (s : String) → StartsInk s → trim_start (trim_end s) ≡ trim_end s
unfolding StartsInk trim_end trim_start
trim_start-trim_end [] h = refl
trim_start-trim_end (c ∷ s) h =
    ap trim_start (put_before-ink c (trim_end s) h)
    ∙ trim_start-ink c (trim_end s) h
    ∙ sym (put_before-ink c (trim_end s) h)

pub trim-trim : (s : String) → trim (trim s) ≡ trim s
unfolding trim
trim-trim s =
    ap trim_end (trim_start-trim_end (trim_start s) (trim_start-StartsInk s))
    ∙ trim_end-trim_end (trim_start s)
