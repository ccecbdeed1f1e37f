-- ===== src/Controls/Segmented/Moves.antt =====
-- A key never selects a disabled segment, and always some other one if there is one.
use native.Mathlib.Nat.{mod-lt}
use wai_ai.Common.{
  ℕ, zero, suc, ◌+◌, ◌-◌, ◌<◌, ◌≡◌, ◌⊎◌, inl, inr, refl, ap, sym, subst, or_default, ◌∙◌, Bool,
  true, false, not, Option, none, some, List, [], ◌∷◌, arith, length, All, if◌then◌else◌,
}
use wai_ai.Controls.Segmented.{
  Segment, enabled_from, index_in, nth, ArrowKey, arrow_left, arrow_right, arrow_up, arrow_down,
  home_key, end_key, next_position, move, is_enabled,
}

-- An index is that of a segment which is not disabled.
abbrev pub IsEnabled : List Segment → ℕ → Type 0
IsEnabled options i = is_enabled (nth i options) ≡ true

pub nth-some {ℓ} :
    {A : Type ℓ} (i : ℕ) (xs : List A) → i < length xs → (x : A) × (nth i xs ≡ some x)
unfolding nth
nth-some i [] h = absurd (omega arith)
nth-some zero (x ∷ xs) h = (x, refl)
nth-some (suc i) (x ∷ xs) h = nth-some i xs (omega arith)

pub nth-All {ℓ} :
    {A : Type ℓ} (P : A → Type 0) (i : ℕ) (xs : List A) (x : A) → All P xs → nth i xs ≡ some x → P x
unfolding nth
nth-All P i [] x h e = cc
nth-All P zero (y ∷ ys) x (p, h) e = subst P (ap (λ o. or_default o x) e) p
nth-All P (suc i) (y ∷ ys) x (p, h) e = nth-All P i ys x h e

next_position-bound :
    (pos : Option ℕ) (n : ℕ) (key : ArrowKey) → 0 < n → next_position pos n key < n
unfolding next_position
next_position-bound pos n home_key h = h
next_position-bound pos n end_key h = omega arith
next_position-bound none n arrow_right h = h
next_position-bound none n arrow_down h = h
next_position-bound none n arrow_left h = omega arith
next_position-bound none n arrow_up h = omega arith
next_position-bound (some p) n arrow_right h = mod-lt (p + 1) h
next_position-bound (some p) n arrow_down h = mod-lt (p + 1) h
next_position-bound (some p) n arrow_left h = mod-lt (p + n - 1) h
next_position-bound (some p) n arrow_up h = mod-lt (p + n - 1) h

All-imp {ℓ} :
    {A : Type ℓ} (P Q : A → Type 0) (f : (x : A) → P x → Q x) (xs : List A) → All P xs → All Q xs
All-imp P Q f [] h = tt
All-imp P Q f (x ∷ xs) (p, h) = (f x p, All-imp P Q f xs h)

-- An index counted from `start`, of a segment which is not disabled.
EnabledFrom : ℕ → List Segment → ℕ → Type 0
EnabledFrom start options i = (k : ℕ) × (i ≡ start + k) × IsEnabled options k

enabled_from-EnabledFrom :
    (start : ℕ) (options : List Segment)
    → All (EnabledFrom start options) (enabled_from start options)
unfolding enabled_from EnabledFrom nth
enabled_from-EnabledFrom start [] = tt
enabled_from-EnabledFrom start (o ∷ os) =
    let rest =
      All-imp (EnabledFrom (suc start) os) (EnabledFrom start (o ∷ os)) later
        (enabled_from (suc start) os) (enabled_from-EnabledFrom (suc start) os) in
    with_first o.disabled refl rest
  where
    later : (i : ℕ) → EnabledFrom (suc start) os i → EnabledFrom start (o ∷ os) i
    later i (k, e, h) = (suc k, omega (arith, e), h)

    with_first :
        (d : Bool)
        → o.disabled ≡ d
        → All (EnabledFrom start (o ∷ os)) (enabled_from (suc start) os)
        → All
            (EnabledFrom start (o ∷ os))
            (if d then enabled_from (suc start) os else start ∷ enabled_from (suc start) os)
    with_first true e h = h
    with_first false e h = ((0, omega arith, ap not e), h)

IsEnabled-here : (options : List Segment) (i : ℕ) → EnabledFrom 0 options i → IsEnabled options i
unfolding EnabledFrom
IsEnabled-here options i (k, e, h) = subst (IsEnabled options) (sym (e ∙ zero_add)) h
  where
    zero_add : 0 + k ≡ k
    zero_add = omega arith

empty-or_not : (xs : List ℕ) → (xs ≡ []) ⊎ (0 < length xs)
empty-or_not [] = inl refl
empty-or_not (x ∷ xs) = inr (omega arith)

nth-nil : (j : ℕ) (xs : List ℕ) → xs ≡ [] → nth j xs ≡ none
unfolding nth
nth-nil j [] h = refl
nth-nil j (x ∷ xs) h = cc

-- A key moves to a segment that is not disabled, unless all of them are.
pub move-IsEnabled :
    (options : List Segment) (from : ℕ) (key : ArrowKey)
    → ((move options from key ≡ none) × (enabled_from 0 options ≡ []))
      ⊎ ((i : ℕ) × (move options from key ≡ some i) × IsEnabled options i)
unfolding move
move-IsEnabled options from key =
    let enabled = enabled_from 0 options in
    let j = next_position (index_in from enabled) (length enabled) key in
    elim (empty-or_not enabled) [
      | inl e ↦ inl (nth-nil j enabled e, e)
      | inr p ↦
          let (i, e) =
            nth-some j enabled
              (next_position-bound (index_in from enabled) (length enabled) key p) in
          inr (
            i,
            e,
            IsEnabled-here options i (
                nth-All (EnabledFrom 0 options) j enabled i (enabled_from-EnabledFrom 0 options) e),
          )
    ]
