-- ===== src/Hotkeys/Typing.antt =====
-- Typing a binding's sequence fires it.
use wai_ai.Common.{ℕ, String, ◌≡◌, true, false, Option, none, some, List, [], ◌∷◌, Listed}
use wai_ai.Common.Int.{ℤ, pos, ◌-ℤ◌, ltb_ℤ}
use wai_ai.Hotkeys.{
  Hotkey, Candidate, KeyEvent, MatcherState, is_prefix, event_to_step, on_key_down,
}

-- An event outside inputs and dialogs that nobody has handled.
abbrev pub IsPlain : KeyEvent → Type 0
IsPlain e =
    (e.default_prevented ≡ false)
    × (e.is_composing ≡ false)
    × (e.editable ≡ false)
    × (e.modal_open ≡ false)

-- The events make these steps, none later than the timeout after the one before.
abbrev pub Types : (String → String) → ℕ → ℤ → List KeyEvent → List String → Type 0
Types lower timeout at [] [] = Unit
Types lower timeout at [] (t ∷ ts) = ⊥
Types lower timeout at (e ∷ es) [] = ⊥
Types lower timeout at (e ∷ es) (t ∷ ts) =
    IsPlain e
    × (event_to_step lower e ≡ some t)
    × (ltb_ℤ (pos timeout) (e.now -ℤ at) ≡ false)
    × Types lower timeout e.now es ts

-- No binding has steps that are a proper beginning of these.
abbrev pub Unshadowed : List Candidate → Candidate → Type 0
Unshadowed cs c =
    (d : Candidate) → Listed d cs → is_prefix d.steps c.steps ≡ true → d.steps ≡ c.steps

-- The listener on a run of events; the result is that of the last.
pub type_keys :
    (String → String)
    → ℕ
    → List Candidate
    → MatcherState
    → List KeyEvent
    → MatcherState × Option Hotkey
type_keys lower timeout cs s [] = (s, none)
type_keys lower timeout cs s (e ∷ []) = on_key_down lower timeout cs s e
type_keys lower timeout cs s (e ∷ f ∷ es) =
    type_keys lower timeout cs (on_key_down lower timeout cs s e).0 (f ∷ es)
