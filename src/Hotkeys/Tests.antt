-- ===== src/Hotkeys/Tests.antt =====
-- The theorems on shortcuts at concrete bindings and events. Keys are in lower case already.
use wai_ai.Common.{ℕ, String, ◌≡◌, refl, inl, inr, true, false, none, some, List, [], ◌∷◌}
use wai_ai.Common.Int.{pos, ◌-ℤ◌}
use wai_ai.Hotkeys.{
  Hotkey, Candidate, candidate, KeyEvent, MatcherState, event_to_step, parse_keys, live_pending,
  is_prefix, on_key_down,
}
use wai_ai.Hotkeys.{attempt, settle, default_allow_in_inputs}
use wai_ai.Hotkeys.Matcher.{IsWaiting}

abbrev same : String → String
same s = s

parsed :
    (parse_keys same false "mod+k" ≡ some ("ctrl+k" ∷ []))
    × (parse_keys same true " g   d " ≡ some ("g" ∷ "d" ∷ []))
    × (parse_keys same false "shift++" ≡ some ("+" ∷ []))
    × (parse_keys same false "esc" ≡ some ("escape" ∷ []))
    × (parse_keys same false "" ≡ none)
unfolding parse_keys
parsed = (refl, refl, refl, refl, refl)

abbrev hotkey : String → ℕ → Hotkey
hotkey keys n = record { keys = keys; handler = n; allow_in_inputs = none; prevent_default = none }

abbrev go_dashboard : Candidate
go_dashboard = candidate (hotkey "g d" 1) ("g" ∷ "d" ∷ [])

abbrev go_keys : Candidate
go_keys = candidate (hotkey "g k" 2) ("g" ∷ "k" ∷ [])

abbrev bindings : List Candidate
bindings = go_dashboard ∷ go_keys ∷ []

abbrev press : String → ℕ → KeyEvent
press key now = record {
  key = key;
  ctrl_key = false;
  meta_key = false;
  alt_key = false;
  shift_key = false;
  default_prevented = false;
  is_composing = false;
  editable = false;
  modal_open = false;
  now = pos now;
}

abbrev idle : MatcherState
idle = record { pending = []; last_at = pos 0 }

abbrev after_g : MatcherState
after_g = record { pending = "g" ∷ []; last_at = pos 5000 }

g_then_k : (on_key_down same 1000 bindings after_g (press "k" 5400)).1 ≡ some go_keys.hotkey
unfolding on_key_down event_to_step live_pending attempt settle default_allow_in_inputs ◌-ℤ◌
g_then_k = refl

g_then_k_late : (on_key_down same 1000 bindings after_g (press "k" 6001)).1 ≡ none
unfolding on_key_down event_to_step live_pending attempt settle default_allow_in_inputs ◌-ℤ◌
g_then_k_late = refl

g_waits : IsWaiting bindings after_g.pending
g_waits = (go_keys, inr (inl refl), unfold is_prefix in refl)
