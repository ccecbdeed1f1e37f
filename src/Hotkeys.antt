-- ===== src/Hotkeys.antt =====
-- ui/src/hooks/useHotkeys.ts: the syntax of shortcuts, the steps of keyboard events, and the matcher
-- of sequences. `lower` is the engine's `toLowerCase`. What the matcher reads of the page (whether
-- the target is editable, whether a dialog is open, the clock) comes with the event.
pub mod Prefix
pub mod Typing
pub mod Matcher
mod Tests
use Prim.Native.Char.{code}
use wai_ai.Common.{
  ℕ, zero, suc, ◌+◌, ◌-◌, String, Bool, true, false, not, ◌&&◌, ◌||◌, Option, none, some, List, [],
  ◌∷◌, ◌++◌, map, length, filter, any, find, member, or_default, ltb, eqb, is_some, if◌then◌else◌,
  ◌==◌,
}
use wai_ai.Common.Int.{ℤ, pos, ◌-ℤ◌, ltb_ℤ}
use wai_ai.Common.Text.{truthy, append, starts_with, trim, is_space, units}

-- `handler` stands for the callback by the name of the command that it runs.
pub record Hotkey : Type 0 where
  pub keys : String
  pub handler : ℕ
  pub allow_in_inputs : Option Bool
  pub prevent_default : Option Bool

abbrev pub sequence_timeout_ms : ℕ
sequence_timeout_ms = 1000

-- `MODIFIER_KEYS`
abbrev modifier_keys : List String
modifier_keys = "control" ∷ "meta" ∷ "alt" ∷ "shift" ∷ "os" ∷ "altgraph" ∷ "capslock" ∷ []

-- `KEY_ALIASES[k] ?? d`
unfoldable pub key_alias : String → String → String
key_alias k d =
    if k == "esc"
    then "escape"
    else if k == "space"
    then " "
    else if k == "cmd" || k == "command"
    then "meta"
    else if k == "control"
    then "ctrl"
    else if k == "option"
    then "alt"
    else d

-- `xs.join('+')`
unfoldable pub join_plus : List String → String
join_plus [] = ""
join_plus (x ∷ []) = x
join_plus (x ∷ y ∷ xs) = append x (append "+" (join_plus (y ∷ xs)))

-- `normalizeStep`, on the texts of the set of modifiers; `k` is the lower-cased key.
unfoldable pub normalize_step : (String → String) → List String → String → String
unfolding join_plus append units
normalize_step lower mods key =
    let k = lower key in
    let one = eqb (length (units k)) 1 in
    join_plus (
      filter (λ x. member x mods && not (one && x == "shift"))
        ("ctrl" ∷ "meta" ∷ "alt" ∷ "shift" ∷ [])
      ++ k ∷ [])

-- `s.split('+')`
unfoldable pub split_plus : String → List String
split_plus String.[] = String.[] ∷ []
split_plus (String.◌∷◌ c s) = elim (split_plus s) [
  | [] ↦ String.[] ∷ []
  | w ∷ ws ↦ if eqb (code c) b'+' then String.[] ∷ w ∷ ws else String.◌∷◌ c w ∷ ws
]

-- `s.split(/\s+/)` of a trimmed text: a run of spaces parts two words.
unfoldable pub split_spaces : String → List String
split_spaces String.[] = String.[] ∷ []
split_spaces (String.◌∷◌ c String.[]) =
    if is_space (code c) then String.[] ∷ String.[] ∷ [] else String.◌∷◌ c String.[] ∷ []
split_spaces (String.◌∷◌ c (String.◌∷◌ d s)) = elim (split_spaces (String.◌∷◌ d s)) [
  | [] ↦ String.[] ∷ []
  | w ∷ ws ↦
      if is_space (code c)
      then (if is_space (code d) then w ∷ ws else String.[] ∷ w ∷ ws)
      else String.◌∷◌ c w ∷ ws
]

unfoldable pub ends_with_plus_plus : String → Bool
ends_with_plus_plus String.[] = false
ends_with_plus_plus (String.◌∷◌ c s) = String.◌∷◌ c s == "++" || ends_with_plus_plus s

-- The last of the parts, and those before it; no part at all would raise.
unfoldable pub split_last : List String → Option (List String × String)
split_last [] = none
split_last (x ∷ []) = some ([], x)
split_last (x ∷ y ∷ ys) = elim (split_last (y ∷ ys)) [
  | none ↦ none
  | some (front, last) ↦ some (x ∷ front, last)
]

-- The modifier that a part of a combo names.
unfoldable pub modifier_of : (String → String) → Bool → String → String
unfolding key_alias
modifier_of lower mac raw =
    let p = key_alias (lower raw) (lower raw) in
    if p == "mod" then (if mac then "meta" else "ctrl") else p

-- The function that `parseKeys` maps over the combos; `none` is the exception on a combo without
-- parts.
unfoldable pub parse_combo : (String → String) → Bool → String → Option String
unfolding split_plus ends_with_plus_plus split_last modifier_of normalize_step
parse_combo lower mac combo =
    let parts =
      filter truthy (split_plus combo)
      ++ (if ends_with_plus_plus combo || combo == "+" then "+" ∷ [] else []) in
    elim (split_last parts) [
      | none ↦ none
      | some (front, last) ↦
          some
            (normalize_step lower (map (modifier_of lower mac) front) (key_alias (lower last) last))
    ]

unfoldable pub all_some : List (Option String) → Option (List String)
all_some [] = some []
all_some (none ∷ os) = none
all_some (some s ∷ os) = elim (all_some os) [ none ↦ none | some r ↦ some (s ∷ r) ]

-- `parseKeys`
unfoldable pub parse_keys : (String → String) → Bool → String → Option (List String)
unfolding trim split_spaces parse_combo all_some
parse_keys lower mac keys = all_some (map (parse_combo lower mac) (split_spaces (trim keys)))

-- What the handler reads of a `KeyboardEvent`, of the page and of the clock.
pub record KeyEvent : Type 0 where
  pub key : String
  pub ctrl_key : Bool
  pub meta_key : Bool
  pub alt_key : Bool
  pub shift_key : Bool
  pub default_prevented : Bool
  pub is_composing : Bool
  pub editable : Bool
  pub modal_open : Bool
  pub now : ℤ

abbrev with_if : Bool → String → List String → List String
with_if true m ms = m ∷ ms
with_if false m ms = ms

-- `eventToStep`
unfoldable pub event_to_step : (String → String) → KeyEvent → Option String
unfolding normalize_step
event_to_step lower e =
    if not (truthy e.key) || member (lower e.key) modifier_keys
    then none
    else some (
        normalize_step lower
          (with_if e.ctrl_key "ctrl"
            (with_if e.meta_key "meta" (with_if e.alt_key "alt" (with_if e.shift_key "shift" []))))
          e.key)

-- `defaultAllowInInputs`
unfoldable pub default_allow_in_inputs : List String → Bool
default_allow_in_inputs (s ∷ []) = s == "escape" || s == "ctrl+k" || s == "meta+k"
default_allow_in_inputs _ = false

-- A binding with its parsed steps.
pub record Candidate : Type 0 where
  pub hotkey : Hotkey
  pub steps : List String
  pub allow : Bool

abbrev pub candidate : Hotkey → List String → Candidate
candidate h steps = record {
  hotkey = h;
  steps = steps;
  allow = or_default h.allow_in_inputs (default_allow_in_inputs steps);
}

-- The filter on the candidates of an event.
abbrev pub offered : KeyEvent → List Candidate → List Candidate
offered e cs = filter (λ c. c.allow || (not e.editable && not e.modal_open)) cs

-- `a.every((s, i) => b[i] === s)`: the first list is a prefix of the second.
unfoldable pub is_prefix : List String → List String → Bool
is_prefix [] ys = true
is_prefix (x ∷ xs) [] = false
is_prefix (x ∷ xs) (y ∷ ys) = x == y && is_prefix xs ys

abbrev pub same_steps : List String → Candidate → Bool
same_steps seq c = eqb (length c.steps) (length seq) && is_prefix c.steps seq

abbrev pub longer_steps : List String → Candidate → Bool
longer_steps seq c = ltb (length seq) (length c.steps) && is_prefix seq c.steps

pub data Match : Type 0 where
  exact : Candidate → Match
  prefix : Match
  nothing : Match

-- `tryMatch`
unfoldable pub try_match : List Candidate → List String → Match
unfolding is_prefix
try_match cs seq = elim (find (same_steps seq) cs) [
  | some c ↦ exact c
  | none ↦ if any (longer_steps seq) cs then prefix else nothing
]

-- The variables that the listener closes over.
pub record MatcherState : Type 0 where
  pub pending : List String
  pub last_at : ℤ

-- The steps still waiting when an event comes: none after the timeout.
unfoldable pub live_pending : ℕ → MatcherState → ℤ → List String
live_pending timeout s now = elim s.pending [
  | [] ↦ []
  | p ∷ ps ↦ if ltb_ℤ (pos timeout) (now -ℤ s.last_at) then [] else p ∷ ps
]

-- The sequence that is tried, with its match: a step that does not continue what waits starts anew.
unfoldable pub attempt : List Candidate → List String → String → List String × Match
unfolding try_match
attempt cs waiting step = elim (try_match cs (waiting ++ step ∷ [])) [
  | nothing ↦ elim waiting [
    | [] ↦ (step ∷ [], nothing)
    | w ∷ ws ↦ (step ∷ [], try_match cs (step ∷ []))
  ]
  | m ↦ (waiting ++ step ∷ [], m)
]

-- The last block of `onKeyDown`: the next state and the binding that fires.
unfoldable pub settle : MatcherState → ℤ → List String × Match → MatcherState × Option Hotkey
settle s now (seq, exact c) = (record s { pending = [] }, some c.hotkey)
settle s now (seq, prefix) = (record { pending = seq; last_at = now }, none)
settle s now (seq, nothing) = (record s { pending = [] }, none)

-- `onKeyDown`, on bindings whose keys are parsed already. An event that the handler returns from
-- early changes nothing, not even a sequence that has timed out.
unfoldable pub on_key_down :
    (String → String) → ℕ → List Candidate → MatcherState → KeyEvent → MatcherState × Option Hotkey
on_key_down lower timeout cs s e =
    if e.default_prevented || e.is_composing then (s, none) else elim (event_to_step lower e) [
      | none ↦ (s, none)
      | some step ↦ settle s e.now (attempt (offered e cs) (live_pending timeout s e.now) step)
    ]
