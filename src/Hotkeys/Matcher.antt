-- ===== src/Hotkeys/Matcher.antt =====
-- The matcher of shortcut sequences: what fires, and what waits.
use mathlib.Core.Option.{some-injective}
use wai_ai.Common.{
  ℕ, String, ◌≡◌, ◌⊎◌, inl, inr, refl, true, false, not, ◌&&◌, ◌||◌, some, List, [], ◌∷◌, ◌++◌,
  arith, Listed, Listed-filter, Bool-cases, Option-cases,
}
use wai_ai.Common.Int.{ℤ}
use wai_ai.Hotkeys.{
  Hotkey, Candidate, KeyEvent, MatcherState, Match, exact, prefix, nothing, longer_steps, try_match,
  offered, live_pending, attempt, settle, event_to_step, on_key_down,
}
use wai_ai.Hotkeys.Prefix.{try_match-exact, try_match-prefix}

-- The binding is offered for the event: allowed in inputs, or neither an input nor a dialog is in
-- the way.
abbrev pub MayFire : List Candidate → KeyEvent → Candidate → Type 0
MayFire cs e c = Listed c cs × ((c.allow ≡ true) ⊎ ((e.editable ≡ false) × (e.modal_open ≡ false)))

offered_sound :
    (cs : List Candidate) (e : KeyEvent) (c : Candidate) → Listed c (offered e cs) → MayFire cs e c
offered_sound cs e c h =
    ground (arith, Listed-filter (λ d. d.allow || (not e.editable && not e.modal_open)) c cs)

attempt-exact :
    (cs : List Candidate) (waiting : List String) (step : String) (c : Candidate)
    → (attempt cs waiting step).1 ≡ exact c
    → Listed c cs × ((c.steps ≡ waiting ++ step ∷ []) ⊎ (c.steps ≡ step ∷ []))
unfolding attempt
attempt-exact cs [] step c h = ground (arith, try_match-exact cs (step ∷ []) c)
attempt-exact cs (w ∷ ws) step c h =
    ground (arith, try_match-exact cs (w ∷ ws ++ step ∷ []) c, try_match-exact cs (step ∷ []) c)

-- Some binding has more steps than those that wait, and begins with them.
abbrev pub IsWaiting : List Candidate → List String → Type 0
IsWaiting cs [] = Unit
IsWaiting cs (p ∷ ps) = (c : Candidate) × Listed c cs × (longer_steps (p ∷ ps) c ≡ true)

settle-fires :
    (s : MatcherState) (now : ℤ) (m : List String × Match) (h : Hotkey)
    → (settle s now m).1 ≡ some h
    → (c : Candidate) × (m.1 ≡ exact c) × (c.hotkey ≡ h) × ((settle s now m).0.pending ≡ [])
unfolding settle
settle-fires s now (seq, exact c) h e = (c, refl, some-injective c.hotkey h e, refl)
settle-fires s now (seq, prefix) h e = cc
settle-fires s now (seq, nothing) h e = cc

-- An event that fires a binding makes a step, and the handler runs to its end.
fired_handled :
    (lower : String → String) (timeout : ℕ) (cs : List Candidate) (s : MatcherState) (e : KeyEvent)
    (h : Hotkey)
    → (on_key_down lower timeout cs s e).1 ≡ some h
    → (step : String) × (event_to_step lower e ≡ some step)
      × (on_key_down lower timeout cs s e
          ≡ settle s e.now (attempt (offered e cs) (live_pending timeout s e.now) step))
unfolding on_key_down
fired_handled lower timeout cs s e h fired = elim (Option-cases (event_to_step lower e)) [
  | inl quiet ↦ absurd (ground arith)
  | inr (step, made) ↦ (step, made, ground arith)
]

-- A binding fires only if it is offered for the event, and its steps are those that waited and the
-- event's, or the event's alone; and then nothing waits any more.
pub on_key_down-fires :
    (lower : String → String) (timeout : ℕ) (cs : List Candidate) (s : MatcherState) (e : KeyEvent)
    (h : Hotkey)
    → (on_key_down lower timeout cs s e).1 ≡ some h
    → (step : String) × (c : Candidate) × (event_to_step lower e ≡ some step)
      × (c.hotkey ≡ h)
      × MayFire cs e c
      × ((c.steps ≡ live_pending timeout s e.now ++ step ∷ []) ⊎ (c.steps ≡ step ∷ []))
      × ((on_key_down lower timeout cs s e).0.pending ≡ [])
on_key_down-fires lower timeout cs s e h fired =
    let (step, made, runs) = fired_handled lower timeout cs s e h fired in
    let m = attempt (offered e cs) (live_pending timeout s e.now) step in
    let (c, found, same, reset) = settle-fires s e.now m h (rw runs at fired) in
    let (listed, steps) =
      attempt-exact (offered e cs) (live_pending timeout s e.now) step c found in
    (step, c, made, same, offered_sound cs e c listed, steps, rw runs reset)

attempt-prefix :
    (cs : List Candidate) (waiting : List String) (step : String)
    → (attempt cs waiting step).1 ≡ prefix
    → try_match cs (attempt cs waiting step).0 ≡ prefix
unfolding attempt
attempt-prefix cs [] step h = ground arith
attempt-prefix cs (w ∷ ws) step h = ground arith

waits_for :
    (cs : List Candidate) (e : KeyEvent) (seq : List String)
    → try_match (offered e cs) seq ≡ prefix
    → IsWaiting cs seq
waits_for cs e [] h = tt
waits_for cs e (p ∷ ps) h =
    let (c, listed, longer) = try_match-prefix (offered e cs) (p ∷ ps) h in
    (c, (offered_sound cs e c listed).0, longer)

settle-IsWaiting :
    (cs : List Candidate) (s : MatcherState) (now : ℤ) (m : List String × Match)
    → (m.1 ≡ prefix → IsWaiting cs m.0)
    → IsWaiting cs (settle s now m).0.pending
unfolding settle
settle-IsWaiting cs s now (seq, exact c) h = tt
settle-IsWaiting cs s now (seq, prefix) h = h refl
settle-IsWaiting cs s now (seq, nothing) h = tt

-- What waits is always the beginning of some binding's longer sequence, whatever the events.
pub on_key_down-IsWaiting :
    (lower : String → String) (timeout : ℕ) (cs : List Candidate) (s : MatcherState) (e : KeyEvent)
    → IsWaiting cs s.pending
    → IsWaiting cs (on_key_down lower timeout cs s e).0.pending
unfolding on_key_down
on_key_down-IsWaiting lower timeout cs s e h =
    elim (Bool-cases (e.default_prevented || e.is_composing)) [
      | inl ignored ↦ rw ignored h
      | inr handled ↦ elim (Option-cases (event_to_step lower e)) [
        | inl quiet ↦ rw (handled, quiet) h
        | inr (step, made) ↦
            let waiting = live_pending timeout s e.now in
            rw (handled, made)
              (settle-IsWaiting cs s e.now (attempt (offered e cs) waiting step) (λ p.
                waits_for cs e (attempt (offered e cs) waiting step).0
                  (attempt-prefix (offered e cs) waiting step p)))
      ]
    ]
