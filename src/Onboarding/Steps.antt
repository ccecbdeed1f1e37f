-- ===== src/Onboarding/Steps.antt =====
-- Which steps a viewer is shown, and which of them are ticked.
use wai_ai.Common.{
  ◌≡◌, ◌↔◌, refl, String, Bool, true, false, ◌||◌, Option, some, map, arith, All, AllDistinct,
  Listed,
}
use wai_ai.Onboarding.{
  OnboardingStatus, StepId, model, key, request, budget, invite, Viewer, flag, onboarding_steps,
  read_dismissed, write_dismissed,
}

-- The viewer can act on the step.
abbrev pub MayAct : Viewer → StepId → Type 0
MayAct v model = v.is_system_admin ≡ true
MayAct v key = Unit
MayAct v request = Unit
MayAct v budget = v.is_org_admin ≡ true
MayAct v invite = v.is_org_admin ≡ true

-- The flag of the status that ticks a step.
abbrev pub is_done : Option OnboardingStatus → StepId → Bool
is_done o model = flag (λ s. s.has_models) o
is_done o key = flag (λ s. s.has_keys) o
is_done o request = flag (λ s. s.has_requests) o
is_done o budget = flag (λ s. s.has_budget) o
is_done o invite = flag (λ s. s.has_members) o

shown_iff :
    (status : Option OnboardingStatus) (v : Viewer) (i : StepId)
    → Listed i (map (λ s. s.id) (onboarding_steps status v)) ↔ MayAct v i
unfolding onboarding_steps
shown_iff status v model = ground arith
shown_iff status v key = ground arith
shown_iff status v request = ground arith
shown_iff status v budget = ground arith
shown_iff status v invite = ground arith

shown_once :
    (status : Option OnboardingStatus) (v : Viewer)
    → AllDistinct (map (λ s. s.id) (onboarding_steps status v))
unfolding onboarding_steps
shown_once status v = ground arith

ticked :
    (status : Option OnboardingStatus) (v : Viewer)
    → All (λ s. s.done ≡ is_done status s.id) (onboarding_steps status v)
unfolding onboarding_steps
ticked status v = ground arith

-- The steps shown are exactly those that the viewer can act on, each once, and each is ticked by its
-- own flag of the status; without a status none is ticked.
pub onboarding_steps_lem :
    (status : Option OnboardingStatus) (v : Viewer) (i : StepId)
    → (Listed i (map (λ s. s.id) (onboarding_steps status v)) ↔ MayAct v i)
      × AllDistinct (map (λ s. s.id) (onboarding_steps status v))
      × All (λ s. s.done ≡ is_done status s.id) (onboarding_steps status v)
onboarding_steps_lem status v i = (shown_iff status v i, shown_once status v, ticked status v)

-- A list that was dismissed stays dismissed, and becomes so exactly if the flag could be stored.
pub read_dismissed-write_dismissed :
    (stored : Bool) (item : Option String)
    → read_dismissed (some (write_dismissed stored item)) ≡ (stored || read_dismissed (some item))
unfolding read_dismissed write_dismissed
read_dismissed-write_dismissed true item = refl
read_dismissed-write_dismissed false item = refl
