-- ===== src/Onboarding.antt =====
-- ui/src/components/onboarding/onboardingSteps.ts: the steps that a new organization is shown, and the
-- flag of a dismissed list in the browser's storage.
pub mod Steps
mod Tests
use wai_ai.Common.{
  String, Bool, true, false, Option, none, some, List, [], ◌∷◌, map, filter, if◌then◌else◌, ◌==◌,
}

-- `OnboardingStatus` (hooks/useOnboardingStatus.ts)
pub record OnboardingStatus : Type 0 where
  pub has_models : Bool
  pub has_keys : Bool
  pub has_requests : Bool
  pub has_budget : Bool
  pub has_members : Bool

pub data StepId : Type 0 where
  model key request budget invite : StepId

-- `OnboardingStep`
pub record Step : Type 0 where
  pub id : StepId
  pub title : String
  pub description : String
  pub done : Bool
  pub href : String
  pub action_label : String

pub record Viewer : Type 0 where
  pub is_system_admin : Bool
  pub is_org_admin : Bool

-- `!!status?.f`
abbrev pub flag : (OnboardingStatus → Bool) → Option OnboardingStatus → Bool
flag f none = false
flag f (some s) = f s

-- `all`, each step with `visible`
unfoldable pub all_steps : Option OnboardingStatus → Viewer → List (Step × Bool)
all_steps status viewer =
    (
      record {
        id = model;
        title = "Add a model";
        description = "Register a provider model so requests have somewhere to go.";
        done = flag (λ s. s.has_models) status;
        href = "/models?new=1";
        action_label = "Add model";
      },
      viewer.is_system_admin,
    )
    ∷ (
      record {
        id = key;
        title = "Create an API key";
        description = "Keys authenticate Cursor, the OpenAI SDK and your own apps.";
        done = flag (λ s. s.has_keys) status;
        href = "/keys?new=1";
        action_label = "Create key";
      },
      true,
    )
    ∷ (
      record {
        id = request;
        title = "Send your first request";
        description = "Call the OpenAI-compatible endpoint with your key, or try the playground.";
        done = flag (λ s. s.has_requests) status;
        href = "/playground";
        action_label = "Open playground";
      },
      true,
    )
    ∷ (
      record {
        id = budget;
        title = "Set a budget";
        description = "Cap organization spend so a runaway script can’t surprise you.";
        done = flag (λ s. s.has_budget) status;
        href = "/org/settings";
        action_label = "Set budget";
      },
      viewer.is_org_admin,
    )
    ∷ (
      record {
        id = invite;
        title = "Get your team signed in";
        description = "Teammates join by signing in with Microsoft; then assign roles and teams.";
        done = flag (λ s. s.has_members) status;
        href = "/org/users";
        action_label = "View members";
      },
      viewer.is_org_admin,
    )
    ∷ []

-- `onboardingSteps`
unfoldable pub onboarding_steps : Option OnboardingStatus → Viewer → List Step
unfolding all_steps
onboarding_steps status viewer = map (λ p. p.0) (filter (λ p. p.1) (all_steps status viewer))

-- `readDismissed`, of what `getItem` gives: none where it throws, and no text for null
unfoldable pub read_dismissed : Option (Option String) → Bool
read_dismissed (some (some item)) = item == "1"
read_dismissed _ = false

-- `writeDismissed`: the item afterwards, where `stored` tells whether `setItem` did not throw
unfoldable pub write_dismissed : Bool → Option String → Option String
write_dismissed stored item = if stored then some "1" else item
