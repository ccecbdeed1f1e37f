-- ===== src/Onboarding/Tests.antt =====
-- The steps of an org admin who has made a key.
use wai_ai.Common.{◌≡◌, refl, true, false, some, [], ◌∷◌, map}
use wai_ai.Onboarding.{OnboardingStatus, key, request, budget, invite, Viewer, onboarding_steps}

abbrev org_admin : Viewer
org_admin = record { is_system_admin = false; is_org_admin = true }

abbrev status : OnboardingStatus
status = record {
  has_models = false;
  has_keys = true;
  has_requests = false;
  has_budget = false;
  has_members = false;
}

admin_steps :
    map (λ s. s.id) (onboarding_steps (some status) org_admin)
    ≡ key ∷ request ∷ budget ∷ invite ∷ []
unfolding onboarding_steps
admin_steps = refl
