-- ===== src/Slug/Tests.antt =====
-- A name with blanks and signs, and its slug.
use wai_ai.Common.{◌≡◌, refl, String, ◌↔◌}
use wai_ai.Common.Text.{is_space}
use wai_ai.Slug.{derive_slug}
use wai_ai.Slug.Shape.{IsSlug, derive_slug_iff}

abbrev same : String → String
same s = s

my_org : derive_slug same "-my  (org) - 2-" ≡ "my-org-2"
unfolding derive_slug is_space
my_org = refl

derive_slug_iff_example :
    IsSlug (derive_slug same "my  org")
    × ((derive_slug same "my  org" ≡ "my  org") ↔ IsSlug "my  org")
derive_slug_iff_example = derive_slug_iff same "my  org" (λ s h. refl)
