-- ===== src/Access/Tests.antt =====
-- The theorems on roles at concrete users.
use wai_ai.Common.{◌≡◌, refl, false, none, some}
use wai_ai.Access.{MeResponse, derive_permissions, role_rank}
use wai_ai.Access.Ladder.{HasOwnFlags, HasNoFlags, derive_permissions_iff}

abbrev lead : MeResponse
lead = record {
  id = "u1";
  email = "lead@example.com";
  display_name = "Lead";
  role = "team_admin";
  org_id = some "o1";
  is_system_admin = false;
}

unknown_role : role_rank (some "auditor") ≡ 0
unfolding role_rank
unknown_role = refl

derive_permissions_iff_example :
    HasOwnFlags lead (derive_permissions (some lead)) × HasNoFlags (derive_permissions none)
derive_permissions_iff_example = derive_permissions_iff lead
