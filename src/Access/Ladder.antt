-- ===== src/Access/Ladder.antt =====
-- Capabilities along the ladder of roles.
use wai_ai.Common.{String, ◌≡◌, ◌↔◌, ◌⊎◌, true, false, ◌||◌, none, some, arith, eq_iff, refl, leb}
use wai_ai.Access.{
  Role, member, team_admin, org_admin, system_admin, role_name, MeResponse, Permissions, read_role,
  has_role, effective_role, derive_permissions, role_rank_of,
}

-- The bound test `atLeast` of a signed-in user agrees with `hasRole` on the role string, except
-- that a user flagged as system admin passes it for every role.
pub at_least-has_role :
    (me : MeResponse) (required : Role)
    → (derive_permissions (some me)).at_least required
      ≡ (me.is_system_admin || has_role (some me.role) required)
unfolding derive_permissions has_role
at_least-has_role me required = ground arith

read_role_sound : (s : String) (r : Role) → read_role s ≡ some r → s ≡ role_name r
unfolding read_role
read_role_sound s r h =
    ground (
      arith,
      eq_iff s "member",
      eq_iff s "team_admin",
      eq_iff s "org_admin",
      eq_iff s "system_admin",
    )

read_role-name : (r : Role) → read_role (role_name r) ≡ some r
unfolding read_role
read_role-name member = refl
read_role-name team_admin = refl
read_role-name org_admin = refl
read_role-name system_admin = refl

-- A string names a role exactly when it is that role's name on the wire.
pub read_role_iff : (s : String) (r : Role) → (read_role s ≡ some r) ↔ (s ≡ role_name r)
read_role_iff s r = (read_role_sound s r, λ e. rw e (read_role-name r))

-- Who is a system admin: by the flag, or by the string of the role.
abbrev pub IsPlatformAdmin : MeResponse → Type 0
IsPlatformAdmin me = (me.is_system_admin ≡ true) ⊎ (me.role ≡ "system_admin")

abbrev pub RunsOrg : MeResponse → Type 0
RunsOrg me = IsPlatformAdmin me ⊎ (me.role ≡ "org_admin")

abbrev pub RunsTeams : MeResponse → Type 0
RunsTeams me = RunsOrg me ⊎ (me.role ≡ "team_admin")

-- Each flag is given exactly to the users that it is meant for.
pub record HasOwnFlags (me : MeResponse) (p : Permissions) : Type 0 where
  pub platform : (p.can_manage_platform ≡ true) ↔ IsPlatformAdmin me
  pub keys : (p.can_manage_keys ≡ true) ↔ RunsOrg me
  pub members : (p.can_manage_members ≡ true) ↔ RunsOrg me
  pub org : (p.can_manage_org ≡ true) ↔ RunsOrg me
  pub usage : (p.can_view_org_usage ≡ true) ↔ RunsOrg me
  pub audit : (p.can_view_audit_log ≡ true) ↔ RunsOrg me
  pub accounts : (p.can_manage_service_accounts ≡ true) ↔ RunsOrg me
  pub teams : (p.can_manage_teams ≡ true) ↔ RunsTeams me

-- No flag is given.
pub record HasNoFlags (p : Permissions) : Type 0 where
  pub platform : p.can_manage_platform ≡ false
  pub keys : p.can_manage_keys ≡ false
  pub members : p.can_manage_members ≡ false
  pub org : p.can_manage_org ≡ false
  pub usage : p.can_view_org_usage ≡ false
  pub audit : p.can_view_audit_log ≡ false
  pub accounts : p.can_manage_service_accounts ≡ false
  pub teams : p.can_manage_teams ≡ false

module _ (me : MeResponse) where
  platform_iff : (leb 3 (role_rank_of (effective_role (some me))) ≡ true) ↔ IsPlatformAdmin me
  unfolding effective_role
  platform_iff = ground (arith, read_role_iff me.role system_admin)

  org_iff : (leb 2 (role_rank_of (effective_role (some me))) ≡ true) ↔ RunsOrg me
  unfolding effective_role
  org_iff = ground (arith, read_role_iff me.role system_admin, read_role_iff me.role org_admin)

  teams_iff : (leb 1 (role_rank_of (effective_role (some me))) ≡ true) ↔ RunsTeams me
  unfolding effective_role
  teams_iff = ground (
    arith,
    read_role_iff me.role system_admin,
    read_role_iff me.role org_admin,
    read_role_iff me.role team_admin,
  )

-- System admins, by their flag or their role, manage the platform; they and org admins manage the keys,
-- the members, the organization and its service accounts, and see its usage and its audit log; they and
-- team admins manage teams; nobody else has any of these flags, nor anyone while the user is not loaded.
pub derive_permissions_iff :
    (me : MeResponse)
    → HasOwnFlags me (derive_permissions (some me)) × HasNoFlags (derive_permissions none)
unfolding derive_permissions
derive_permissions_iff me = (
  record {
    platform = platform_iff me;
    keys = org_iff me;
    members = org_iff me;
    org = org_iff me;
    usage = org_iff me;
    audit = org_iff me;
    accounts = org_iff me;
    teams = teams_iff me;
  },
  unfold effective_role in
      record {
        platform = refl;
        keys = refl;
        members = refl;
        org = refl;
        usage = refl;
        audit = refl;
        accounts = refl;
        teams = refl;
      },
)
