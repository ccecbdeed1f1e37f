-- ===== src/Access.antt =====
-- ui/src/hooks/usePermissions.ts: the ladder of roles and the capability flags of the signed-in user.
pub mod Ladder
mod Tests
use wai_ai.Common.{
  ℕ, String, Bool, true, false, not, ◌||◌, Option, none, some, leb, eqb, is_some, or_default,
  if◌then◌else◌, ◌==◌,
}

pub data Role : Type 0 where
  member team_admin org_admin system_admin : Role

-- `ROLE_RANK`
abbrev pub role_rank_of : Role → ℕ
role_rank_of member = 0
role_rank_of team_admin = 1
role_rank_of org_admin = 2
role_rank_of system_admin = 3

-- `ROLES`, as the strings on the wire.
abbrev pub role_name : Role → String
role_name member = "member"
role_name team_admin = "team_admin"
role_name org_admin = "org_admin"
role_name system_admin = "system_admin"

-- The role that a string names: what `isRole` narrows a string to.
unfoldable pub read_role : String → Option Role
read_role s =
    if s == "member"
    then some member
    else if s == "team_admin"
    then some team_admin
    else if s == "org_admin"
    then some org_admin
    else if s == "system_admin"
    then some system_admin
    else none

unfoldable pub is_role : String → Bool
unfolding read_role
is_role s = is_some (read_role s)

-- `roleRank`; `none` is a missing role.
unfoldable pub role_rank : Option String → ℕ
unfolding read_role
role_rank none = 0
role_rank (some s) = elim (read_role s) [ none ↦ 0 | some r ↦ role_rank_of r ]

-- `hasRole`
unfoldable pub has_role : Option String → Role → Bool
unfolding role_rank
has_role role required = leb (role_rank_of required) (role_rank role)

pub record MeResponse : Type 0 where
  pub id : String
  pub email : String
  pub display_name : String
  pub role : String
  pub org_id : Option String
  pub is_system_admin : Bool

pub record Permissions : Type 0 where
  pub role : Role
  pub rank : ℕ
  pub is_system_admin : Bool
  pub is_org_admin : Bool
  pub is_team_admin : Bool
  pub is_member : Bool
  pub can_manage_keys : Bool
  pub can_manage_teams : Bool
  pub can_manage_members : Bool
  pub can_manage_org : Bool
  pub can_view_org_usage : Bool
  pub can_view_audit_log : Bool
  pub can_manage_service_accounts : Bool
  pub can_manage_platform : Bool
  pub at_least : Role → Bool

-- The `role` of `derivePermissions`.
unfoldable pub effective_role : Option MeResponse → Role
unfolding read_role
effective_role none = member
effective_role (some me) =
    if me.is_system_admin then system_admin else or_default (read_role me.role) member

-- The rest of `derivePermissions`, from the effective role.
abbrev pub permissions_of : Role → Permissions
permissions_of role =
    let rank = role_rank_of role in
    let is_system_admin = leb 3 rank in
    let is_org_admin = leb 2 rank in
    let is_team_admin = leb 1 rank in
    record {
      role = role;
      rank = rank;
      is_system_admin = is_system_admin;
      is_org_admin = is_org_admin;
      is_team_admin = is_team_admin;
      is_member = eqb rank 0;
      can_manage_keys = is_org_admin;
      can_manage_teams = is_team_admin;
      can_manage_members = is_org_admin;
      can_manage_org = is_org_admin;
      can_view_org_usage = is_org_admin;
      can_view_audit_log = is_org_admin;
      can_manage_service_accounts = is_org_admin;
      can_manage_platform = is_system_admin;
      at_least = λ required. leb (role_rank_of required) rank;
    }

unfoldable pub derive_permissions : Option MeResponse → Permissions
unfolding effective_role
derive_permissions me = permissions_of (effective_role me)

-- What `usePermissions` returns: the permissions, with `isReady`.
pub record ReadyPermissions : Type 0 where
  pub permissions : Permissions
  pub is_ready : Bool

-- `usePermissions`, of the `data` and the `isLoading` of `useMe`
unfoldable pub use_permissions : Option MeResponse → Bool → ReadyPermissions
unfolding derive_permissions
use_permissions me is_loading = record {
  permissions = derive_permissions me;
  is_ready = not is_loading;
}
