-- ===== src/Members.antt =====
-- ui/src/components/members/memberRules.ts: which membership actions the dashboard offers.
pub mod Guards
mod Tests
use wai_ai.Common.{
  ℕ, String, Bool, true, false, not, ◌&&◌, ◌||◌, Option, none, some, List, [], ◌∷◌, map, leb, ltb,
  is_some, filter, if◌then◌else◌, ◌==◌,
}
use wai_ai.Access.{Role, role_rank_of, role_rank}

pub data MemberContext : Type 0 where
  org team : MemberContext

abbrev pub is_org : MemberContext → Bool
is_org org = true
is_org team = false

pub record MemberRecord : Type 0 where
  pub id : String
  pub user_id : String
  pub role : String
  pub created_at : String

pub record RoleOption : Type 0 where
  pub value : String
  pub label : String

-- `CONTEXT_ROLES`
abbrev pub context_roles : MemberContext → List String
context_roles org = "member" ∷ "org_admin" ∷ []
context_roles team = "member" ∷ "team_admin" ∷ []

-- `roleOptionsFor`; `format_role` makes the label.
unfoldable pub role_options_for : (String → String) → MemberContext → Bool → List RoleOption
role_options_for format_role context viewer_is_system_admin =
    map (λ r. record { value = r; label = format_role r })
      (filter (λ r. not (is_org context) || not (r == "org_admin") || viewer_is_system_admin)
        (context_roles context))

-- `isAdminRole`
unfoldable pub is_admin_role : String → Bool
is_admin_role role = leb (role_rank_of Role.team_admin) (role_rank (some role))

pub record MemberViewer : Type 0 where
  pub user_id : Option String
  pub role : Role
  pub is_system_admin : Bool
  pub can_manage : Bool

pub record MemberActionState : Type 0 where
  pub can_change_role : Bool
  pub can_remove : Bool
  pub change_role_reason : Option String
  pub remove_reason : Option String

pub record MemberActionInput : Type 0 where
  pub context : MemberContext
  pub viewer : MemberViewer
  pub member : MemberRecord
  pub target_is_system_admin : Bool
  pub is_last_org_admin : Bool

abbrev pub reason_higher : String
reason_higher = "You can only manage members with a lower role than yours"

abbrev pub reason_sysadmin : String
reason_sysadmin = "Only a system admin can change a system admin"

abbrev pub reason_last_admin : String
reason_last_admin = "An organization needs at least one org admin"

-- `isSelf`
unfoldable pub is_self : MemberViewer → MemberRecord → Bool
is_self viewer target = elim viewer.user_id [ none ↦ false | some u ↦ target.user_id == u ]

-- The first block: the reason that both actions share.
unfoldable pub shared_reason : MemberActionInput → Option String
unfolding is_self
shared_reason i =
    if i.viewer.is_system_admin
    then none
    else if i.target_is_system_admin || i.member.role == "system_admin"
    then some reason_sysadmin
    else if leb (role_rank_of i.viewer.role) (role_rank (some i.member.role))
        && not (is_self i.viewer i.member)
    then some reason_higher
    else none

-- The reasons are not empty, so `!reason` says that there is none.
unfoldable pub change_role_reason_of : MemberActionInput → Option String
unfolding shared_reason
change_role_reason_of i = elim (shared_reason i) [
  | some r ↦ some r
  | none ↦
      if is_self i.viewer i.member
      then some "You can't change your own role"
      else if is_org i.context && not i.viewer.is_system_admin
      then some "Only system admins can change org roles"
      else if is_org i.context && i.is_last_org_admin
      then some reason_last_admin
      else none
]

unfoldable pub remove_reason_of : MemberActionInput → Option String
unfolding shared_reason
remove_reason_of i = elim (shared_reason i) [
  | some r ↦ some r
  | none ↦
      if is_self i.viewer i.member && is_org i.context
      then some "You can't remove yourself"
      else if is_self i.viewer i.member
          && ltb (role_rank_of i.viewer.role) (role_rank_of Role.org_admin)
      then some "Team admins can't remove themselves"
      else if is_org i.context && i.is_last_org_admin
      then some reason_last_admin
      else none
]

-- `memberActionState`
unfoldable pub member_action_state : MemberActionInput → MemberActionState
unfolding change_role_reason_of remove_reason_of
member_action_state i =
    if i.viewer.can_manage
    then record {
      can_change_role = not (is_some (change_role_reason_of i));
      can_remove = not (is_some (remove_reason_of i));
      change_role_reason = change_role_reason_of i;
      remove_reason = remove_reason_of i;
    }
    else record {
      can_change_role = false;
      can_remove = false;
      change_role_reason = none;
      remove_reason = none;
    }
