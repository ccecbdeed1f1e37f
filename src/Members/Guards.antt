-- ===== src/Members/Guards.antt =====
-- When the member actions are offered, against the guards that the module's comment states.
use wai_ai.Common.{
  ◌≤◌, ◌<◌, ◌≡◌, ◌↔◌, ◌⊎◌, true, false, some, arith, eq_iff, Option-cases, inl, inr,
}
use wai_ai.Access.{Role, role_rank, role_rank_of}
use wai_ai.Members.{MemberActionInput, org, team, is_self, member_action_state}

-- The viewer and the member are the same user.
abbrev pub SameUser : MemberActionInput → Type 0
SameUser i = i.viewer.user_id ≡ some i.member.user_id

-- The target is a system admin, by its flag or by its role.
abbrev pub TargetsSystemAdmin : MemberActionInput → Type 0
TargetsSystemAdmin i = (i.target_is_system_admin ≡ true) ⊎ (i.member.role ≡ "system_admin")

is_self_iff : (i : MemberActionInput) → (is_self i.viewer i.member ≡ true) ↔ SameUser i
unfolding is_self
is_self_iff i = elim (Option-cases i.viewer.user_id) [
  | inl missing ↦ ground arith
  | inr (u, found) ↦ ground (arith, eq_iff i.member.user_id u)
]

-- A role change is offered exactly to a viewer who manages the list, on another user, when the
-- viewer is a system admin and the member is not the last admin of an organization, or the list is
-- a team's and the member is no system admin and ranks below the viewer.
pub can_change_role_iff :
    (i : MemberActionInput)
    → ((member_action_state i).can_change_role ≡ true) ↔ (
        (i.viewer.can_manage ≡ true)
        × ¬ SameUser i
        × ((((i.viewer.is_system_admin ≡ true)
              × ((i.context ≡ team) ⊎ (i.is_last_org_admin ≡ false))))
            ⊎ ((i.viewer.is_system_admin ≡ false)
                × (i.context ≡ team)
                × ¬ TargetsSystemAdmin i
                × (role_rank (some i.member.role) < role_rank_of i.viewer.role))))
unfolding member_action_state
can_change_role_iff i = ground (arith, is_self_iff i, eq_iff i.member.role "system_admin")

-- Removal is offered exactly to a viewer who manages the list, when the viewer is a system admin or
-- the member is none and ranks below the viewer or is the viewer; never on the last admin of an
-- organization, nor on oneself in an organization, nor on oneself below the rank of org admin.
pub can_remove_iff :
    (i : MemberActionInput)
    → ((member_action_state i).can_remove ≡ true) ↔ (
        (i.viewer.can_manage ≡ true)
        × ((i.viewer.is_system_admin ≡ true)
            ⊎ (¬ TargetsSystemAdmin i
                × ((role_rank (some i.member.role) < role_rank_of i.viewer.role) ⊎ SameUser i)))
        × ¬ ((i.context ≡ org) × (i.is_last_org_admin ≡ true))
        × ¬ ((i.context ≡ org) × SameUser i)
        × (SameUser i → role_rank_of Role.org_admin ≤ role_rank_of i.viewer.role))
unfolding member_action_state
can_remove_iff i = ground (arith, is_self_iff i, eq_iff i.member.role "system_admin")
