-- ===== src/Members/Tests.antt =====
-- The theorems on member actions at concrete inputs.
use wai_ai.Common.{◌≡◌, refl, ◌↔◌, ◌⊎◌, ◌<◌, ◌≤◌, true, false, some, String}
use wai_ai.Access.{Role, role_rank, role_rank_of}
use wai_ai.Members.{MemberActionInput, team, org, member_action_state, reason_higher}
use wai_ai.Members.Guards.{SameUser, TargetsSystemAdmin, can_change_role_iff, can_remove_iff}

-- A team admin looks at a member of the team.
abbrev on_member : MemberActionInput
on_member = record {
  context = team;
  viewer = record {
    user_id = some "u1";
    role = Role.team_admin;
    is_system_admin = false;
    can_manage = true;
  };
  member = record { id = "m2"; user_id = "u2"; role = "member"; created_at = "" };
  target_is_system_admin = false;
  is_last_org_admin = false;
}

-- The same admin looks at another team admin.
abbrev on_peer : MemberActionInput
on_peer = record on_member {
  member = record { id = "m3"; user_id = "u3"; role = "team_admin"; created_at = "" };
}

on_peer_refused : (member_action_state on_peer).remove_reason ≡ some reason_higher
unfolding member_action_state role_rank
on_peer_refused = refl

on_member_offered : (member_action_state on_member).can_remove ≡ true
unfolding member_action_state role_rank
on_member_offered = refl

can_change_role_iff_example : ((member_action_state on_peer).can_change_role ≡ true) ↔ (
    (on_peer.viewer.can_manage ≡ true)
    × ¬ SameUser on_peer
    × (((on_peer.viewer.is_system_admin ≡ true)
          × ((on_peer.context ≡ team) ⊎ (on_peer.is_last_org_admin ≡ false)))
        ⊎ ((on_peer.viewer.is_system_admin ≡ false)
            × (on_peer.context ≡ team)
            × ¬ TargetsSystemAdmin on_peer
            × (role_rank (some on_peer.member.role) < role_rank_of on_peer.viewer.role))))
can_change_role_iff_example = can_change_role_iff on_peer

can_remove_iff_example : ((member_action_state on_peer).can_remove ≡ true) ↔ (
    (on_peer.viewer.can_manage ≡ true)
    × ((on_peer.viewer.is_system_admin ≡ true)
        ⊎ (¬ TargetsSystemAdmin on_peer
            × ((role_rank (some on_peer.member.role) < role_rank_of on_peer.viewer.role)
                ⊎ SameUser on_peer)))
    × ¬ ((on_peer.context ≡ org) × (on_peer.is_last_org_admin ≡ true))
    × ¬ ((on_peer.context ≡ org) × SameUser on_peer)
    × (SameUser on_peer → role_rank_of Role.org_admin ≤ role_rank_of on_peer.viewer.role))
can_remove_iff_example = can_remove_iff on_peer

abbrev shout : String → String
shout s = s
