-- ===== src/Mcp/Write.antt =====
-- Who may write a server.
use mathlib.Core.Option.{some-injective}
use wai_ai.Common.{
  String, ◌≡◌, ◌≢◌, ◌↔◌, ◌⊎◌, inl, inr, refl, not, ◌==◌, true, false, Option, none, some, arith,
  eq_iff, Option-cases,
}
use wai_ai.Common.Text.{present}
use wai_ai.Mcp.{Server}
use wai_ai.Mcp.Servers.{PermFlags, can_write_server, is_global, other_org}

-- The server belongs to an organization or a team.
abbrev pub IsOwned : Server → Type 0
IsOwned s = (s.scope ≢ "global") × ((present s.org_id ≢ none) ⊎ (present s.team_id ≢ none))

-- Both are known, and they differ.
abbrev pub Differ : Option String → Option String → Type 0
Differ a b = (o : String) × (m : String) × (a ≡ some o) × (b ≡ some m) × (o ≢ m)

-- The server belongs to another organization than the user, as far as both are known.
abbrev pub IsElsewhere : Option String → Option String → Type 0
IsElsewhere org mine = Differ (present org) (present mine)

is_global_iff : (s : Server) → (is_global s ≡ false) ↔ IsOwned s
unfolding is_global
is_global_iff s = ground (arith, eq_iff s.scope "global")

other_org_iff : (org mine : Option String) → (other_org org mine ≡ true) ↔ IsElsewhere org mine
unfolding other_org
other_org_iff org mine = elim (Option-cases (present org)) [
  | inl e ↦ ground (arith, e)
  | inr (o, e) ↦ elim (Option-cases (present mine)) [
    | inl k ↦ ground (arith, e, k)
    | inr (m, k) ↦ rw (e, k, other_org) (both o m)
  ]
]
  where
    both : (o m : String) → (not (o == m) ≡ true) ↔ Differ (some o) (some m)
    both o m = (
      λ h. (o, m, refl, refl, ground (arith, h, eq_iff o m)),
      λ w.
          let first = some-injective o w.0 w.2 in
          let second = some-injective m w.1 w.3 in ground (arith, eq_iff o m, first, second, w.4),
    )

-- A server may be written by system admins; and one that belongs to an organization or a team, and
-- not to another organization than the user's where both are known, by org admins, and by team
-- admins if its scope is "team".
pub can_write_server_iff :
    (s : Server) (perms : PermFlags) (my_org_id : Option String)
    → (can_write_server s perms my_org_id ≡ true) ↔ (
        (perms.is_system_admin ≡ true)
        ⊎ (IsOwned s
            × ¬ IsElsewhere s.org_id my_org_id
            × ((perms.is_org_admin ≡ true) ⊎ ((s.scope ≡ "team") × (perms.is_team_admin ≡ true)))))
unfolding can_write_server
can_write_server_iff s perms my_org_id =
    ground (arith, is_global_iff s, other_org_iff s.org_id my_org_id, eq_iff s.scope "team")
