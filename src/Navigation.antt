-- ===== src/Navigation.antt =====
-- ui/src/components/layout/navigation.ts: the pages that a role sees. The icons are left out.
pub mod Pages
pub mod Access
pub mod Levels
pub mod Active
mod Tests
use wai_ai.Common.{
  ℕ, String, Bool, true, false, not, ◌||◌, ◌&&◌, Option, none, some, List, [], ◌∷◌, ◌++◌, map, leb,
  or_default, filter, any, ltb, length, member, if◌then◌else◌, ◌==◌,
}
use wai_ai.Common.Text.{truthy, append, starts_with}

pub record NavItem : Type 0 where
  pub label : String
  pub path : String
  pub locked : Bool
  pub min_role : Option String
  -- `none` where the item leaves `end` out.
  pub ends : Option Bool
  pub match_prefixes : List String
  pub keywords : List String

pub record NavGroup : Type 0 where
  pub label : String
  pub items : List NavItem
  pub min_role : Option String

-- `roleLevel[role]`
unfoldable pub role_level : String → Option ℕ
role_level role =
    if role == "member"
    then some 0
    else if role == "team_admin"
    then some 1
    else if role == "org_admin"
    then some 2
    else if role == "system_admin"
    then some 3
    else none

-- `roleLevel[role] ?? 0`
unfoldable pub level : String → ℕ
unfolding role_level
level role = or_default (role_level role) 0

-- `hasMinRole`, without the warning on the console.
unfoldable pub has_min_role : String → Option String → Bool
has_min_role user_role none = true
has_min_role user_role (some min_role) =
    if truthy min_role then leb (level min_role) (level user_role) else true

-- An item with a label and a path alone; the others are written as changes of it.
abbrev page : String → String → List String → NavItem
page label path keywords = record {
  label = label;
  path = path;
  locked = false;
  min_role = none;
  ends = none;
  match_prefixes = [];
  keywords = keywords;
}

abbrev open_page : String → String → List String → NavItem
open_page label path keywords = record (page label path keywords) { ends = some false }

abbrev gated : String → NavItem → NavItem
gated min_role item = record item { min_role = some min_role }

-- `CONNECT_EDITOR_ITEM`
abbrev pub connect_editor_item : NavItem
connect_editor_item = page "Connect editor" "/integrations" (
    "cursor" ∷ "vs code" ∷ "vscode" ∷ "copilot" ∷ "continue" ∷ "cline" ∷ "claude code"
    ∷ "integration" ∷ "setup" ∷ [])

abbrev overview : Bool → List NavItem
overview true = page "Home" "/playground" ("playground" ∷ "chat" ∷ []) ∷ connect_editor_item ∷ []
overview false =
    page "Dashboard" "/" ("home" ∷ "overview" ∷ [])
    ∷ page "Playground" "/playground" ("chat" ∷ "try" ∷ [])
    ∷ connect_editor_item
    ∷ []

abbrev manage : List NavItem
manage =
    record (page "API access" "/keys" ("keys" ∷ "api keys" ∷ "tokens" ∷ [])) {
      match_prefixes = "/keys" ∷ "/service-accounts" ∷ [];
    }
    ∷ open_page "Models" "/models" ("catalog" ∷ "llm" ∷ [])
    ∷ gated "team_admin" (open_page "Teams" "/teams" [])
    ∷ record (open_page "MCP" "/mcp" ("servers" ∷ "tools" ∷ [])) { match_prefixes = "/mcp" ∷ [] }
    ∷ []

abbrev analytics : List NavItem
analytics =
    record (open_page "Insights" "/usage" ("usage" ∷ "analytics" ∷ "metrics" ∷ [])) {
      match_prefixes = "/usage" ∷ [];
    }
    ∷ []

abbrev organization : List NavItem
organization =
    open_page "Organization" "/org" ("org" ∷ [])
    ∷ gated "org_admin"
        (page "Alerts" "/alerts" ("notifications" ∷ "teams" ∷ "slack" ∷ "webhook" ∷ "budget" ∷ []))
    ∷ []

abbrev system : List NavItem
system =
    open_page "Organizations" "/orgs" ("tenants" ∷ [])
    ∷ page "Users" "/users" []
    ∷ record (open_page "Platform" "/platform" ("system" ∷ "setup" ∷ [])) {
      match_prefixes = "/platform" ∷ [];
    }
    ∷ []

-- The tree of `buildNavigation`, by its test `isMember`.
unfoldable pub navigation_tree : Bool → List NavGroup
navigation_tree is_member =
    record { label = "Overview"; items = overview is_member; min_role = none }
    ∷ record { label = "Manage"; items = manage; min_role = none }
    ∷ record { label = "Analytics"; items = analytics; min_role = none }
    ∷ record { label = ""; items = organization; min_role = none }
    ∷ record { label = "System"; items = system; min_role = some "system_admin" }
    ∷ []

-- `buildNavigation`
unfoldable pub build_navigation : String → List NavGroup
unfolding navigation_tree
build_navigation user_role = navigation_tree (user_role == "member")

abbrev keep_visible : String → NavGroup → NavGroup
keep_visible user_role group = record group {
  items = filter (λ item. has_min_role user_role item.min_role) group.items;
}

-- `visibleNavigation`, on the groups of `build_navigation`.
unfoldable pub visible_groups : String → List NavGroup → List NavGroup
visible_groups user_role groups =
    filter (λ group. ltb 0 (length group.items))
      (map (keep_visible user_role)
        (filter (λ group. has_min_role user_role group.min_role) groups))

unfoldable pub visible_navigation : String → List NavGroup
unfolding visible_groups
visible_navigation user_role = visible_groups user_role (build_navigation user_role)

-- `SUB_PAGES`
unfoldable pub sub_pages : List NavItem
sub_pages =
    gated "org_admin" (page "Service accounts" "/service-accounts" [])
    ∷ gated "org_admin" (page "Model org access" "/models/org-access" [])
    ∷ gated "team_admin" (page "Model team access" "/models/team-access" [])
    ∷ gated "org_admin" (page "MCP org access" "/mcp/org-access" [])
    ∷ gated "team_admin" (page "MCP team access" "/mcp/team-access" [])
    ∷ page "LLM usage" "/usage/llm" []
    ∷ page "MCP usage" "/usage/mcp" []
    ∷ page "Auto routing usage" "/usage/auto" []
    ∷ page "Cost reports" "/usage/cost" ("spend" ∷ "billing" ∷ [])
    ∷ page "Request logs" "/usage/logs" ("requests" ∷ "logs" ∷ [])
    ∷ gated "org_admin" (page "Organization members" "/org/users" ("invite" ∷ []))
    ∷ page "Organization settings" "/org/settings" ("settings" ∷ [])
    ∷ gated "org_admin" (page "SSO" "/org/sso" ("single sign-on" ∷ "saml" ∷ "oidc" ∷ []))
    ∷ gated "org_admin" (page "Audit log" "/org/audit" [])
    ∷ gated "system_admin" (page "Platform setup" "/platform/setup" [])
    ∷ gated "system_admin" (page "Host metrics" "/platform/host" [])
    ∷ gated "system_admin" (page "Auto routing" "/platform/auto-routing" [])
    ∷ page "Profile" "/profile" ("account" ∷ "me" ∷ [])
    ∷ []

unfoldable pub items_of : List NavGroup → List NavItem
items_of [] = []
items_of (g ∷ gs) = g.items ++ items_of gs

-- The loop of `accessiblePages`, with the set `seen`.
unfoldable pub collect : List String → List NavItem → List NavItem
collect seen [] = []
collect seen (item ∷ items) = elim (item.locked || member item.path seen) [
  | true ↦ collect seen items
  | false ↦ item ∷ collect (item.path ∷ seen) items
]

-- The items that the loop runs over.
unfoldable pub candidates : String → List NavItem
unfolding items_of visible_navigation sub_pages
candidates user_role =
    items_of (visible_navigation user_role)
    ++ filter (λ p. has_min_role user_role p.min_role) sub_pages

-- `accessiblePages`
unfoldable pub accessible_pages : String → List NavItem
unfolding collect candidates
accessible_pages user_role = collect [] (candidates user_role)

-- The local `matches` of `isItemActive`.
unfoldable pub at_or_below : String → String → Bool
unfolding starts_with append
at_or_below pathname p = pathname == p || starts_with pathname (append p "/")

-- `isItemActive`
unfoldable pub is_item_active : NavItem → String → Bool
unfolding at_or_below
is_item_active item pathname =
    if any (at_or_below pathname) item.match_prefixes
    then true
    else if or_default item.ends (item.path == "/")
    then pathname == item.path
    else at_or_below pathname item.path
