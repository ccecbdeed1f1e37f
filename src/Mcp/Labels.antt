-- ===== src/Mcp/Labels.antt =====
-- ui/src/pages/mcp/helpers.ts: the options, labels and badges of servers.
use wai_ai.Common.{String, List, [], ◌∷◌, if◌then◌else◌, ◌==◌}

-- `SelectOption`
pub record AuthOption : Type 0 where
  pub value : String
  pub label : String

-- `AUTH_TYPE_OPTIONS`
abbrev pub auth_type_options : List AuthOption
auth_type_options =
    record { value = "none"; label = "None" }
    ∷ record { value = "bearer"; label = "Bearer Token" }
    ∷ record { value = "header"; label = "Custom Header" }
    ∷ record { value = "oauth"; label = "OAuth (Client Credentials)" }
    ∷ []

pub data Badge : Type 0 where
  muted default info success warning : Badge

unfoldable pub auth_badge_variant : String → Badge
auth_badge_variant auth_type =
    if auth_type == "none" then muted else if auth_type == "bearer" then default else info

unfoldable pub auth_label : String → String
auth_label auth_type =
    if auth_type == "none"
    then "None"
    else if auth_type == "bearer"
    then "Bearer"
    else if auth_type == "header"
    then "Header"
    else if auth_type == "oauth"
    then "OAuth"
    else auth_type

unfoldable pub scope_badge_variant : String → Badge
scope_badge_variant scope =
    if scope == "global" then default else if scope == "org" then info else success

unfoldable pub scope_label : String → String
scope_label scope =
    if scope == "global"
    then "Global"
    else if scope == "org"
    then "Org"
    else if scope == "team"
    then "Team"
    else scope

unfoldable pub source_badge_variant : String → Badge
source_badge_variant source =
    if source == "yaml" then warning else if source == "builtin" then default else muted

unfoldable pub source_label : String → String
source_label source =
    if source == "yaml" then "YAML" else if source == "builtin" then "Built-in" else "API"
