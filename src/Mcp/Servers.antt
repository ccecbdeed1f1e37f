-- ===== src/Mcp/Servers.antt =====
-- ui/src/pages/mcp/helpers.ts: who may write a server, and the search and the sort of the list.
-- `lower` is the engine's `toLowerCase`, `encode` its `encodeURIComponent`, and `base` the public
-- origin of the MCP endpoint.
use wai_ai.Common.{
  ℕ, String, Bool, true, false, not, ◌&&◌, ◌||◌, Option, none, some, List, filter, is_some,
  if◌then◌else◌, ◌==◌,
}
use wai_ai.Common.Int.{ℤ, pos, negsuc, ltb_ℤ}
use wai_ai.Common.Text.{truthy, present, append, text_lt, needle, contains}
use wai_ai.Common.Sort.{compare_by, sort}
use wai_ai.Mcp.{Server, Health, HealthStatus, healthy, unhealthy, unknown}

-- `PermFlags`
pub record PermFlags : Type 0 where
  pub is_system_admin : Bool
  pub is_org_admin : Bool
  pub is_team_admin : Bool

abbrev blank : Option String → Bool
blank o = not (is_some (present o))

-- `server.org_id && myOrgId && server.org_id !== myOrgId`
unfoldable pub other_org : Option String → Option String → Bool
other_org org mine = elim (present org) [
  | none ↦ false
  | some o ↦ elim (present mine) [ none ↦ false | some m ↦ not (o == m) ]
]

-- `isGlobal`
unfoldable pub is_global : Server → Bool
is_global s = s.scope == "global" || blank s.org_id && blank s.team_id

-- `canWriteServer`
unfoldable pub can_write_server : Server → PermFlags → Option String → Bool
unfolding other_org is_global
can_write_server server perms my_org_id =
    if perms.is_system_admin
    then true
    else if is_global server
    then false
    else if other_org server.org_id my_org_id
    then false
    else if perms.is_org_admin
    then true
    else server.scope == "team" && perms.is_team_admin

-- `isConfigManaged`
unfoldable pub is_config_managed : Server → Bool
is_config_managed s = s.source == "yaml" || s.source == "builtin"

-- `mcpServerEndpoint` (mcpUrl.ts) of an alias
unfoldable pub mcp_server_endpoint : (String → String) → String → String → String
mcp_server_endpoint encode base alias =
    if truthy alias
    then append base (append "/api/v1/mcp/" (encode alias))
    else append base "/api/v1/mcp"

module _ (lower encode : String → String) (base : String) where
  -- `getMCPServerDisplayUrl`
  unfoldable pub display_url : Server → String
  unfolding mcp_server_endpoint
  display_url s =
      if truthy s.url
      then s.url
      else if s.source == "builtin"
      then mcp_server_endpoint encode base s.alias
      else ""

  -- The predicate of `filterServers`.
  unfoldable pub server_passes : String → Server → Bool
  server_passes q s =
      contains lower q (some s.name)
      || contains lower q (some s.alias)
      || contains lower q (some (display_url s))

  -- `filterServers`
  unfoldable pub filter_servers : List Server → String → List Server
  filter_servers servers query =
      let q = needle lower query in if truthy q then filter (server_passes q) servers else servers

pub data ServerSortColumn : Type 0 where
  name alias url scope tools is_active health : ServerSortColumn

pub data Direction : Type 0 where
  asc desc : Direction

abbrev pub is_asc : Direction → Bool
is_asc asc = true
is_asc desc = false

pub record ServerSort : Type 0 where
  pub column : ServerSortColumn
  pub direction : Direction

-- `HEALTH_RANK`
abbrev pub health_rank : HealthStatus → ℕ
health_rank healthy = 0
health_rank unknown = 1
health_rank unhealthy = 2

-- The type of a column's keys, and its `<`.
abbrev pub SortKey : ServerSortColumn → Type 0
SortKey name = String
SortKey alias = String
SortKey url = String
SortKey scope = String
SortKey _ = ℤ

abbrev pub key_lt : (c : ServerSortColumn) → SortKey c → SortKey c → Bool
key_lt name = text_lt
key_lt alias = text_lt
key_lt url = text_lt
key_lt scope = text_lt
key_lt tools = ltb_ℤ
key_lt is_active = ltb_ℤ
key_lt health = ltb_ℤ

module _ (lower encode : String → String) (base : String) (health_of : String → Option Health) where
  -- The local `key` of `sortServers`; `health_of` is the lookup in its map.
  unfoldable pub sort_key : (c : ServerSortColumn) → Server → SortKey c
  sort_key name s = lower s.name
  sort_key alias s = lower s.alias
  sort_key url s = lower (display_url lower encode base s)
  sort_key scope s = s.scope
  sort_key tools s = elim (health_of s.id) [ none ↦ negsuc 0 | some h ↦ pos h.tool_count ]
  sort_key is_active s = if s.is_active then pos 0 else pos 1
  sort_key health s =
      pos (health_rank (elim (health_of s.id) [ none ↦ unknown | some h ↦ h.status ]))

  -- `sortServers`
  unfoldable pub sort_servers : List Server → Option ServerSort → List Server
  sort_servers servers none = servers
  sort_servers servers (some s) =
      sort (compare_by (key_lt s.column) (sort_key s.column) (is_asc s.direction)) servers

abbrev same_column : ServerSortColumn → ServerSortColumn → Bool
same_column name name = true
same_column alias alias = true
same_column url url = true
same_column scope scope = true
same_column tools tools = true
same_column is_active is_active = true
same_column health health = true
same_column _ _ = false

-- `nextSort`
unfoldable pub next_sort : Option ServerSort → ServerSortColumn → Option ServerSort
next_sort none c = some (record { column = c; direction = asc })
next_sort (some s) c =
    if not (same_column s.column c)
    then some (record { column = c; direction = asc })
    else if is_asc s.direction
    then some (record { column = c; direction = desc })
    else none
