-- ===== src/Mcp/Listing.antt =====
-- What the list of servers shows, and in which order.
use mathlib.Core.List.{Perm}
use wai_ai.Common.{
  String, ◌≡◌, ◌↔◌, ◌⊎◌, Bool, true, false, Option, some, List, arith, filter, Listed,
  Listed-filter,
}
use wai_ai.Common.Int.{ltb_ℤ-IsStrictOrder}
use wai_ai.Common.Text.{truthy, needle, contains}
use wai_ai.Common.Text.Order.{text_lt-IsStrictOrder}
use wai_ai.Common.Sort.{Comparator, compare_by, IsStrictOrder, IsOrdered}
use wai_ai.Common.Sort.Laws.{
  sort-perm, sort-stable, sort-IsOrdered, compare_by-IsConsistent, compare_by-ne_gt,
}
use wai_ai.Mcp.{Server, Health}
use wai_ai.Mcp.Servers.{
  ServerSort, ServerSortColumn, name, alias, url, scope, tools, is_active, health, is_asc, key_lt,
  sort_key, display_url, server_passes, filter_servers, sort_servers,
}

-- The search box is blank, or its text is in the name, the alias or the displayed URL.
abbrev pub FoundBy : (String → String) → (String → String) → String → String → Server → Type 0
FoundBy lower encode base query s =
    (truthy (needle lower query) ≡ false)
    ⊎ (contains lower (needle lower query) (some s.name) ≡ true)
    ⊎ (contains lower (needle lower query) (some s.alias) ≡ true)
    ⊎ (contains lower (needle lower query) (some (display_url lower encode base s)) ≡ true)

-- A server is shown exactly when it is in the list and found by the search.
pub filter_servers_iff :
    (lower encode : String → String) (base query : String) (servers : List Server) (s : Server)
    → Listed s (filter_servers lower encode base servers query)
      ↔ (Listed s servers × FoundBy lower encode base query s)
unfolding filter_servers server_passes
filter_servers_iff lower encode base query servers s =
    ground (arith, Listed-filter (server_passes lower encode base (needle lower query)) s servers)

key_lt-IsStrictOrder : (c : ServerSortColumn) → IsStrictOrder (key_lt c)
key_lt-IsStrictOrder name = text_lt-IsStrictOrder
key_lt-IsStrictOrder alias = text_lt-IsStrictOrder
key_lt-IsStrictOrder url = text_lt-IsStrictOrder
key_lt-IsStrictOrder scope = text_lt-IsStrictOrder
key_lt-IsStrictOrder tools = ltb_ℤ-IsStrictOrder
key_lt-IsStrictOrder is_active = ltb_ℤ-IsStrictOrder
key_lt-IsStrictOrder health = ltb_ℤ-IsStrictOrder

module _ (lower encode : String → String) (base : String) (health_of : String → Option Health)
    (servers : List Server) (s : ServerSort) where
  abbrev pub by_column : Comparator Server
  by_column =
      compare_by (key_lt s.column) (sort_key lower encode base health_of s.column)
        (is_asc s.direction)

  -- Sorting keeps the servers, puts them in the order of the column, in the chosen direction, and
  -- leaves those with equal keys in the order in which they came.
  pub sort_servers_lem :
      (p : Server → Bool)
      → ((a b : Server)
          → p a ≡ true
          → p b ≡ true
          → sort_key lower encode base health_of s.column a
            ≡ sort_key lower encode base health_of s.column b)
      → Perm (sort_servers lower encode base health_of servers (some s)) servers
        × IsOrdered by_column (sort_servers lower encode base health_of servers (some s))
        × (filter p (sort_servers lower encode base health_of servers (some s)) ≡ filter p servers)
  unfolding sort_servers
  sort_servers_lem p same = (
    sort-perm by_column servers,
    sort-IsOrdered by_column
        (compare_by-IsConsistent (key_lt s.column) (key_lt-IsStrictOrder s.column) _ _) servers,
    sort-stable by_column p
        (λ a b pa pb.
          compare_by-ne_gt (key_lt s.column) (key_lt-IsStrictOrder s.column)
            (sort_key lower encode base health_of s.column) (is_asc s.direction) a b
            (same a b pa pb))
        servers,
  )
