-- ===== src/RecentPages.antt =====
-- ui/src/components/command/recentPages.ts: the recent pages of the command palette. The browser's
-- storage is the parsed value under the key: an array, whose items are texts or something else
-- (`none`), or no array at all.
pub mod Recent
mod Tests
use wai_ai.Common.{
  ℕ, String, Bool, true, false, not, Option, none, some, List, [], ◌∷◌, map, filter, take, ◌==◌,
}

-- `RECENT_PAGES_LIMIT`, one more than are shown
abbrev pub limit : ℕ
limit = 6

abbrev pub Storage : Type 0
Storage = Option (List (Option String))

-- `parsed.filter((p) => typeof p === 'string')`
unfoldable pub only_texts : List (Option String) → List String
only_texts [] = []
only_texts (none ∷ xs) = only_texts xs
only_texts (some s ∷ xs) = s ∷ only_texts xs

-- `readRecentPages`; a storage that raises is read as no array.
unfoldable pub read_recent_pages : Storage → List String
unfolding only_texts
read_recent_pages none = []
read_recent_pages (some items) = take limit (only_texts items)

-- `recordRecentPage`: what it returns, and stores where the storage lets it.
unfoldable pub record_recent_page : String → Storage → List String
unfolding read_recent_pages
record_recent_page path stored =
    take limit (path ∷ filter (λ p. not (p == path)) (read_recent_pages stored))

-- The storage after a visit, which a blocked storage leaves as it was.
unfoldable pub visit : Bool → String → Storage → Storage
unfolding record_recent_page
visit writable path stored = elim writable [
  | true ↦ some (map some (record_recent_page path stored))
  | false ↦ stored
]
