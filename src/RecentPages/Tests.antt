-- ===== src/RecentPages/Tests.antt =====
-- Three visits, one of which the storage refuses.
use wai_ai.Common.{
  ◌≤◌, String, ◌≡◌, refl, Bool, true, false, none, some, List, [], ◌∷◌, head?, length, AllDistinct,
}
use wai_ai.RecentPages.{record_recent_page}
use wai_ai.RecentPages.Recent.{visits, record_recent_page_lem}

abbrev seen : List (Bool × String)
seen = (true, "/keys") ∷ (false, "/usage") ∷ (true, "/models") ∷ []

recent : record_recent_page "/keys" (visits seen none) ≡ "/keys" ∷ "/models" ∷ []
unfolding record_recent_page visits wai_ai.RecentPages.visit
recent = refl

record_recent_page_lem_example :
    (head? (record_recent_page "/keys" (visits seen none)) ≡ some "/keys")
    × (length (record_recent_page "/keys" (visits seen none)) ≤ 6)
    × AllDistinct (record_recent_page "/keys" (visits seen none))
record_recent_page_lem_example = record_recent_page_lem seen "/keys"
