-- ===== src/RecentPages/Recent.antt =====
-- The recent pages after any visits.
use wai_ai.Common.{
  ℕ, zero, suc, ◌≤◌, String, ◌≡◌, refl, sym, ap, subst, Bool, true, false, not, none, some, List,
  [], ◌∷◌, map, filter, take, head?, length, arith, Listed, Listed-filter, AllDistinct, length-take,
  eq_iff, ◌==◌,
}
use wai_ai.Common.Sets.{filter-AllDistinct}
use wai_ai.RecentPages.{Storage, limit, only_texts, read_recent_pages, record_recent_page, visit}

only_texts-map : (xs : List String) → only_texts (map some xs) ≡ xs
unfolding only_texts
only_texts-map [] = refl
only_texts-map (x ∷ xs) = ap (◌∷◌ x) (only_texts-map xs)

read_stored : (xs : List String) → read_recent_pages (some (map some xs)) ≡ take limit xs
unfolding read_recent_pages
read_stored xs = ap (take limit) (only_texts-map xs)

Listed-take : (x : String) (n : ℕ) (xs : List String) → Listed x (take n xs) → Listed x xs
Listed-take x zero xs h = absurd h
Listed-take x (suc n) [] h = absurd h
Listed-take x (suc n) (y ∷ ys) h = ground (arith, Listed-take x n ys)

AllDistinct-take : (n : ℕ) (xs : List String) → AllDistinct xs → AllDistinct (take n xs)
AllDistinct-take zero xs d = tt
AllDistinct-take (suc n) [] d = tt
AllDistinct-take (suc n) (x ∷ xs) (fresh, d) =
    ((λ h. fresh (Listed-take x n xs h)), AllDistinct-take n xs d)

not-Listed : (path : String) (xs : List String) → Listed path (filter (λ p. not (p == path)) xs) → ⊥
not-Listed path xs h =
    ground (arith, h, Listed-filter (λ p. not (p == path)) path xs, eq_iff path path)

record_recent_page-AllDistinct :
    (path : String) (s : Storage)
    → AllDistinct (read_recent_pages s)
    → AllDistinct (record_recent_page path s)
unfolding record_recent_page
record_recent_page-AllDistinct path s d =
    let others = filter (λ p. not (p == path)) (read_recent_pages s) in
    AllDistinct-take limit (path ∷ others) (
      not-Listed path (read_recent_pages s),
      filter-AllDistinct (λ p. not (p == path)) (read_recent_pages s) d,
    )

visit-AllDistinct :
    (writable : Bool) (path : String) (s : Storage)
    → AllDistinct (read_recent_pages s)
    → AllDistinct (read_recent_pages (visit writable path s))
unfolding visit
visit-AllDistinct false path s d = d
visit-AllDistinct true path s d =
    subst AllDistinct (sym (read_stored (record_recent_page path s)))
      (AllDistinct-take limit (record_recent_page path s) (record_recent_page-AllDistinct path s d))

unfoldable pub visits : List (Bool × String) → Storage → Storage
visits [] s = s
visits ((writable, path) ∷ more) s = visits more (visit writable path s)

visits_keep :
    (vs : List (Bool × String)) (s : Storage)
    → AllDistinct (read_recent_pages s)
    → AllDistinct (read_recent_pages (visits vs s))
unfolding visits
visits_keep [] s d = d
visits_keep ((writable, path) ∷ more) s d =
    visits_keep more (visit writable path s) (visit-AllDistinct writable path s d)

length-record_recent_page : (path : String) (s : Storage) → length (record_recent_page path s) ≤ 6
unfolding record_recent_page
length-record_recent_page path s =
    omega (arith, length-take limit (path ∷ filter (λ p. not (p == path)) (read_recent_pages s)))

-- After any visits from an empty storage, whether or not each could be stored, recording a page
-- puts it first, keeps at most six pages, and lists no page twice.
pub record_recent_page_lem :
    (vs : List (Bool × String)) (path : String)
    → (head? (record_recent_page path (visits vs none)) ≡ some path)
      × (length (record_recent_page path (visits vs none)) ≤ 6)
      × AllDistinct (record_recent_page path (visits vs none))
record_recent_page_lem vs path = (
  unfold record_recent_page in refl,
  length-record_recent_page path (visits vs none),
  record_recent_page-AllDistinct path (visits vs none)
      (visits_keep vs none (unfold read_recent_pages in tt)),
)
