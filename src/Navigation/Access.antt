-- ===== src/Navigation/Access.antt =====
-- Which pages a role may open.
use wai_ai.Common.{
  inl, inr, refl, sym, String, ◌≡◌, ◌↔◌, ◌⊎◌, true, false, List, [], ◌∷◌, map, arith, Listed,
  Listed-append, length_pos_of_Listed, Listed-filter, AllDistinct, filter,
}
use wai_ai.Navigation.{
  collect, NavItem, NavGroup, has_min_role, visible_groups, visible_navigation, build_navigation,
  sub_pages, items_of, candidates, accessible_pages,
}
use wai_ai.Navigation.Pages.{Listed-collect, AllDistinct-collect, collect_complete}

-- The item stands in a group, and the role passes the tests of both.
abbrev pub Shown : String → NavItem → List NavGroup → Type 0
Shown role i [] = ⊥
Shown role i (g ∷ gs) =
    ((has_min_role role g.min_role ≡ true)
      × (has_min_role role i.min_role ≡ true)
      × Listed i g.items)
    ⊎ Shown role i gs

Shown-visible :
    (role : String) (i : NavItem) (groups : List NavGroup)
    → Listed i (items_of (visible_groups role groups)) ↔ Shown role i groups
unfolding visible_groups items_of
Shown-visible role i [] = ground arith
Shown-visible role i (g ∷ gs) = ground (
  arith,
  Shown-visible role i gs,
  length_pos_of_Listed i (filter (λ j. has_min_role role j.min_role) g.items),
  Listed-filter (λ j. has_min_role role j.min_role) i g.items,
  Listed-append i (filter (λ j. has_min_role role j.min_role) g.items)
      (items_of (visible_groups role gs)),
)

-- A role may open an item: a page of the sidebar, or a sub-page that its level reaches.
abbrev pub MayOpen : String → NavItem → Type 0
MayOpen role i =
    Shown role i (build_navigation role)
    ⊎ (Listed i sub_pages × (has_min_role role i.min_role ≡ true))

Listed-candidates : (role : String) (i : NavItem) → Listed i (candidates role) ↔ MayOpen role i
unfolding candidates
Listed-candidates role i = ground (
  arith,
  Shown-visible role i (build_navigation role),
  Listed-filter (λ p. has_min_role role p.min_role) i sub_pages,
  Listed-append i (items_of (visible_navigation role))
      (filter (λ p. has_min_role role p.min_role) sub_pages),
)

-- No two accessible pages have the same path.
pub accessible_pages-AllDistinct :
    (role : String) → AllDistinct (map (λ i. i.path) (accessible_pages role))
unfolding accessible_pages
accessible_pages-AllDistinct role = AllDistinct-collect [] (candidates role)

path-Listed :
    (p : String) (items : List NavItem)
    → Listed p (map (λ i. i.path) items)
    → (i : NavItem) × (i.path ≡ p) × Listed i items
path-Listed p [] h = elim h [ ]
path-Listed p (x ∷ xs) (inl e) = (x, sym e, inl refl)
path-Listed p (x ∷ xs) (inr h) = let (i, e, l) = path-Listed p xs h in (i, e, inr l)

-- A path is among the accessible pages exactly when some unlocked page that the role may open has it.
pub accessible_pages_iff :
    (role p : String)
    → Listed p (map (λ i. i.path) (accessible_pages role))
      ↔ ((i : NavItem) × (i.path ≡ p) × MayOpen role i × (i.locked ≡ false))
unfolding accessible_pages
accessible_pages_iff role p = (to, from)
  where
    to :
        Listed p (map (λ i. i.path) (collect [] (candidates role)))
        → (i : NavItem) × (i.path ≡ p) × MayOpen role i × (i.locked ≡ false)
    to h =
        let (i, e, l) = path-Listed p (collect [] (candidates role)) h in
        let (listed, unlocked, _) = Listed-collect i [] (candidates role) l in
        (i, e, (Listed-candidates role i).0 listed, unlocked)

    from :
        ((i : NavItem) × (i.path ≡ p) × MayOpen role i × (i.locked ≡ false))
        → Listed p (map (λ i. i.path) (collect [] (candidates role)))
    from (i, e, may, u) =
        ground (arith, collect_complete i [] (candidates role) ((Listed-candidates role i).1 may) u)
