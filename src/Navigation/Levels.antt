-- ===== src/Navigation/Levels.antt =====
-- Pages along the levels of roles, and what a role outside the table sees.
use wai_ai.Common.{
  ◌≤◌, String, ◌≡◌, ◌≢◌, inl, inr, Bool, true, false, Option, none, some, List, [], ◌∷◌, map, arith,
  eq_iff, Listed, ◌==◌, refl, ap, sym, ◌∙◌, member_iff,
}
use wai_ai.Navigation.{
  role_level, NavItem, NavGroup, level, has_min_role, build_navigation, navigation_tree,
  accessible_pages, page,
}
use wai_ai.Navigation.Access.{Shown, MayOpen, accessible_pages_iff}

has_min_role_mono :
    (u v : String) (r : Option String)
    → level u ≤ level v
    → has_min_role u r ≡ true
    → has_min_role v r ≡ true
unfolding has_min_role
has_min_role_mono u v none h k = refl
has_min_role_mono u v (some r) h k = ground arith

Shown-mono :
    (u v : String) (i : NavItem) (groups : List NavGroup)
    → level u ≤ level v
    → Shown u i groups
    → Shown v i groups
Shown-mono u v i [] h k = k
Shown-mono u v i (g ∷ gs) h k =
    ground (
      arith,
      Shown-mono u v i gs,
      has_min_role_mono u v g.min_role,
      has_min_role_mono u v i.min_role,
    )

-- A page with the same path in the sidebar of the others.
Home-moves :
    (v : String) (i : NavItem)
    → Shown v i (navigation_tree true)
    → (j : NavItem) × (j.path ≡ i.path) × (j.locked ≡ i.locked) × Shown v j (navigation_tree false)
unfolding navigation_tree has_min_role
Home-moves v i (inl (a, b, inl e)) = (
  page "Playground" "/playground" ("chat" ∷ "try" ∷ []),
  ap (λ k. k.path) (sym e),
  ap (λ k. k.locked) (sym e),
  inl (refl, refl, inr (inl refl)),
)
Home-moves v i (inl (a, b, inr h)) = (i, refl, refl, inl (a, b, inr (inr h)))
Home-moves v i (inr h) = (i, refl, refl, inr h)

Shown-moves :
    (m n : Bool) (v : String) (i : NavItem)
    → (n ≡ false)
    → Shown v i (navigation_tree m)
    → (j : NavItem) × (j.path ≡ i.path) × (j.locked ≡ i.locked) × Shown v j (navigation_tree n)
Shown-moves true n v i e h = rw e (Home-moves v i h)
Shown-moves false n v i e h = rw e (i, refl, refl, h)

MayOpen-mono :
    (u v : String) (i : NavItem)
    → level u ≤ level v
    → v ≢ "member"
    → MayOpen u i
    → (j : NavItem) × (j.path ≡ i.path) × (j.locked ≡ i.locked) × MayOpen v j
unfolding build_navigation
MayOpen-mono u v i h ne (inl shown) =
    let (j, p, l, s) =
      Shown-moves (u == "member") (v == "member") v i (ground (arith, eq_iff v "member"))
        (Shown-mono u v i (navigation_tree (u == "member")) h shown) in
    (j, p, l, inl s)
MayOpen-mono u v i h ne (inr (listed, passes)) =
    (i, refl, refl, inr (listed, has_min_role_mono u v i.min_role h passes))

-- A role of at least another's level may open every page of the other, as long as it is not the
-- role "member", whose sidebar has no dashboard.
pub accessible_pages_mono :
    (u v : String) (p : String)
    → level u ≤ level v
    → v ≢ "member"
    → Listed p (map (λ i. i.path) (accessible_pages u))
    → Listed p (map (λ i. i.path) (accessible_pages v))
accessible_pages_mono u v p h ne listed =
    let (i, e, may, unlocked) = (accessible_pages_iff u p).0 listed in
    let (j, same, lock, may') = MayOpen-mono u v i h ne may in
    (accessible_pages_iff v p).1 (j, same ∙ e, may', lock ∙ unlocked)

abbrev dashboard_item : NavItem
dashboard_item = page "Dashboard" "/" ("home" ∷ "overview" ∷ [])

not_member : (role : String) → role_level role ≡ none → (role == "member") ≡ false
unfolding role_level
not_member role h = ground arith

dashboard-Shown :
    (role : String) → (role == "member") ≡ false → Shown role dashboard_item (build_navigation role)
unfolding build_navigation has_min_role
dashboard-Shown role e = rw e (inl (refl, refl, inl refl))

abbrev member_paths : List String
member_paths =
    "/playground" ∷ "/integrations" ∷ "/keys" ∷ "/models" ∷ "/mcp" ∷ "/usage" ∷ "/org"
    ∷ "/usage/llm" ∷ "/usage/mcp" ∷ "/usage/auto" ∷ "/usage/cost" ∷ "/usage/logs" ∷ "/org/settings"
    ∷ "/profile" ∷ []

paths-member : map (λ i. i.path) (accessible_pages "member") ≡ member_paths
unfolding accessible_pages has_min_role build_navigation level
paths-member = refl

no_root : ¬ Listed "/" member_paths
no_root h = cc ((member_iff "/" member_paths).1 h)

-- A role string outside the table has the level of "member", and yet it is given the dashboard,
-- which "member" is not.
pub unknown_role_sees_dashboard :
    (role : String)
    → role_level role ≡ none
    → (level role ≡ level "member")
      × Listed "/" (map (λ i. i.path) (accessible_pages role))
      × ¬ Listed "/" (map (λ i. i.path) (accessible_pages "member"))
unfolding level
unknown_role_sees_dashboard role h = (
  ground arith,
  (accessible_pages_iff role "/").1
      (dashboard_item, refl, inl (dashboard-Shown role (not_member role h)), refl),
  rw paths-member no_root,
)
