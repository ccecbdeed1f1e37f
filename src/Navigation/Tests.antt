-- ===== src/Navigation/Tests.antt =====
-- The theorems on navigation at concrete roles and paths.
use wai_ai.Common.{
  ◌≡◌, refl, ◌↔◌, String, List, member_iff, true, false, none, [], ◌∷◌, map, Listed,
}
use wai_ai.Navigation.{
  NavItem, accessible_pages, level, has_min_role, build_navigation, is_item_active,
}
use wai_ai.Navigation.Access.{MayOpen, accessible_pages_iff}

accessible_pages_iff_example :
    Listed "/alerts" (map (λ i. i.path) (accessible_pages "org_admin"))
    ↔ ((i : NavItem) × (i.path ≡ "/alerts") × MayOpen "org_admin" i × (i.locked ≡ false))
accessible_pages_iff_example = accessible_pages_iff "org_admin" "/alerts"

abbrev paths : String → List String
paths role = map (λ i. i.path) (accessible_pages role)

profile-Listed : Listed "/profile" (paths "member")
unfolding accessible_pages has_min_role build_navigation level
profile-Listed = (member_iff "/profile" (paths "member")).0 refl

abbrev keys_item : NavItem
keys_item = record {
  label = "API access";
  path = "/keys";
  locked = false;
  min_role = none;
  ends = none;
  match_prefixes = "/keys" ∷ "/service-accounts" ∷ [];
  keywords = [];
}

keys_active :
    (is_item_active keys_item "/keys/new" ≡ true) × (is_item_active keys_item "/keyset" ≡ false)
unfolding is_item_active
keys_active = (refl, refl)
