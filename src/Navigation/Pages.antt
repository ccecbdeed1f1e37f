-- ===== src/Navigation/Pages.antt =====
-- The loop that lists the pages of a role: it keeps the first item of each path.
use wai_ai.Common.{
  String, ◌≡◌, ◌⊎◌, inl, false, List, [], ◌∷◌, map, arith, refl, Listed, AllDistinct, member,
  member_iff,
}
use wai_ai.Navigation.{NavItem, collect}

-- Each listed item comes from the input, is unlocked, and its path was not seen.
pub Listed-collect :
    (i : NavItem) (seen : List String) (items : List NavItem)
    → Listed i (collect seen items)
    → Listed i items × (i.locked ≡ false) × (member i.path seen ≡ false)
unfolding collect
Listed-collect i seen [] h = elim h [ ]
Listed-collect i seen (x ∷ xs) h =
    ground (arith, Listed-collect i seen xs, Listed-collect i (x.path ∷ seen) xs)

-- No path that was seen is listed again.
collect-unseen :
    (p : String) (seen : List String) (items : List NavItem)
    → Listed p seen
    → Listed p (map (λ i. i.path) (collect seen items))
    → ⊥
unfolding collect
collect-unseen p seen [] h k = k
collect-unseen p seen (x ∷ xs) h k =
    ground (arith, member_iff p seen, collect-unseen p seen xs, collect-unseen p (x.path ∷ seen) xs)

pub AllDistinct-collect :
    (seen : List String) (items : List NavItem)
    → AllDistinct (map (λ i. i.path) (collect seen items))
unfolding collect
AllDistinct-collect seen [] = tt
AllDistinct-collect seen (x ∷ xs) = ground (
  arith,
  AllDistinct-collect seen xs,
  AllDistinct-collect (x.path ∷ seen) xs,
  collect-unseen x.path (x.path ∷ seen) xs (inl refl),
)

-- The path of an unlocked item is listed, unless it was seen before.
pub collect_complete :
    (i : NavItem) (seen : List String) (items : List NavItem)
    → Listed i items
    → i.locked ≡ false
    → Listed i.path (map (λ j. j.path) (collect seen items)) ⊎ Listed i.path seen
unfolding collect
collect_complete i seen [] h u = elim h [ ]
collect_complete i seen (x ∷ xs) h u = ground (
  arith,
  member_iff x.path seen,
  collect_complete i seen xs,
  collect_complete i (x.path ∷ seen) xs,
)
