-- ===== src/Pricing.antt =====
-- ui/src/pages/models/PricingSyncSheet.tsx: the rows that are chosen for a price update, with the tests of
-- pricingFormat.ts and the types of ui/src/hooks/usePricingSync.ts. `toLowerCase` is the argument `lower`;
-- the preview and what the API answers come with the events. Prices and their formats are not modelled.
pub mod Locked
mod Tests
use wai_ai.Common.{
  String, Bool, true, false, not, ◌&&◌, ◌||◌, Option, none, some, List, [], ◌∷◌, map, filter, all,
  length, eqb, leb, member, or_default, if◌then◌else◌, ◌==◌,
}
use wai_ai.Common.Sets.{add, delete, add_all, delete_all, set_of}
use wai_ai.Common.Text.{truthy, trim, includes}

-- `PricingAction`
pub data PricingAction : Type 0 where
  update unchanged no_match manual_locked : PricingAction

-- `PricingSource`
pub data PricingSource : Type 0 where
  manual synced : PricingSource

-- The part of `PricingPreviewRow` that the sheet's list reads.
pub record Row : Type 0 where
  pub model_id : String
  pub name : String
  pub provider : String
  pub match_key : String
  pub pricing_key : String
  pub pricing_source : PricingSource
  pub action : PricingAction

-- The states of the sheet; `filter_action` is none for "all".
pub record Sheet : Type 0 where
  pub search : String
  pub filter_action : Option PricingAction
  pub selected_state : Option (List String)
  pub lock_to_synced : Bool
  pub sync_overrides : List (String × Bool)

abbrev pub same_action : PricingAction → PricingAction → Bool
same_action update update = true
same_action unchanged unchanged = true
same_action no_match no_match = true
same_action manual_locked manual_locked = true
same_action _ _ = false

-- `isSelectable`
unfoldable pub is_selectable : Row → Bool
is_selectable r = same_action r.action update || same_action r.action manual_locked

-- `rowMatchesSearch`
unfoldable pub row_matches_search : (String → String) → Row → String → Bool
row_matches_search lower r search =
    let q = lower (trim search) in
    if truthy q
    then includes (lower r.name) q
      || includes (lower r.provider) q
      || includes (lower r.match_key) q
      || includes (lower r.pricing_key) q
    else true

-- `syncOverrides[id]`
unfoldable pub override_of : String → List (String × Bool) → Option Bool
override_of id [] = none
override_of id ((k, b) ∷ rest) = if k == id then some b else override_of id rest

-- `rows`
unfoldable pub shown_rows : List Row → Sheet → List Row
unfolding override_of
shown_rows preview s =
    map
      (λ r. elim (override_of r.model_id s.sync_overrides) [
        | none ↦ r
        | some b ↦ record r { pricing_source = if b then synced else manual }
      ])
      preview

-- `selected`: untouched, it is the rows that the sync would update anyway.
unfoldable pub selected : List Row → Sheet → List String
unfolding set_of
selected preview s = elim s.selected_state [
  | some ids ↦ ids
  | none ↦ set_of (map (λ r. r.model_id) (filter (λ r. same_action r.action update) preview))
]

-- `visible`
unfoldable pub visible : (String → String) → List Row → Sheet → List Row
unfolding shown_rows row_matches_search
visible lower preview s =
    filter
      (λ r.
        (elim s.filter_action [ none ↦ true | some a ↦ same_action r.action a ])
        && row_matches_search lower r s.search)
      (shown_rows preview s)

-- The ids of `visibleSelectable`
unfoldable pub visible_ids : (String → String) → List Row → Sheet → List String
unfolding visible is_selectable
visible_ids lower preview s = map (λ r. r.model_id) (filter is_selectable (visible lower preview s))

-- `allVisibleChecked`
unfoldable pub all_visible_checked : (String → String) → List Row → Sheet → Bool
unfolding visible_ids selected
all_visible_checked lower preview s =
    let ids = visible_ids lower preview s in
    leb 1 (length ids) && all (λ id. member id (selected preview s)) ids

-- `selectedIds`
unfoldable pub selected_ids : List Row → Sheet → List String
unfolding shown_rows selected is_selectable
selected_ids preview s =
    map (λ r. r.model_id)
      (filter (λ r. member r.model_id (selected preview s) && is_selectable r)
        (shown_rows preview s))

-- What `handleApply` sends, if it sends anything: the ids, and whether they are to stay synced.
unfoldable pub handle_apply : List Row → Sheet → Option (List String × Bool)
unfolding selected_ids
handle_apply preview s =
    let ids = selected_ids preview s in
    if eqb (length ids) 0 then none else some (ids, s.lock_to_synced)

pub data SheetEvent : Type 0 where
  toggle : String → Bool → SheetEvent
  toggle_all_visible : Bool → SheetEvent
  keep_synced : String → Bool → SheetEvent
  keep_synced_failed : String → SheetEvent
  applied : SheetEvent
  type_search : String → SheetEvent
  choose_filter : Option PricingAction → SheetEvent
  choose_lock : Bool → SheetEvent

-- `delete next[id]`
unfoldable pub without_override : String → List (String × Bool) → List (String × Bool)
without_override id overrides = filter (λ o. not (o.0 == id)) overrides

unfoldable pub on_event : (String → String) → List Row → SheetEvent → Sheet → Sheet
unfolding selected visible_ids add delete add_all delete_all without_override
on_event lower preview (toggle id on) s = record s {
  selected_state =
      some (if on then add id (selected preview s) else delete id (selected preview s));
}
on_event lower preview (toggle_all_visible on) s = record s {
  selected_state = some (
      if on
      then add_all (visible_ids lower preview s) (selected preview s)
      else delete_all (visible_ids lower preview s) (selected preview s));
}
on_event lower preview (keep_synced id on) s = record s {
  sync_overrides = (id, on) ∷ without_override id s.sync_overrides;
}
on_event lower preview (keep_synced_failed id) s = record s {
  sync_overrides = without_override id s.sync_overrides;
}
on_event lower preview applied s = record s { selected_state = some []; sync_overrides = [] }
on_event lower preview (type_search text) s = record s { search = text }
on_event lower preview (choose_filter f) s = record s { filter_action = f }
on_event lower preview (choose_lock b) s = record s { lock_to_synced = b }

-- The first render.
abbrev pub opened : Sheet
opened = record {
  search = "";
  filter_action = none;
  selected_state = none;
  lock_to_synced = false;
  sync_overrides = [];
}

-- Events, each with the preview at that time.
unfoldable pub on_events : (String → String) → List (List Row × SheetEvent) → Sheet → Sheet
unfolding on_event
on_events lower [] s = s
on_events lower ((preview, e) ∷ es) s = on_events lower es (on_event lower preview e s)
