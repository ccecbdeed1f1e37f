-- ===== src/Navigation/Active.antt =====
-- When an item of the sidebar is marked as the current page.
use wai_ai.Common.{
  String, ◌≡◌, ◌↔◌, ◌⊎◌, inl, inr, true, false, List, [], ◌∷◌, arith, eq_iff, any, or_default, ◌==◌,
  Bool-cases, ◌∙◌, sym,
}
use wai_ai.Common.Text.{append}
use wai_ai.Common.Text.Prefix.{append_assoc, starts_with_iff}
use wai_ai.Navigation.{NavItem, at_or_below, is_item_active}

-- `pathname` is `p` itself, or continues it after a slash.
abbrev pub IsBelow : String → String → Type 0
IsBelow pathname p = (pathname ≡ p) ⊎ ((r : String) × (pathname ≡ append p (append "/" r)))

abbrev pub BelowSome : String → List String → Type 0
BelowSome pathname [] = ⊥
BelowSome pathname (p ∷ ps) = IsBelow pathname p ⊎ BelowSome pathname ps

at_or_below_iff : (pathname p : String) → (at_or_below pathname p ≡ true) ↔ IsBelow pathname p
unfolding at_or_below
at_or_below_iff pathname p = (to, from)
  where
    to : at_or_below pathname p ≡ true → IsBelow pathname p
    to h = elim (Bool-cases (pathname == p)) [
      | inl same ↦ inl ((eq_iff pathname p).0 same)
      | inr other ↦
          let w = (starts_with_iff pathname (append p "/")).0 (ground arith) in
          inr (w.0, w.1 ∙ append_assoc p "/" w.0)
    ]

    from : IsBelow pathname p → at_or_below pathname p ≡ true
    from (inl e) = ground (arith, eq_iff pathname p)
    from (inr (r, e)) =
        ground
          (arith, (starts_with_iff pathname (append p "/")).1 (r, e ∙ sym (append_assoc p "/" r)))

any-at_or_below :
    (pathname : String) (ps : List String)
    → (any (at_or_below pathname) ps ≡ true) ↔ BelowSome pathname ps
any-at_or_below pathname [] = ground arith
any-at_or_below pathname (p ∷ ps) =
    ground (arith, at_or_below_iff pathname p, any-at_or_below pathname ps)

-- An item is active exactly when the path is one of its prefixes or below one; or equals the
-- item's path; or, for an item that is not matched to its end, lies below the item's path. "/" is
-- matched to its end where the item does not say.
pub is_item_active_iff :
    (item : NavItem) (pathname : String)
    → (is_item_active item pathname ≡ true) ↔ (
        BelowSome pathname item.match_prefixes
        ⊎ (pathname ≡ item.path)
        ⊎ ((or_default item.ends (item.path == "/") ≡ false) × IsBelow pathname item.path))
unfolding is_item_active
is_item_active_iff item pathname = ground (
  arith,
  any-at_or_below pathname item.match_prefixes,
  eq_iff pathname item.path,
  at_or_below_iff pathname item.path,
)
