-- ===== src/Pricing/Locked.antt =====
-- Prices that were set by hand change only on demand.
use wai_ai.Common.{
  ◌≡◌, ◌↔◌, ◌⊎◌, inl, inr, refl, sym, ap, subst, String, Bool, true, false, ◌&&◌, Option, none,
  some, List, [], ◌∷◌, map, filter, All, member, member_iff, Listed, arith, and_left, Option-cases,
  if◌then◌else◌,
}
use wai_ai.Common.Sets.{set_of, Listed-add, Listed-delete, Listed-add_all, Listed-delete_all}
use wai_ai.Pricing.{
  update, Row, Sheet, SheetEvent, toggle, toggle_all_visible, keep_synced, keep_synced_failed,
  applied, type_search, choose_filter, choose_lock, same_action, is_selectable, shown_rows,
  selected, visible_ids, selected_ids, handle_apply, on_event, on_events, opened,
}

-- No row of the preview would update the model anyway.
abbrev pub IsNotDue : String → List Row → Type 0
IsNotDue id preview = All (λ r. (r.model_id ≡ id) → same_action r.action update ≡ false) preview

-- An event that does not choose the model: it is not checked, nor are all rows.
abbrev pub LeavesOut : String → SheetEvent → Type 0
LeavesOut id (toggle other true) = (id ≡ other) → ⊥
LeavesOut id (toggle_all_visible true) = ⊥
LeavesOut id _ = Unit {0}

abbrev pub AllLeaveOut : String → List (List Row × SheetEvent) → Type 0
AllLeaveOut id es = All (λ e. IsNotDue id e.0 × LeavesOut id e.1) es

first_or_later :
    (b : Bool) (id : String) (r : Row) (rs : List Row)
    → Listed id (map (λ x. x.model_id) (if b then r ∷ rs else rs))
    → ((b ≡ true) × (id ≡ r.model_id)) ⊎ Listed id (map (λ x. x.model_id) rs)
first_or_later true id r rs (inl e) = inl (refl, e)
first_or_later true id r rs (inr h) = inr h
first_or_later false id r rs h = inr h

due_ids :
    (id : String) (preview : List Row)
    → IsNotDue id preview
    → Listed id (map (λ r. r.model_id) (filter (λ r. same_action r.action update) preview))
    → ⊥
due_ids id [] h at = at
due_ids id (r ∷ rs) (p, h) at = elim (first_or_later (same_action r.action update) id r _ at) [
  | inl q ↦ both (p (sym q.1)) q.0
  | inr later ↦ due_ids id rs h later
]
  where
    both : {b : Bool} → b ≡ false → b ≡ true → ⊥
    both x y = cc

-- The model is not among those that were chosen by hand.
abbrev IsOut : String → Sheet → Type 0
IsOut id s = (ids : List String) → s.selected_state ≡ some ids → Listed id ids → ⊥

Listed-set_of : (t : String) (xs : List String) → Listed t (set_of xs) ↔ Listed t xs
unfolding set_of
Listed-set_of t xs = ground (arith, Listed-add_all t xs [])

selected-out :
    (id : String) (preview : List Row) (s : Sheet)
    → IsNotDue id preview
    → IsOut id s
    → Listed id (selected preview s)
    → ⊥
unfolding selected
selected-out id preview s n out at = elim (Option-cases s.selected_state) [
  | inl e ↦ due_ids id preview n ((Listed-set_of id _).0 (subst (Listed id) (untouched e) at))
  | inr (ids, e) ↦ out ids e (subst (Listed id) (touched ids e) at)
]
  where
    untouched :
        s.selected_state ≡ none
        → selected preview s
          ≡ set_of (map (λ r. r.model_id) (filter (λ r. same_action r.action update) preview))
    untouched e = rw e refl

    touched : (ids : List String) → s.selected_state ≡ some ids → selected preview s ≡ ids
    touched ids e = rw e refl

selected_without :
    (id : String) (s : Sheet) (ids : List String)
    → (Listed id ids → ⊥)
    → IsOut id (record s { selected_state = some ids })
selected_without id s ids h other e at = h (subst (Listed id) (some_same e) at)
  where
    some_same : {x y : List String} → some x ≡ some y → y ≡ x
    some_same q = cc

on_event-IsOut :
    (lower : String → String) (id : String) (preview : List Row) (e : SheetEvent) (s : Sheet)
    → IsNotDue id preview
    → LeavesOut id e
    → IsOut id s
    → IsOut id (on_event lower preview e s)
unfolding on_event
on_event-IsOut lower id preview (toggle other true) s n l out = selected_without id s _ (λ h.
    elim ((Listed-add id other (selected preview s)).0 h) [
      | inl e ↦ l e
      | inr q ↦ selected-out id preview s n out q
    ])
on_event-IsOut lower id preview (toggle other false) s n l out =
    selected_without id s _
      (λ h. selected-out id preview s n out ((Listed-delete id other (selected preview s)).0 h).0)
on_event-IsOut lower id preview (toggle_all_visible true) s n l out = absurd l
on_event-IsOut lower id preview (toggle_all_visible false) s n l out = selected_without id s _ (λ h.
    selected-out id preview s n out
      ((Listed-delete_all id (visible_ids lower preview s) (selected preview s)).0 h).0)
on_event-IsOut lower id preview (keep_synced other on) s n l out = out
on_event-IsOut lower id preview (keep_synced_failed other) s n l out = out
on_event-IsOut lower id preview applied s n l out = selected_without id s [] (λ h. h)
on_event-IsOut lower id preview (type_search text) s n l out = out
on_event-IsOut lower id preview (choose_filter f) s n l out = out
on_event-IsOut lower id preview (choose_lock b) s n l out = out

on_events-IsOut :
    (lower : String → String) (id : String) (es : List (List Row × SheetEvent)) (s : Sheet)
    → AllLeaveOut id es
    → IsOut id s
    → IsOut id (on_events lower es s)
unfolding on_events
on_events-IsOut lower id [] s h out = out
on_events-IsOut lower id ((preview, e) ∷ es) s ((n, l), h) out =
    on_events-IsOut lower id es _ h (on_event-IsOut lower id preview e s n l out)

sent_selected :
    (id : String) (chosen_ids : List String) (rows : List Row)
    → Listed id
        (map (λ r. r.model_id) (filter (λ r. member r.model_id chosen_ids && is_selectable r) rows))
    → Listed id chosen_ids
sent_selected id xs [] at = absurd at
sent_selected id xs (r ∷ rs) at =
    elim (first_or_later (member r.model_id xs && is_selectable r) id r _ at) [
      | inl q ↦
          subst (λ z. Listed z xs) (sym q.1)
            ((member_iff r.model_id xs).0 (and_left _ (is_selectable r) q.0))
      | inr later ↦ sent_selected id xs rs later
    ]

sent_ids :
    (b : Bool) (xs ids : List String) (l lock : Bool)
    → ◌≡◌ {A = Option (List String × Bool)}
        (if◌then◌else◌ {A = Option (List String × Bool)} b none (some (xs, l)))
        (some (ids, lock))
    → xs ≡ ids
sent_ids true xs ids l lock h = cc
sent_ids false xs ids l lock h =
    ap (λ (o : Option (List String × Bool)). elim o [ none ↦ xs | some q ↦ q.0 ]) h

-- A model that no preview would update anyway, like one whose price is locked, is not among those whose
-- prices are applied, whatever is searched, filtered, unchecked, synced or applied before, as long as it
-- is not checked, alone or with all rows.
pub handle_apply-leaves_out :
    (lower : String → String) (id : String) (es : List (List Row × SheetEvent)) (preview : List Row)
    (ids : List String) (lock : Bool)
    → AllLeaveOut id es
    → IsNotDue id preview
    → handle_apply preview (on_events lower es opened) ≡ some (ids, lock)
    → Listed id ids
    → ⊥
unfolding handle_apply
handle_apply-leaves_out lower id es preview ids lock h n sent at =
    let s = on_events lower es opened in
    let same = sent_ids _ (selected_ids preview s) ids s.lock_to_synced lock sent in
    selected-out id preview s n (on_events-IsOut lower id es opened h (λ xs e. cc)) (
      sent_selected id (selected preview s) (shown_rows preview s)
        (unfold selected_ids in subst (Listed id) (sym same) at))
