-- ===== src/Checklist/Dirty.antt =====
-- When the checklist differs from what is saved.
use wai_ai.Common.{
  ◌≡◌, ◌↔◌, inl, inr, refl, sym, subst, String, Bool, true, false, not, ◌||◌, none, some, List, [],
  ◌∷◌, map, any, length, eqb, eqb_iff, member, member_iff, Listed, AllDistinct, arith, Option-cases,
  either_way,
}
use wai_ai.Common.Sets.{
  set_of, add-AllDistinct, delete-AllDistinct, add_all-AllDistinct, delete_all-AllDistinct,
  same_items, length_le_of_items, Listed-add_all,
}
use wai_ai.Checklist.{
  visible, Checklist, ChecklistEvent, toggle, select_all, select_none, reset, saved_ok,
  saved_failed, type_query, Props, selected, is_dirty, toggled, on_event, on_events,
}

-- No id is chosen twice.
abbrev HasNoDoubles : Checklist → Type 0
HasNoDoubles s = (ids : List String) → s.pending ≡ some ids → AllDistinct ids

set_of-AllDistinct : (xs : List String) → AllDistinct (set_of xs)
unfolding set_of
set_of-AllDistinct xs = add_all-AllDistinct xs [] tt

Listed-set_of : (t : String) (xs : List String) → Listed t (set_of xs) ↔ Listed t xs
unfolding set_of
Listed-set_of t xs = ground (arith, Listed-add_all t xs [])

selected-AllDistinct :
    (saved : List String) (s : Checklist) → HasNoDoubles s → AllDistinct (selected saved s)
unfolding selected
selected-AllDistinct saved s h = elim (Option-cases s.pending) [
  | inl e ↦ rw e (set_of-AllDistinct saved)
  | inr (ids, e) ↦ rw e (h ids e)
]

toggled-AllDistinct :
    (id : String) (ids : List String) → AllDistinct ids → AllDistinct (toggled id ids)
unfolding toggled
toggled-AllDistinct id ids d =
    either_way AllDistinct (member id ids) _ _ (delete-AllDistinct id ids d)
      (add-AllDistinct id ids d)

-- A set of ids, once it is the pending one.
pending_set :
    (s : Checklist) (ids : List String)
    → AllDistinct ids
    → HasNoDoubles (record s { pending = some ids })
pending_set s ids d other e = subst AllDistinct (some_same e) d
  where
    some_same : {x y : List String} → some x ≡ some y → x ≡ y
    some_same q = cc

on_event-HasNoDoubles :
    (lower : String → String) (p : Props) (e : ChecklistEvent) (s : Checklist)
    → HasNoDoubles s
    → HasNoDoubles (on_event lower p e s)
unfolding on_event
on_event-HasNoDoubles lower p (toggle id) s h =
    pending_set s _ (toggled-AllDistinct id _ (selected-AllDistinct p.saved s h))
on_event-HasNoDoubles lower p select_all s h = pending_set s _ (
    add_all-AllDistinct (map (λ v. v.id) (visible lower p.servers s)) _
      (selected-AllDistinct p.saved s h))
on_event-HasNoDoubles lower p select_none s h = pending_set s _ (
    delete_all-AllDistinct (map (λ v. v.id) (visible lower p.servers s)) _
      (selected-AllDistinct p.saved s h))
on_event-HasNoDoubles lower p reset s h = (λ ids e. cc)
on_event-HasNoDoubles lower p saved_ok s h = (λ ids e. cc)
on_event-HasNoDoubles lower p saved_failed s h = h
on_event-HasNoDoubles lower p (type_query q) s h = h

on_events-HasNoDoubles :
    (lower : String → String) (es : List (Props × ChecklistEvent)) (s : Checklist)
    → HasNoDoubles s
    → HasNoDoubles (on_events lower es s)
unfolding on_events
on_events-HasNoDoubles lower [] s h = h
on_events-HasNoDoubles lower ((p, e) ∷ es) s h =
    on_events-HasNoDoubles lower es _ (on_event-HasNoDoubles lower p e s h)

or_right : (a b : Bool) → (a || b) ≡ false → b ≡ false
or_right a b q = ground arith

none_outside :
    (ids ys : List String)
    → any (λ id. not (member id ys)) ids ≡ false
    → (t : String) → Listed t ids
    → Listed t ys
none_outside [] ys h t at = absurd at
none_outside (x ∷ xs) ys h t (inl e) =
    subst (λ z. Listed z ys) (sym e) ((member_iff x ys).0 (kept _ _ h))
  where
    kept : (a b : Bool) → (not a || b) ≡ false → a ≡ true
    kept a b q = ground arith
none_outside (x ∷ xs) ys h t (inr at) = none_outside xs ys (or_right _ _ h) t at

all_inside :
    (ids ys : List String)
    → ((t : String) → Listed t ids → Listed t ys)
    → any (λ id. not (member id ys)) ids ≡ false
all_inside [] ys h = refl
all_inside (x ∷ xs) ys h =
    ground (arith, all_inside xs ys (λ t at. h t (inr at)), (member_iff x ys).1 (h x (inl refl)))

abbrev pub opened : Checklist
opened = record { pending = none; query = "" }

dirty_of_pending :
    (ids saved : List String)
    → AllDistinct ids
    → ((not (eqb (length ids) (length (set_of saved)))
          || any (λ id. not (member id (set_of saved))) ids)
        ≡ false)
      ↔ ((t : String) → Listed t ids ↔ Listed t (set_of saved))
dirty_of_pending ids saved d = (
  (λ h.
      let inside : (t : String) → Listed t ids → Listed t (set_of saved) =
        none_outside ids (set_of saved) (or_right _ _ h) in
      λ t. (
        inside t,
        same_items ids (set_of saved) d (set_of-AllDistinct saved) inside
            (omega (arith, same_size h)) t,
      )),
  (λ h.
      let inside = all_inside ids (set_of saved) (λ t. (h t).0) in
      let le = length_le_of_items ids (set_of saved) d (set_of-AllDistinct saved) (λ t. (h t).0) in
      let ge = length_le_of_items (set_of saved) ids (set_of-AllDistinct saved) d (λ t. (h t).1) in
      let same : length ids ≡ length (set_of saved) = omega (arith, le, ge) in
      rw (inside, (eqb_iff (length ids) (length (set_of saved))).1 same) refl),
)
  where
    or_right : (a b : Bool) → (a || b) ≡ false → b ≡ false
    or_right a b q = ground arith

    same_size :
        (not (eqb (length ids) (length (set_of saved)))
            || any (λ id. not (member id (set_of saved))) ids)
          ≡ false
        → length ids ≡ length (set_of saved)
    same_size q = ground arith

dirty_at :
    (saved : List String) (s : Checklist)
    → HasNoDoubles s
    → (is_dirty saved s ≡ false) ↔ ((id : String) → Listed id (selected saved s) ↔ Listed id saved)
unfolding is_dirty selected
dirty_at saved s d = elim (Option-cases s.pending) [
  | inl e ↦ rw e ((λ h id. Listed-set_of id saved), (λ h. refl))
  | inr (ids, e) ↦
      let (there, back) = dirty_of_pending ids saved (d ids e) in
      rw e ((λ h id. through id (there h id)), (λ h. back (λ id. backwards id (h id))))
]
  where
    through : {P : Type 0} (id : String) → (P ↔ Listed id (set_of saved)) → P ↔ Listed id saved
    through id q =
        ((λ x. (Listed-set_of id saved).0 (q.0 x)), (λ x. q.1 ((Listed-set_of id saved).1 x)))

    backwards : {P : Type 0} (id : String) → (P ↔ Listed id saved) → P ↔ Listed id (set_of saved)
    backwards id q =
        ((λ x. (Listed-set_of id saved).1 (q.0 x)), (λ x. q.1 ((Listed-set_of id saved).0 x)))

-- After any changes, searches, resets and saves, the list is marked as changed exactly if the servers
-- that are chosen are not those that are saved.
pub is_dirty_iff :
    (lower : String → String) (es : List (Props × ChecklistEvent)) (saved : List String)
    → (is_dirty saved (on_events lower es opened) ≡ false)
      ↔ ((id : String) → Listed id (selected saved (on_events lower es opened)) ↔ Listed id saved)
is_dirty_iff lower es saved =
    dirty_at saved (on_events lower es opened)
      (on_events-HasNoDoubles lower es opened (λ ids e. cc))
