-- ===== src/Checklist.antt =====
-- ui/src/pages/mcp/ServerAccessChecklist.tsx: the checklist of the MCP servers that an organization or a
-- team may use. `toLowerCase` is the argument `lower`; what `onSave` comes to is an event.
pub mod Dirty
mod Tests
use wai_ai.Common.{
  ℕ, String, Bool, true, false, not, ◌&&◌, ◌||◌, Option, none, some, List, [], ◌∷◌, map, filter,
  any, length, eqb, member, or_default, if◌then◌else◌,
}
use wai_ai.Common.Sets.{add, delete, add_all, delete_all, set_of}
use wai_ai.Common.Text.{truthy, trim, includes}

-- The part of `AvailableMCPServer` that the list reads.
pub record Server : Type 0 where
  pub id : String
  pub name : String
  pub alias : Option String

pub record Checklist : Type 0 where
  pub pending : Option (List String)
  pub query : String

-- `selected`, where `saved` is the saved list
unfoldable pub selected : List String → Checklist → List String
unfolding set_of
selected saved s = or_default s.pending (set_of saved)

-- `isDirty`
unfoldable pub is_dirty : List String → Checklist → Bool
unfolding set_of
is_dirty saved s = elim s.pending [
  | none ↦ false
  | some ids ↦
      not (eqb (length ids) (length (set_of saved)))
      || any (λ id. not (member id (set_of saved))) ids
]

-- `visible`
unfoldable pub visible : (String → String) → List Server → Checklist → List Server
visible lower servers s =
    let q = lower (trim s.query) in
    if truthy q
    then filter (λ v. includes (lower v.name) q || includes (lower (or_default v.alias "")) q)
        servers
    else servers

-- `selectedCount`
unfoldable pub selected_count : List Server → List String → Checklist → ℕ
unfolding selected
selected_count servers saved s = length (filter (λ v. member v.id (selected saved s)) servers)

pub data ChecklistEvent : Type 0 where
  toggle : String → ChecklistEvent
  select_all select_none reset saved_ok saved_failed : ChecklistEvent
  type_query : String → ChecklistEvent

-- `next.has(id) ? next.delete(id) : next.add(id)`
unfoldable pub toggled : String → List String → List String
unfolding add delete
toggled id ids = if member id ids then delete id ids else add id ids

-- The props of a render: the servers, and the saved list.
pub record Props : Type 0 where
  pub servers : List Server
  pub saved : List String

unfoldable pub on_event : (String → String) → Props → ChecklistEvent → Checklist → Checklist
unfolding selected visible toggled add_all delete_all
on_event lower p (toggle id) s = record s { pending = some (toggled id (selected p.saved s)) }
on_event lower p select_all s = record s {
  pending = some (add_all (map (λ v. v.id) (visible lower p.servers s)) (selected p.saved s));
}
on_event lower p select_none s = record s {
  pending = some (delete_all (map (λ v. v.id) (visible lower p.servers s)) (selected p.saved s));
}
on_event lower p reset s = record s { pending = none }
on_event lower p saved_ok s = record s { pending = none }
on_event lower p saved_failed s = s
on_event lower p (type_query q) s = record s { query = q }

-- `handleSave`: the list that is sent, if one is.
unfoldable pub handle_save : Checklist → Option (List String)
handle_save s = s.pending

unfoldable pub on_events : (String → String) → List (Props × ChecklistEvent) → Checklist → Checklist
unfolding on_event
on_events lower [] s = s
on_events lower ((p, e) ∷ es) s = on_events lower es (on_event lower p e s)
