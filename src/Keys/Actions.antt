-- ===== src/Keys/Actions.antt =====
-- Which actions the page offers on a key.
use wai_ai.Common.{
  String, ◌≡◌, ◌≢◌, ◌↔◌, ◌⊎◌, Bool, true, Option, none, some, arith, eq_iff, Option-cases, inl, inr,
}
use wai_ai.Common.Text.{truthy}
use wai_ai.Keys.{ApiKey, is_own, key_actions}

-- The key belongs to the signed-in user, who is known and has a non-empty id.
abbrev pub IsOwn : ApiKey → Option String → Type 0
IsOwn key me_id = (u : String) × (key.user_id ≡ some u) × (me_id ≡ some u) × (truthy u ≡ true)

is_own_iff :
    (key : ApiKey) (me_id : Option String) → (is_own key.user_id me_id ≡ true) ↔ IsOwn key me_id
unfolding is_own
is_own_iff key none = ground arith
is_own_iff key (some me) = elim (Option-cases key.user_id) [
  | inl e ↦ ground arith
  | inr (u, e) ↦ ground (arith, eq_iff u me)
]

-- A session key is never rotated, and is edited or revoked only by those who manage every key.
-- Any other key is open to those and to its owner, for all three actions.
pub key_actions_iff :
    (key : ApiKey) (me_id : Option String) (can_manage_any_key : Bool)
    → (((key_actions key me_id can_manage_any_key).can_rotate ≡ true)
        ↔ ((key.key_type ≢ "session_key") × ((can_manage_any_key ≡ true) ⊎ IsOwn key me_id)))
      × (((key_actions key me_id can_manage_any_key).can_revoke ≡ true)
          ↔ ((can_manage_any_key ≡ true) ⊎ ((key.key_type ≢ "session_key") × IsOwn key me_id)))
      × ((key_actions key me_id can_manage_any_key).can_edit
          ≡ (key_actions key me_id can_manage_any_key).can_revoke)
unfolding key_actions
key_actions_iff key me_id can =
    ground (arith, is_own_iff key me_id, eq_iff key.key_type "session_key")
