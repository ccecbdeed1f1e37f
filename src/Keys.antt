-- ===== src/Keys.antt =====
-- ui/src/pages/keys/helpers.ts: status, owner, filter, sort and permitted actions of API keys. The
-- engine's `toLowerCase` and `Date.parse` are arguments; a date that does not parse is `none`.
pub mod Status
pub mod Listing
pub mod Actions
pub mod Limits
pub mod Edit
pub mod Create
mod Tests
use wai_ai.Common.{
  ℕ, String, Bool, true, false, not, ◌&&◌, ◌||◌, Option, none, some, List, [], ◌∷◌, or_default,
  filter, any, if◌then◌else◌, ◌==◌,
}
use wai_ai.Common.Int.{ℤ, pos, ◌-ℤ◌, ltb_ℤ, leb_ℤ}
use wai_ai.Common.Text.{truthy, present, append, slice_start, needle, contains, text_lt}
use wai_ai.Common.Sort.{sort, compare_by}

-- `APIKeyResponse`
pub record ApiKey : Type 0 where
  pub id : String
  pub key_hint : String
  pub key_type : String
  pub name : String
  pub org_id : String
  pub team_id : Option String
  pub user_id : Option String
  pub service_account_id : Option String
  pub daily_token_limit : ℕ
  pub monthly_token_limit : ℕ
  pub requests_per_minute : ℕ
  pub requests_per_day : ℕ
  pub expires_at : Option String
  pub last_used_at : Option String
  pub created_by : String
  pub created_at : String
  pub updated_at : String

pub data KeyStatus : Type 0 where
  active expiring expired : KeyStatus

pub data KeyStatusFilter : Type 0 where
  every : KeyStatusFilter
  only : KeyStatus → KeyStatusFilter

abbrev pub expiring_window_ms : ℕ
expiring_window_ms = 604800000

-- `timeValue`, with `none` for the value that stands for a missing time.
unfoldable pub parse_time : (String → Option ℤ) → Option String → Option ℤ
parse_time parse_date iso = elim (present iso) [ none ↦ none | some s ↦ parse_date s ]

-- `keyStatus`, from the parsed expiry.
unfoldable pub status_at : Option ℤ → ℤ → KeyStatus
status_at none now = active
status_at (some exp) now =
    if leb_ℤ exp now
    then expired
    else if leb_ℤ (exp -ℤ now) (pos expiring_window_ms)
    then expiring
    else active

-- `keyStatus`
unfoldable pub key_status : (String → Option ℤ) → ApiKey → ℤ → KeyStatus
unfolding status_at
key_status parse_date key now = status_at (parse_time parse_date key.expires_at) now

pub record OwnerContext : Type 0 where
  pub me_id : Option String
  pub team_names : String → Option String
  pub service_account_names : String → Option String

-- `(id && names.get(id)) || fallback`
abbrev name_or : Option String → (String → Option String) → String → String
name_or id names fallback = elim (present id) [
  | none ↦ fallback
  | some i ↦ or_default (present (names i)) fallback
]

-- `user_id && user_id === me`, with a missing `me` equal to no id.
unfoldable pub is_own : Option String → Option String → Bool
is_own user_id none = false
is_own user_id (some me) = elim (present user_id) [ none ↦ false | some u ↦ u == me ]

-- `keyOwnerLabel`
unfoldable pub key_owner_label : ApiKey → OwnerContext → String
unfolding is_own
key_owner_label key ctx =
    if key.key_type == "sa_key"
    then name_or key.service_account_id ctx.service_account_names "Service account"
    else if key.key_type == "team_key"
    then name_or key.team_id ctx.team_names "Team"
    else if is_own key.user_id ctx.me_id
    then "You"
    else elim (present key.user_id) [ none ↦ "Unknown" | some u ↦ append "User " (slice_start 8 u) ]

abbrev same_status : KeyStatus → KeyStatus → Bool
same_status active active = true
same_status expiring expiring = true
same_status expired expired = true
same_status _ _ = false

abbrev pub passes_status : KeyStatusFilter → KeyStatus → Bool
passes_status every s = true
passes_status (only t) s = same_status s t

pub record FilterOptions : Type 0 where
  pub query : String
  pub status : KeyStatusFilter
  pub now : ℤ
  pub owner : OwnerContext

-- The predicate of `filterKeys`.
unfoldable pub key_passes : (String → String) → (String → Option ℤ) → FilterOptions → ApiKey → Bool
key_passes lower parse_date opts k =
    passes_status opts.status (key_status parse_date k opts.now)
    && (not (truthy (needle lower opts.query))
        || any (contains lower (needle lower opts.query))
            (some k.name ∷ some k.key_hint ∷ some (key_owner_label k opts.owner) ∷ []))

-- `filterKeys`
unfoldable pub filter_keys :
    (String → String) → (String → Option ℤ) → List ApiKey → FilterOptions → List ApiKey
filter_keys lower parse_date keys opts = filter (key_passes lower parse_date opts) keys

pub data KeySortColumn : Type 0 where
  name key_type owner status expires_at last_used_at created_at : KeySortColumn

pub data Direction : Type 0 where
  asc desc : Direction

abbrev pub is_asc : Direction → Bool
is_asc asc = true
is_asc desc = false

pub record KeySort : Type 0 where
  pub column : KeySortColumn
  pub direction : Direction

-- `statusOrder`
abbrev pub status_order : KeyStatus → ℕ
status_order active = 0
status_order expiring = 1
status_order expired = 2

abbrev max_safe_integer : ℕ
max_safe_integer = 9007199254740991

-- `keyTypeLabels[t] ?? t`
unfoldable pub key_type_label : String → String
key_type_label t =
    if t == "user_key"
    then "User"
    else if t == "team_key"
    then "Team"
    else if t == "sa_key"
    then "Service Acct"
    else if t == "session_key"
    then "Session"
    else t

-- The type of a column's values, and its `<`.
abbrev pub Value : KeySortColumn → Type 0
Value name = String
Value key_type = String
Value owner = String
Value _ = ℤ

abbrev pub value_lt : (c : KeySortColumn) → Value c → Value c → Bool
value_lt name = text_lt
value_lt key_type = text_lt
value_lt owner = text_lt
value_lt status = ltb_ℤ
value_lt expires_at = ltb_ℤ
value_lt last_used_at = ltb_ℤ
value_lt created_at = ltb_ℤ

module _ (lower : String → String) (parse_date : String → Option ℤ) (ctx : OwnerContext)
    (now : ℤ) where
  -- The local `value` of `sortKeys`.
  unfoldable pub value : (c : KeySortColumn) → ApiKey → Value c
  value name k = lower k.name
  value key_type k = key_type_label k.key_type
  value owner k = lower (key_owner_label k ctx)
  value status k = pos (status_order (key_status parse_date k now))
  value expires_at k = or_default (parse_time parse_date k.expires_at) (pos max_safe_integer)
  value last_used_at k = or_default (parse_time parse_date k.last_used_at) (pos 0)
  value created_at k = or_default (parse_time parse_date (some k.created_at)) (pos 0)

  -- `sortKeys`
  unfoldable pub sort_keys : List ApiKey → Option KeySort → List ApiKey
  sort_keys keys none = keys
  sort_keys keys (some s) =
      sort (compare_by (value_lt s.column) (value s.column) (is_asc s.direction)) keys

abbrev same_column : KeySortColumn → KeySortColumn → Bool
same_column name name = true
same_column key_type key_type = true
same_column owner owner = true
same_column status status = true
same_column expires_at expires_at = true
same_column last_used_at last_used_at = true
same_column created_at created_at = true
same_column _ _ = false

abbrev pub is_date_column : KeySortColumn → Bool
is_date_column created_at = true
is_date_column last_used_at = true
is_date_column _ = false

abbrev opposite : Direction → Direction
opposite asc = desc
opposite desc = asc

abbrev pub first_direction : KeySortColumn → Direction
first_direction c = if is_date_column c then desc else asc

-- `nextSort`
unfoldable pub next_sort : Option KeySort → KeySortColumn → KeySort
next_sort none c = record { column = c; direction = first_direction c }
next_sort (some s) c =
    if same_column s.column c
    then record { column = c; direction = opposite s.direction }
    else record { column = c; direction = first_direction c }

pub record KeyActions : Type 0 where
  pub can_edit : Bool
  pub can_rotate : Bool
  pub can_revoke : Bool

-- `keyActions`
unfoldable pub key_actions : ApiKey → Option String → Bool → KeyActions
unfolding is_own
key_actions key me_id can_manage_any_key =
    if key.key_type == "session_key"
    then record {
      can_edit = can_manage_any_key;
      can_rotate = false;
      can_revoke = can_manage_any_key;
    }
    else let can_manage = can_manage_any_key || is_own key.user_id me_id in
      record { can_edit = can_manage; can_rotate = can_manage; can_revoke = can_manage }
