-- ===== src/Keys/Tests.antt =====
-- The theorems on keys at concrete keys. Dates are read from a small table.
use wai_ai.Common.{
  ℕ, String, ◌≤◌, ◌≡◌, ◌≢◌, refl, ◌↔◌, ◌⊎◌, inl, inr, Bool, true, false, Option, none, some, List,
  [], ◌∷◌, arith, filter, Listed, if◌then◌else◌, ◌==◌, eq_iff, ap,
}
use wai_ai.Common.Int.{ℤ, pos}
use wai_ai.Common.Sort.{IsOrdered}
use wai_ai.Keys.{
  ApiKey, FilterOptions, OwnerContext, KeySort, only, expired, asc, expires_at, parse_time,
  sort_keys, value,
}

abbrev dates : String → Option ℤ
dates s =
    if s == "2026-01-01"
    then some (pos 1000)
    else if s == "2026-02-01"
    then some (pos 900000000)
    else none

abbrev same : String → String
same s = s

abbrev key_a : ApiKey
key_a = record {
  id = "a";
  key_hint = "wa_a";
  key_type = "user_key";
  name = "build";
  org_id = "o";
  team_id = none;
  user_id = some "u1";
  service_account_id = none;
  daily_token_limit = 0;
  monthly_token_limit = 0;
  requests_per_minute = 0;
  requests_per_day = 0;
  expires_at = some "2026-01-01";
  last_used_at = none;
  created_by = "u1";
  created_at = "2026-01-01";
  updated_at = "2026-01-01";
}

abbrev key_b : ApiKey
key_b = record key_a { id = "b"; name = "agent"; expires_at = none }

abbrev key_c : ApiKey
key_c = record key_a { id = "c"; name = "ci"; key_type = "session_key" }

abbrev nobody : OwnerContext
nobody = record { me_id = some "u1"; team_names = λ t. none; service_account_names = λ t. none }

abbrev keys : List ApiKey
keys = key_b ∷ key_a ∷ key_c ∷ []

abbrev expired_ones : FilterOptions
expired_ones = record { query = "  CI "; status = only expired; now = pos 1000; owner = nobody }

abbrev by_expiry : KeySort
by_expiry = record { column = expires_at; direction = asc }

-- The key that never expires comes last.
sorted_keys : sort_keys same dates nobody (pos 0) keys (some by_expiry) ≡ key_a ∷ key_c ∷ key_b ∷ []
unfolding sort_keys value parse_time wai_ai.Common.Sort.sort wai_ai.Common.Sort.compare_by
sorted_keys = refl

abbrev on_first : Option String → Bool
on_first none = false
on_first (some s) = s == "2026-01-01"

on_first-date : (o : Option String) → on_first o ≡ true → o ≡ some "2026-01-01"
on_first-date none h = cc
on_first-date (some s) h = ap some ((eq_iff s "2026-01-01").0 h)

abbrev dated : ApiKey → Bool
dated k = on_first k.expires_at

dated-value :
    (a b : ApiKey)
    → dated a ≡ true
    → dated b ≡ true
    → value same dates nobody (pos 0) expires_at a ≡ value same dates nobody (pos 0) expires_at b
unfolding value parse_time
dated-value a b h k = rw (on_first-date a.expires_at h, on_first-date b.expires_at k)
