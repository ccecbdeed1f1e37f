-- ===== src/BulkRevoke/Tests.antt =====
-- Two keys, one of which the API refuses to revoke.
use wai_ai.Common.{
  String, ◌≡◌, false, Option, none, some, List, [], ◌∷◌, map, length, ◌==◌, if◌then◌else◌,
}
use wai_ai.Keys.{ApiKey}
use wai_ai.BulkRevoke.{run_all}
use wai_ai.BulkRevoke.Results.{revoked, refused, run_all_lem}

abbrev key_a : ApiKey
key_a = record {
  id = "a";
  key_hint = "wa_a";
  key_type = "user_key";
  name = "build";
  org_id = "o";
  team_id = none;
  user_id = some "u1";
  service_account_id = none;
  daily_token_limit = 0;
  monthly_token_limit = 0;
  requests_per_minute = 0;
  requests_per_day = 0;
  expires_at = none;
  last_used_at = none;
  created_by = "u1";
  created_at = "2026-01-01";
  updated_at = "2026-01-01";
}

abbrev keys : List ApiKey
keys = key_a ∷ record key_a { id = "b" } ∷ []

abbrev revoke_one : String → Option String
revoke_one i = if i == "b" then some "forbidden" else none

run_all_lem_example :
    ((run_all revoke_one keys).result.succeeded ≡ revoked revoke_one keys)
    × (map (λ x. x.key) (run_all revoke_one keys).result.failed ≡ refused revoke_one keys)
    × ((run_all revoke_one keys).progress ≡ record { done = length keys; total = length keys })
    × ((run_all revoke_one keys).running ≡ false)
run_all_lem_example = run_all_lem revoke_one keys
