-- ===== src/BulkRevoke.antt =====
-- ui/src/pages/keys/useBulkRevoke.ts: keys are revoked one at a time. Whether the API revokes a key,
-- or with which message it refuses, is an argument.
pub mod Results
mod Tests
use wai_ai.Common.{
  ℕ, suc, ◌+◌, String, Bool, true, false, Option, none, some, List, [], ◌∷◌, ◌++◌, length,
}
use wai_ai.Keys.{ApiKey}

pub record Failure : Type 0 where
  pub key : ApiKey
  pub message : String

pub record BulkRevokeResult : Type 0 where
  pub succeeded : List ApiKey
  pub failed : List Failure

pub record Progress : Type 0 where
  pub done : ℕ
  pub total : ℕ

-- The states of the hook, and the result that the run collects.
pub record Revocation : Type 0 where
  pub running : Bool
  pub progress : Progress
  pub result : BulkRevokeResult

-- `run` before the loop.
abbrev pub begin : List ApiKey → Revocation
begin keys = record {
  running = true;
  progress = record { done = 0; total = length keys };
  result = record { succeeded = []; failed = [] };
}

-- The inner `try`: the result after an answer of the API, a message when it refuses.
unfoldable pub collect : ApiKey → Option String → BulkRevokeResult → BulkRevokeResult
collect key none r = record r { succeeded = r.succeeded ++ key ∷ [] }
collect key (some message) r = record r {
  failed = r.failed ++ record { key = key; message = message } ∷ [];
}

-- The loop, from the i-th key on.
unfoldable pub revoke_from :
    (String → Option String) → ℕ → ℕ → List ApiKey → Revocation → Revocation
unfolding collect
revoke_from revoke_one i total [] s = s
revoke_from revoke_one i total (key ∷ keys) s =
    revoke_from revoke_one (suc i) total keys (record s {
      result = collect key (revoke_one key.id) s.result;
      progress = record { done = i + 1; total = total };
    })

-- `run`
unfoldable pub run_all : (String → Option String) → List ApiKey → Revocation
unfolding revoke_from
run_all revoke_one keys = record (revoke_from revoke_one 0 (length keys) keys (begin keys)) {
  running = false;
}
