-- ===== src/BulkRevoke/Results.antt =====
-- What a run reports.
use mathlib.Core.List.{append_assoc, append-nil}
use wai_ai.Common.{
  ℕ, suc, ◌+◌, String, ◌≡◌, refl, sym, ap, ◌∙◌, false, not, Option, none, some, List, [], ◌∷◌, ◌++◌,
  map, filter, arith, length, is_some, if◌then◌else◌,
}
use wai_ai.Keys.{ApiKey}
use wai_ai.BulkRevoke.{
  Failure, BulkRevokeResult, Progress, Revocation, begin, collect, revoke_from, run_all,
}

-- The keys that the API revokes, and the others.
abbrev pub revoked : (String → Option String) → List ApiKey → List ApiKey
revoked revoke_one keys = filter (λ k. not (is_some (revoke_one k.id))) keys

abbrev pub refused : (String → Option String) → List ApiKey → List ApiKey
refused revoke_one keys = filter (λ k. is_some (revoke_one k.id)) keys

abbrev failed_keys : BulkRevokeResult → List ApiKey
failed_keys r = map (λ x. x.key) r.failed

map-append :
    (xs : List Failure) (x : Failure)
    → map (λ f. f.key) (xs ++ x ∷ []) ≡ map (λ f. f.key) xs ++ x.key ∷ []
map-append [] x = refl
map-append (y ∷ ys) x = ap (◌∷◌ y.key) (map-append ys x)

collect_succeeded :
    (key : ApiKey) (o : Option String) (r : BulkRevokeResult) (rest : List ApiKey)
    → (collect key o r).succeeded ++ rest
      ≡ r.succeeded ++ (if not (is_some o) then key ∷ rest else rest)
unfolding collect
collect_succeeded key none r rest = append_assoc r.succeeded (key ∷ []) rest
collect_succeeded key (some why) r rest = refl

collect_failed :
    (key : ApiKey) (o : Option String) (r : BulkRevokeResult) (rest : List ApiKey)
    → failed_keys (collect key o r) ++ rest
      ≡ failed_keys r ++ (if is_some o then key ∷ rest else rest)
unfolding collect
collect_failed key none r rest = refl
collect_failed key (some why) r rest =
    ap (λ xs. xs ++ rest) (map-append r.failed (record { key = key; message = why }))
    ∙ append_assoc (failed_keys r) (key ∷ []) rest

revoke_from_lem :
    (revoke_one : String → Option String) (i total : ℕ) (keys : List ApiKey) (s : Revocation)
    → ((revoke_from revoke_one i total keys s).result.succeeded
        ≡ s.result.succeeded ++ revoked revoke_one keys)
      × (failed_keys (revoke_from revoke_one i total keys s).result
          ≡ failed_keys s.result ++ refused revoke_one keys)
unfolding revoke_from
revoke_from_lem revoke_one i total [] s =
    (sym (append-nil s.result.succeeded), sym (append-nil (failed_keys s.result)))
revoke_from_lem revoke_one i total (key ∷ keys) s =
    let answer = revoke_one key.id in
    let after : Revocation = record s {
      result = collect key answer s.result;
      progress = record { done = i + 1; total = total };
    } in
    let (a, b) = revoke_from_lem revoke_one (suc i) total keys after in
    (
      a ∙ collect_succeeded key answer s.result (revoked revoke_one keys),
      b ∙ collect_failed key answer s.result (refused revoke_one keys),
    )

abbrev at : ℕ → ℕ → Progress
at total done = record { done = done; total = total }

progress_lem :
    (revoke_one : String → Option String) (i total : ℕ) (keys : List ApiKey) (s : Revocation)
    → s.progress ≡ record { done = i; total = total }
    → (revoke_from revoke_one i total keys s).progress
      ≡ record { done = i + length keys; total = total }
unfolding revoke_from
progress_lem revoke_one i total [] s h = h ∙ ap (at total) (omega arith)
progress_lem revoke_one i total (key ∷ keys) s h =
    progress_lem revoke_one (suc i) total keys
      (record s {
        result = collect key (revoke_one key.id) s.result;
        progress = record { done = i + 1; total = total };
      })
      (ap (at total) (omega arith))
    ∙ ap (at total) (omega arith)

-- A run reports the keys that the API revoked and those that it refused, each in the order of the
-- list; it ends with all of them done, and running no more.
pub run_all_lem :
    (revoke_one : String → Option String) (keys : List ApiKey)
    → ((run_all revoke_one keys).result.succeeded ≡ revoked revoke_one keys)
      × (map (λ x. x.key) (run_all revoke_one keys).result.failed ≡ refused revoke_one keys)
      × ((run_all revoke_one keys).progress ≡ record { done = length keys; total = length keys })
      × ((run_all revoke_one keys).running ≡ false)
unfolding run_all
run_all_lem revoke_one keys =
    let (a, b) = revoke_from_lem revoke_one 0 (length keys) keys (begin keys) in
    (
      a,
      b,
      progress_lem revoke_one 0 (length keys) keys (begin keys) refl
          ∙ ap (at (length keys)) (omega arith),
      refl,
    )
