-- ===== src/Sso/Badge.antt =====
-- What the badge of a test says of the issuer in the form.
use wai_ai.Common.{
  ℕ, suc, ◌≡◌, true, false, String, Option, none, some, List, [], ◌∷◌, Listed, eqb, ◌==◌,
  if◌then◌else◌,
}
use wai_ai.Common.Text.{truthy, trim}
use wai_ai.Sso.{
  SsoState, SsoEvent, edit, press_test, press_submit, answer, result, failure, TestStatus, idle,
  success, on_event,
}

-- The tests that were sent, with their issuers, and the numbers of those that succeeded.
pub record Log : Type 0 where
  pub sent : List (ℕ × String)
  pub succeeded : List ℕ

-- A test is logged as it is sent, and a success as it comes back for the latest test.
unfoldable pub note : SsoEvent → SsoState → Log → Log
note (edit form) s l = l
note press_submit s l = l
note press_test s l =
    if truthy (trim s.form.issuer)
    then record l { sent = (suc s.tests, s.form.issuer) ∷ l.sent }
    else l
note (answer k (result true m)) s l =
    if eqb k s.tests then record l { succeeded = k ∷ l.succeeded } else l
note (answer k (result false m)) s l = l
note (answer k (failure m)) s l = l

unfoldable pub run : List SsoEvent → SsoState → Log → SsoState × Log
unfolding note on_event
run [] s l = (s, l)
run (e ∷ es) s l = run es (on_event e s).0 (note e s l)

-- The tested issuer is that of the latest test, which has succeeded if the status says so.
abbrev IsTrue : SsoState → Log → Type 0
IsTrue s l =
    (i : String)
    → s.tested_issuer ≡ some i
    → Listed (s.tests, i) l.sent × (s.test_status ≡ success → Listed s.tests l.succeeded)

shown_status : (o : Option String) → String → TestStatus → TestStatus
shown_status none issuer status = idle
shown_status (some i) issuer status = if i == issuer then status else idle
