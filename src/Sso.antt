-- ===== src/Sso.antt =====
-- ui/src/pages/OrgDetailSSOTab.tsx: the form of an organization's SSO configuration, what it sends, and
-- the test of the issuer, with the types of ui/src/hooks/useOrgSSO.ts. The address that the page was
-- loaded from is the argument `origin`.
pub mod Lists
pub mod Form
pub mod Badge
mod Tests
use wai_ai.Common.{
  ℕ, suc, String, Bool, true, false, not, ◌||◌, Option, none, some, List, [], ◌∷◌, map, filter, eqb,
  is_some, if◌then◌else◌, ◌==◌,
}
use wai_ai.Common.Text.{append, truthy, trim}
use wai_ai.Models.{split_commas}

-- `SSOConfigResponse`
pub record SsoConfig : Type 0 where
  pub enabled : Bool
  pub issuer : String
  pub client_id : String
  pub has_secret : Bool
  pub redirect_url : String
  pub scopes : List String
  pub allowed_domains : List String
  pub auto_provision : Bool
  pub default_role : String
  pub group_sync : Bool
  pub group_claim : String

-- `SaveSSOConfigParams`
pub record SaveSsoParams : Type 0 where
  pub enabled : Bool
  pub issuer : String
  pub client_id : String
  pub client_secret : Option String
  pub redirect_url : String
  pub scopes : List String
  pub allowed_domains : List String
  pub auto_provision : Bool
  pub default_role : String
  pub group_sync : Bool
  pub group_claim : String

-- `SSOFormState`
pub record SsoForm : Type 0 where
  pub enabled : Bool
  pub issuer : String
  pub client_id : String
  pub client_secret : String
  pub redirect_url : String
  pub scopes : String
  pub allowed_domains : String
  pub auto_provision : Bool
  pub default_role : String
  pub group_sync : Bool
  pub group_claim : String

-- `FormErrors`
pub record SsoErrors : Type 0 where
  pub issuer : Option String
  pub client_id : Option String

-- `parseCSV`
unfoldable pub parse_csv : String → List String
unfolding split_commas
parse_csv value = filter truthy (map trim (split_commas value))

-- `toCSV`
unfoldable pub to_csv : List String → String
unfolding append
to_csv [] = ""
to_csv (x ∷ []) = x
to_csv (x ∷ y ∷ ys) = append x (append ", " (to_csv (y ∷ ys)))

-- `formFromConfig`
unfoldable pub form_from_config : SsoConfig → SsoForm
unfolding to_csv
form_from_config c = record {
  enabled = c.enabled;
  issuer = c.issuer;
  client_id = c.client_id;
  client_secret = "";
  redirect_url = c.redirect_url;
  scopes = to_csv c.scopes;
  allowed_domains = to_csv c.allowed_domains;
  auto_provision = c.auto_provision;
  default_role = c.default_role;
  group_sync = c.group_sync;
  group_claim = c.group_claim;
}

-- `defaultForm` and `DEFAULT_REDIRECT_URL`
unfoldable pub default_form : String → SsoForm
unfolding append
default_form origin = record {
  enabled = true;
  issuer = "";
  client_id = "";
  client_secret = "";
  redirect_url = append origin "/api/v1/auth/oidc/callback";
  scopes = "openid, email, profile";
  allowed_domains = "";
  auto_provision = true;
  default_role = "member";
  group_sync = false;
  group_claim = "";
}

-- `formToParams`
unfoldable pub form_to_params : SsoForm → SaveSsoParams
unfolding parse_csv
form_to_params f = record {
  enabled = f.enabled;
  issuer = trim f.issuer;
  client_id = trim f.client_id;
  client_secret = if truthy (trim f.client_secret) then some (trim f.client_secret) else none;
  redirect_url = trim f.redirect_url;
  scopes = parse_csv f.scopes;
  allowed_domains = parse_csv f.allowed_domains;
  auto_provision = f.auto_provision;
  default_role = f.default_role;
  group_sync = f.group_sync;
  group_claim = trim f.group_claim;
}

-- `validate`
unfoldable pub validate : SsoForm → SsoErrors
validate f = record {
  issuer = if truthy (trim f.issuer) then none else some "Issuer URL is required";
  client_id = if truthy (trim f.client_id) then none else some "Client ID is required";
}

pub data TestStatus : Type 0 where
  idle loading success error : TestStatus

-- The states of `SSOForm` but for the dialog, and the number of tests that were sent.
pub record SsoState : Type 0 where
  pub form : SsoForm
  pub errors : SsoErrors
  pub tested_issuer : Option String
  pub test_status : TestStatus
  pub test_message : Option String
  pub tests : ℕ

-- What is sent.
pub data SsoRequest : Type 0 where
  save : SaveSsoParams → SsoRequest
  test_issuer : ℕ → String → SsoRequest

-- What comes back from a test: the API's result, or the text of an error.
pub data TestAnswer : Type 0 where
  result : Bool → String → TestAnswer
  failure : String → TestAnswer

abbrev pub no_errors : SsoErrors
no_errors = record { issuer = none; client_id = none }

-- The first render, with `initial`.
unfoldable pub open_sso : SsoForm → SsoState
open_sso initial = record {
  form = initial;
  errors = no_errors;
  tested_issuer = none;
  test_status = idle;
  test_message = none;
  tests = 0;
}

-- `activeTestStatus`
unfoldable pub active_status : SsoState → TestStatus
active_status s = elim s.tested_issuer [
  | none ↦ idle
  | some i ↦ if i == s.form.issuer then s.test_status else idle
]

-- `handleTest`
unfoldable pub handle_test : SsoState → SsoState × Option SsoRequest
handle_test s =
    if not (truthy (trim s.form.issuer))
    then (
      record s { errors = record s.errors { issuer = some "Issuer URL is required to test" } },
      none,
    )
    else (
      record s {
        tested_issuer = some s.form.issuer;
        test_status = loading;
        test_message = none;
        tests = suc s.tests;
      },
      some (test_issuer (suc s.tests) s.form.issuer),
    )

-- `onSuccess` and `onError` of a test
unfoldable pub take_answer : TestAnswer → SsoState → SsoState
take_answer (result true m) s = record s { test_status = success }
take_answer (result false m) s = record s { test_status = error; test_message = some m }
take_answer (failure m) s = record s { test_status = error; test_message = some m }

-- What comes back for the test number `k`. The query library calls back for the latest test only.
unfoldable pub answer_test : ℕ → TestAnswer → SsoState → SsoState
unfolding take_answer
answer_test k a s = if eqb k s.tests then take_answer a s else s

-- `handleSubmit`
unfoldable pub handle_submit : SsoState → SsoState × Option SsoRequest
unfolding validate form_to_params
handle_submit s =
    let errs = validate s.form in
    if is_some errs.issuer || is_some errs.client_id
    then (record s { errors = errs }, none)
    else (record s { errors = no_errors }, some (save (form_to_params s.form)))

-- What happens to the form; `edit` is `patch` and `patchInput`, of any fields.
pub data SsoEvent : Type 0 where
  edit : SsoForm → SsoEvent
  press_test press_submit : SsoEvent
  answer : ℕ → TestAnswer → SsoEvent

unfoldable pub on_event : SsoEvent → SsoState → SsoState × Option SsoRequest
unfolding handle_test handle_submit answer_test
on_event (edit form) s = (record s { form = form }, none)
on_event press_test s = handle_test s
on_event press_submit s = handle_submit s
on_event (answer k a) s = (answer_test k a s, none)
