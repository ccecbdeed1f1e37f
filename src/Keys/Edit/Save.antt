-- ===== src/Keys/Edit/Save.antt =====
-- What the dialog that edits a key sends.
use wai_ai.Common.{
  ℕ, ◌≡◌, refl, ap, ◌∙◌, String, Bool, true, false, Option, none, some, arith, not, ◌&&◌,
  if◌then◌else◌, eq_iff, ◌==◌,
}
use wai_ai.Common.Int.{ℤ, pos, eqb_ℤ_iff}
use wai_ai.Common.Decimal.{print_nat}
use wai_ai.Common.Decimal.RoundTrip.{parse_int-print_nat}
use wai_ai.Common.Text.{truthy, trim}
use wai_ai.Keys.{ApiKey}
use wai_ai.Keys.Limits.{
  EachLimit, key_limits, limit_text, limits_from_key, map_limits, expires_at_from_option,
}
use wai_ai.Keys.Limits.Texts.{trim-print_nat, truthy-print_nat}
use wai_ai.Keys.Edit.{
  EditForm, limit_or_zero, open_edit, no_limits, changed_limit, limit_changes, nothing_changed,
  close, update_params, save, submit_edit,
}

module _ (engine : ℕ → ℕ) where
  limit_or_zero-print_nat :
      (n : ℕ) → engine n ≡ n → limit_or_zero engine (print_nat n) ≡ some (pos n)
  unfolding limit_or_zero
  limit_or_zero-print_nat n h =
      rw (trim-print_nat n, truthy-print_nat n) (parse_int-print_nat engine n h)

  limit_or_zero-blank : limit_or_zero engine "" ≡ some (pos 0)
  unfolding limit_or_zero trim
  limit_or_zero-blank = refl

  limit_or_zero-limit_text :
      (n : ℕ) → engine n ≡ n → limit_or_zero engine (limit_text n) ≡ some (pos n)
  unfolding limit_text
  limit_or_zero-limit_text n h = ground (arith, limit_or_zero-print_nat n h, limit_or_zero-blank)

  unchanged : (n : ℕ) → engine n ≡ n → changed_limit (limit_or_zero engine (limit_text n)) n ≡ none
  unfolding changed_limit
  unchanged n h = rw (limit_or_zero-limit_text n h, (eqb_ℤ_iff (pos n) (pos n)).1 refl) refl

  limits_unchanged :
      (k : ApiKey)
      → EachLimit (λ n. engine n ≡ n) (key_limits k)
      → limit_changes engine k (limits_from_key k) ≡ no_limits
  unfolding limit_changes limits_from_key map_limits
  limits_unchanged k (a, b, c, d) = λ i. record {
    daily_token_limit = unchanged k.daily_token_limit a i;
    monthly_token_limit = unchanged k.monthly_token_limit b i;
    requests_per_minute = unchanged k.requests_per_minute c i;
    requests_per_day = unchanged k.requests_per_day d i;
  }

  same_limits :
      (k : ApiKey) (can_edit_limits : Bool)
      → EachLimit (λ n. engine n ≡ n) (key_limits k)
      → (if can_edit_limits then limit_changes engine k (limits_from_key k) else no_limits)
        ≡ no_limits
  same_limits k true exact = limits_unchanged k exact
  same_limits k false exact = refl

  same_expiry : {A : Type 0} (b : Bool) (x y : A) → (if b && not true then x else y) ≡ y
  same_expiry true x y = refl
  same_expiry false x y = refl

  same_name :
      (s t : String) → t ≡ s → if◌then◌else◌ {A = Option String} (t == s) none (some t) ≡ none
  same_name s t e = ground (arith, eq_iff t s)

  save-nothing :
      (to_iso : ℤ → String) (now : ℤ) (form : EditForm) (id : String)
      → save engine to_iso now form id
          (record { name = none; expires_at = none; limits = no_limits })
        ≡ close
  unfolding save nothing_changed
  save-nothing to_iso now form id = refl

  update_params-open_edit :
      (to_iso : ℤ → String) (now : ℤ) (k : ApiKey) (can_edit_limits : Bool)
      → trim k.name ≡ k.name
      → EachLimit (λ n. engine n ≡ n) (key_limits k)
      → update_params engine to_iso now k can_edit_limits (open_edit k)
        ≡ record { name = none; expires_at = none; limits = no_limits }
  unfolding update_params open_edit
  update_params-open_edit to_iso now k can trimmed exact = λ i. record {
    name = same_name k.name (trim k.name) trimmed i;
    expires_at = same_expiry can (some (expires_at_from_option to_iso now "keep")) none i;
    limits = same_limits k can exact i;
  }

submit_named :
    (engine : ℕ → ℕ) (to_iso : ℤ → String) (now : ℤ) (k : ApiKey) (can_edit_limits : Bool)
    (form : EditForm)
    → truthy (trim form.name) ≡ true
    → submit_edit engine to_iso now k can_edit_limits form
      ≡ save engine to_iso now
          (record form { name_error = none })
          k.id
          (update_params engine to_iso now k can_edit_limits form)
unfolding submit_edit
submit_named engine to_iso now k can form h = rw h refl

-- The dialog of a key whose name is not empty and has no blanks at its ends, and whose limits the engine
-- reads exactly, submitted as it was opened, sends nothing and closes.
pub submit_edit-open_edit :
    (engine : ℕ → ℕ) (to_iso : ℤ → String) (now : ℤ) (k : ApiKey) (can_edit_limits : Bool)
    → truthy k.name ≡ true
    → trim k.name ≡ k.name
    → EachLimit (λ n. engine n ≡ n) (key_limits k)
    → submit_edit engine to_iso now k can_edit_limits (open_edit k) ≡ close
unfolding open_edit
submit_edit-open_edit engine to_iso now k can named trimmed exact =
    let sent = save engine to_iso now (record (open_edit k) { name_error = none }) k.id in
    submit_named engine to_iso now k can (open_edit k) (ap truthy trimmed ∙ named)
    ∙ ap sent (update_params-open_edit engine to_iso now k can trimmed exact)
    ∙ save-nothing engine to_iso now (record (open_edit k) { name_error = none }) k.id
