-- ===== src/Settings/Forms.antt =====
-- ui/src/components/settings/OrgSettingsForm.tsx and ui/src/pages/TeamSettingsTab.tsx: the state of the
-- two forms, when they may be saved, and what they send.
use wai_ai.Common.{
  ℕ, String, Bool, true, false, not, ◌&&◌, ◌||◌, Option, none, some, is_some, if◌then◌else◌, ◌==◌,
}
use wai_ai.Common.Text.{trim}
use wai_ai.Settings.{
  Amounts, LimitsOptions, LimitsValues, LimitsRecord, NameSlugValues, NameSlugErrors,
  validate_name_slug, limits_from_record, limits_to_params, limits_dirty,
}

-- `LIMIT_OPTS`; a team has no options.
abbrev pub org_options : LimitsOptions
org_options = record { spend = true; guardrails = true }

abbrev pub team_options : LimitsOptions
team_options = record { spend = false; guardrails = false }

pub record SettingsForm : Type 0 where
  pub basic : NameSlugValues
  pub errors : NameSlugErrors
  pub limits : LimitsValues

-- `basic.name !== org.name || basic.slug !== org.slug`
unfoldable pub basic_dirty : NameSlugValues → NameSlugValues → Bool
basic_dirty basic old = not (basic.name == old.name) || not (basic.slug == old.slug)

module _ (money : Amounts) where
  -- An organization or a team: what the forms read of it.
  pub record Owner : Type 0 where
    pub basic : NameSlugValues
    pub limits : LimitsRecord money

  -- The parameters of an update.
  pub record SettingsParams : Type 0 where
    pub name : Option String
    pub slug : Option String
    pub limits : Option (LimitsRecord money)

  -- A submission sets the errors, and sends a request if there are none.
  pub record SettingsOutcome : Type 0 where
    pub form : SettingsForm
    pub request : Option SettingsParams

  -- The initial state of a form.
  unfoldable pub open_settings : Owner → SettingsForm
  open_settings o = record {
    basic = o.basic;
    errors = record { name = none; slug = none };
    limits = limits_from_record money o.limits;
  }

  -- `if (errs.name || errs.slug) return`, and else the request
  unfoldable pub submit_settings : SettingsParams → SettingsForm → SettingsOutcome
  submit_settings params form =
      let errors = validate_name_slug form.basic in
      record {
        form = record form { errors = errors };
        request = if is_some errors.name || is_some errors.slug then none else some params;
      }

  module _ (engine : ℕ → ℕ) where
    -- `isDirty` of `OrgSettingsForm`
    unfoldable pub org_dirty : Owner → Bool → SettingsForm → Bool
    unfolding basic_dirty
    org_dirty org limits_read_only form =
        basic_dirty form.basic org.basic
        || not limits_read_only && limits_dirty money engine form.limits org.limits org_options

    -- `handleSubmit` of `OrgSettingsForm`
    unfoldable pub submit_org : Bool → Bool → SettingsForm → SettingsOutcome
    unfolding submit_settings
    submit_org read_only limits_read_only form =
        submit_settings
          (record {
            name = if read_only then none else some (trim form.basic.name);
            slug = if read_only then none else some (trim form.basic.slug);
            limits =
                if limits_read_only
                then none
                else some (limits_to_params money engine form.limits org_options);
          })
          form

    -- `isDirty` of `TeamSettingsForm`
    unfoldable pub team_dirty : Owner → SettingsForm → Bool
    unfolding basic_dirty
    team_dirty team form =
        basic_dirty form.basic team.basic
        || limits_dirty money engine form.limits team.limits team_options

    -- `handleSubmit` of `TeamSettingsForm`
    unfoldable pub submit_team : SettingsForm → SettingsOutcome
    unfolding submit_settings
    submit_team form =
        submit_settings
          (record {
            name = some (trim form.basic.name);
            slug = some (trim form.basic.slug);
            limits = some (limits_to_params money engine form.limits team_options);
          })
          form
