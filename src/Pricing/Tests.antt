-- ===== src/Pricing/Tests.antt =====
-- A price to update, and one that is locked.
use mathlib.Core.Bool.{false≢true}
use wai_ai.Common.{◌≡◌, refl, sym, ap, ◌==◌, String, true, false, some, List, [], ◌∷◌, Listed}
use wai_ai.Pricing.{
  Row, SheetEvent, update, manual_locked, manual, toggle, type_search, handle_apply, opened,
  on_events,
}
use wai_ai.Pricing.Locked.{IsNotDue, handle_apply-leaves_out}

abbrev preview : List Row
preview =
    record {
      model_id = "m1";
      name = "gpt";
      provider = "openai";
      match_key = "gpt";
      pricing_key = "";
      pricing_source = manual;
      action = update;
    }
    ∷ record {
      model_id = "m2";
      name = "claude";
      provider = "anthropic";
      match_key = "claude";
      pricing_key = "";
      pricing_source = manual;
      action = manual_locked;
    }
    ∷ []

abbrev same : String → String
same s = s

abbrev searched : List (List Row × SheetEvent)
searched = (preview, type_search "claude") ∷ (preview, toggle "m1" true) ∷ []

first_only : handle_apply preview (on_events same searched opened) ≡ some ("m1" ∷ [], false)
unfolding handle_apply on_events
first_only = refl

different : ◌≡◌ {A = String} "m1" "m2" → ⊥
different e = false≢true (ap (λ (s : String). s == "m2") e)

not_due : IsNotDue "m2" preview
not_due = ((λ e. absurd (different e)), ((λ e. refl), tt))

handle_apply-leaves_out_example : Listed {A = String} "m2" ("m1" ∷ []) → ⊥
handle_apply-leaves_out_example =
    handle_apply-leaves_out same "m2" searched preview ("m1" ∷ []) false
      ((not_due, tt), ((not_due, (λ e. different (sym e))), tt)) not_due first_only
