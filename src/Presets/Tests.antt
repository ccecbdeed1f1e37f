-- ===== src/Presets/Tests.antt =====
-- Two presets saved, one of them under a name that is there already, in a browser whose storage holds
-- JSON values and whose numbers are whole.
use wai_ai.Common.Sort.{sort}
use Prim.Native.Nat.{Ordering}
use wai_ai.Common.{ℕ, ◌≡◌, refl, true, false, none, some, List, [], ◌∷◌, leb, ltb, if◌then◌else◌}
use wai_ai.Common.Text.{text_lt, trim}
use wai_ai.Presets.{PresetSettings, default_response_format, next_presets}
use wai_ai.Presets.Json.{Json, elements_of, presets_in}
use wai_ai.Presets.Storage.{Browser, load_presets, PresetCall, save_preset, delete_preset, call_all}
use wai_ai.Presets.Refine.{IsJson, all_on_list, call_all-refines}

abbrev browser : Browser
browser = record {
  Num = ℕ;
  Text = Json ℕ;
  is_empty = λ j. false;
  limits = record { is_temperature = λ n. leb n 2; is_count = λ n. ltb 0 n };
  parse = λ j. some j;
  stringify = λ j. j;
  lower = λ s. s;
  locale_compare =
      λ s t. if text_lt s t then Ordering.lt else if text_lt t s then Ordering.gt else Ordering.eq;
}

json : IsJson browser
json = record { parse-stringify = λ j. refl; stringify_filled = λ j. refl }

abbrev cold : PresetSettings ℕ
cold = record {
  model = "gpt-4o";
  system_prompt = "Be brief.";
  temperature = 0;
  max_tokens = 256;
  stream = true;
  response_format = default_response_format;
}

abbrev warm : PresetSettings ℕ
warm = record cold { temperature = 1 }

abbrev calls : List (PresetCall browser)
calls =
    save_preset "p1" "2026-01-01" "Summaries" cold true
    ∷ save_preset "p2" "2026-01-02" "Code" cold true
    ∷ save_preset "p3" "2026-01-03" " Summaries " warm true
    ∷ delete_preset "p2" false
    ∷ []

saved :
    load_presets browser (call_all browser calls none)
    ≡ record { settings = cold; id = "p2"; name = "Code"; updated_at = "2026-01-02" }
      ∷ record { settings = warm; id = "p1"; name = "Summaries"; updated_at = "2026-01-03" }
      ∷ []
unfolding call_all presets_in trim elements_of next_presets sort text_lt
saved = refl

call_all-refines_example :
    load_presets browser (call_all browser calls none)
    ≡ all_on_list browser calls (load_presets browser none)
call_all-refines_example =
    call_all-refines browser json calls none
      ((refl, refl), ((refl, refl), ((refl, refl), (tt, tt))))
