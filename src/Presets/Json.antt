-- ===== src/Presets/Json.antt =====
-- What JSON.parse returns, and the tests by which ui/src/pages/playground/presets.ts reads a value of
-- unknown shape.
use wai_ai.Common.{
  String, Bool, true, false, Option, none, some, List, [], ◌∷◌, or_default, if◌then◌else◌, ◌==◌,
}
use wai_ai.Common.Text.{truthy, trim}
use wai_ai.Presets.{
  FormatType, text, json_object, json_schema, ResponseFormat, default_response_format,
  PresetSettings, Preset,
}

mutual
  pub data Json (Num : Type 0) : Type 0 where
    null : Json Num
    boolean : Bool → Json Num
    number : Num → Json Num
    str : String → Json Num
    array : Elements Num → Json Num
    object : Members Num → Json Num

  pub data Elements (Num : Type 0) : Type 0 where
    no_element : Elements Num
    element : Json Num → Elements Num → Elements Num

  pub data Members (Num : Type 0) : Type 0 where
    no_member : Members Num
    member_of : String → Json Num → Members Num → Members Num

unfoldable pub format_type : Option String → FormatType
format_type none = text
format_type (some s) =
    if s == "json_object" then json_object else if s == "json_schema" then json_schema else text

abbrev pub format_name : FormatType → String
format_name text = "text"
format_name json_object = "json_object"
format_name json_schema = "json_schema"

module _ {Num : Type 0} where
  unfoldable pub lookup : String → Members Num → Option (Json Num)
  lookup k no_member = none
  lookup k (member_of l v rest) = if l == k then some v else lookup k rest

  -- `r.k` on a value that is not null; none is undefined.
  unfoldable pub field : String → Json Num → Option (Json Num)
  unfolding lookup
  field k (object members) = lookup k members
  field k _ = none

  -- `raw && typeof raw === 'object'`
  unfoldable pub is_object : Json Num → Bool
  is_object (array elements) = true
  is_object (object members) = true
  is_object _ = false

  -- `typeof v === 'string' ? v : …`, and its like
  unfoldable pub as_text : Option (Json Num) → Option String
  as_text (some (str s)) = some s
  as_text _ = none

  unfoldable pub as_flag : Option (Json Num) → Option Bool
  as_flag (some (boolean b)) = some b
  as_flag _ = none

  unfoldable pub as_number : (Num → Bool) → Option (Json Num) → Option Num
  as_number test (some (number n)) = if test n then some n else none
  as_number test _ = none

  unfoldable pub format_from : Json Num → ResponseFormat
  unfolding field as_text as_flag format_type
  format_from r = record {
    type_of = format_type (as_text (field "type" r));
    schema_name = or_default (as_text (field "schemaName" r)) default_response_format.schema_name;
    schema = or_default (as_text (field "schema" r)) default_response_format.schema;
    strict = or_default (as_flag (field "strict" r)) default_response_format.strict;
  }

  -- `sanitizeFormat`
  unfoldable pub sanitize_format : Option (Json Num) → ResponseFormat
  unfolding format_from is_object
  sanitize_format none = default_response_format
  sanitize_format (some raw) = if is_object raw then format_from raw else default_response_format

  -- The object that JSON.stringify prints.
  unfoldable pub format_json : ResponseFormat → Json Num
  format_json f = object (
      member_of "type" (str (format_name f.type_of)) (
        member_of "schemaName" (str f.schema_name)
          (member_of "schema" (str f.schema) (member_of "strict" (boolean f.strict) no_member))))

  unfoldable pub preset_json : Preset Num → Json Num
  unfolding format_json
  preset_json p = object (
      member_of "model" (str p.settings.model) (
        member_of "systemPrompt" (str p.settings.system_prompt) (
          member_of "temperature" (number p.settings.temperature) (
            member_of "maxTokens" (number p.settings.max_tokens) (
              member_of "stream" (boolean p.settings.stream) (
                member_of "responseFormat" (format_json p.settings.response_format) (
                  member_of "id" (str p.id) (
                    member_of "name" (str p.name)
                      (member_of "updatedAt" (str p.updated_at) no_member)))))))))

  unfoldable pub elements_of : List (Preset Num) → Elements Num
  unfolding preset_json
  elements_of [] = no_element
  elements_of (p ∷ ps) = element (preset_json p) (elements_of ps)

-- Numbers as `sanitizeSettings` tests them: from 0 to 2, and a positive integer.
pub record NumberTests (Num : Type 0) : Type 0 where
  pub is_temperature : Num → Bool
  pub is_count : Num → Bool

module _ {Num : Type 0} (limits : NumberTests Num) where
  unfoldable pub settings_with : Json Num → Option Num → Option Num → Option (PresetSettings Num)
  unfolding field as_text as_flag sanitize_format
  settings_with r (some temperature) (some max_tokens) = some (record {
    model = or_default (as_text (field "model" r)) "";
    system_prompt = or_default (as_text (field "systemPrompt" r)) "";
    temperature = temperature;
    max_tokens = max_tokens;
    stream = or_default (as_flag (field "stream" r)) true;
    response_format = sanitize_format (field "responseFormat" r);
  })
  settings_with r _ _ = none

  -- `sanitizeSettings`
  unfoldable pub sanitize_settings : Json Num → Option (PresetSettings Num)
  unfolding is_object settings_with as_number
  sanitize_settings raw =
      if is_object raw
      then settings_with raw (as_number limits.is_temperature (field "temperature" raw))
          (as_number limits.is_count (field "maxTokens" raw))
      else none

  unfoldable pub preset_with :
      Json Num → Option (PresetSettings Num) → Option String → Option String → Option (Preset Num)
  preset_with r (some settings) (some id) (some name) =
      if truthy (trim name)
      then some (record {
        settings = settings;
        id = id;
        name = name;
        updated_at = or_default (as_text (field "updatedAt" r)) "";
      })
      else none
  preset_with r _ _ _ = none

  -- One round of the loop of `loadPresets`; none is skipped.
  unfoldable pub load_preset : Json Num → Option (Preset Num)
  unfolding sanitize_settings preset_with
  load_preset item =
      preset_with item (sanitize_settings item) (as_text (field "id" item))
        (as_text (field "name" item))

  unfoldable pub keep {ℓ} : {A : Type ℓ} → Option A → List A → List A
  keep none rest = rest
  keep (some a) rest = a ∷ rest

  unfoldable pub load_items : Elements Num → List (Preset Num)
  unfolding load_preset keep
  load_items no_element = []
  load_items (element item rest) = keep (load_preset item) (load_items rest)

  -- `loadPresets`, of the value that is read
  unfoldable pub presets_in : Option (Json Num) → List (Preset Num)
  unfolding load_items
  presets_in (some (array items)) = load_items items
  presets_in _ = []
