-- ===== src/Presets.antt =====
-- ui/src/pages/playground/presets.ts: the presets of the playground in the browser's storage, with the
-- value types of responseFormat.ts. JSON.parse and JSON.stringify, numbers, toLowerCase, localeCompare,
-- a new id and the time come from outside, and so does whether the storage takes a write.
pub mod Json
pub mod Storage
pub mod Reload
pub mod Refine
mod Tests
use Prim.Native.Nat.{Ordering}
use wai_ai.Common.{
  String, Bool, true, false, not, Option, none, some, List, [], ◌∷◌, ◌++◌, map, filter, find,
  if◌then◌else◌, ◌==◌,
}
use wai_ai.Common.Sort.{sort}
use wai_ai.Common.Text.{truthy, trim}

-- `ResponseFormatType`
pub data FormatType : Type 0 where
  text json_object json_schema : FormatType

-- `ResponseFormatValue`
pub record ResponseFormat : Type 0 where
  pub type_of : FormatType
  pub schema_name : String
  pub schema : String
  pub strict : Bool

-- `DEFAULT_RESPONSE_FORMAT` and `DEFAULT_SCHEMA`
abbrev pub default_response_format : ResponseFormat
default_response_format = record {
  type_of = text;
  schema_name = "response";
  schema =
      "{\n  \"type\": \"object\",\n  \"properties\": {\n    \"answer\": { \"type\": \"string\" }\n  },\n  \"required\": [\"answer\"],\n  \"additionalProperties\": false\n}";
  strict = true;
}

-- `PresetSettings`
pub record PresetSettings (Num : Type 0) : Type 0 where
  pub model : String
  pub system_prompt : String
  pub temperature : Num
  pub max_tokens : Num
  pub stream : Bool
  pub response_format : ResponseFormat

-- `PlaygroundPreset`
pub record Preset (Num : Type 0) : Type 0 where
  pub settings : PresetSettings Num
  pub id : String
  pub name : String
  pub updated_at : String

module _ {Num : Type 0} where
  -- `list.map((p) => (p.id === existing.id ? preset : p))`
  unfoldable pub replace_id : String → Preset Num → List (Preset Num) → List (Preset Num)
  replace_id id preset list = map (λ p. if p.id == id then preset else p) list

  unfoldable pub preset_of : String → String → String → PresetSettings Num → Preset Num
  preset_of id trimmed now settings = record {
    settings = settings;
    id = id;
    name = trimmed;
    updated_at = now;
  }

  unfoldable pub put_in :
      Option (Preset Num)
      → String
      → String
      → String
      → PresetSettings Num
      → List (Preset Num)
      → List (Preset Num)
  unfolding replace_id preset_of
  put_in none new_id now trimmed settings list = list ++ preset_of new_id trimmed now settings ∷ []
  put_in (some existing) new_id now trimmed settings list =
      replace_id existing.id (preset_of existing.id trimmed now settings) list

  -- `next` of `deletePreset`
  unfoldable pub without_id : String → List (Preset Num) → List (Preset Num)
  without_id id list = filter (λ p. not (p.id == id)) list

module _ {Num : Type 0} (lower : String → String) where
  -- `list.find((p) => p.name.toLowerCase() === trimmed.toLowerCase())`
  unfoldable pub find_name : String → List (Preset Num) → Option (Preset Num)
  find_name trimmed list = find (λ p. lower p.name == lower trimmed) list

module _ {Num : Type 0} (lower : String → String)
    (locale_compare : String → String → Ordering) where
  -- `next` of `savePreset`
  unfoldable pub next_presets :
      String → String → String → PresetSettings Num → List (Preset Num) → List (Preset Num)
  unfolding find_name put_in
  next_presets new_id now trimmed settings list =
      sort (λ a b. locale_compare a.name b.name)
        (put_in (find_name lower trimmed list) new_id now trimmed settings list)
