-- ===== src/Presets/Storage.antt =====
-- ui/src/pages/playground/presets.ts: the calls that read and write the storage.
use Prim.Native.Nat.{Ordering}
use wai_ai.Common.{String, Bool, true, false, Option, none, some, List, [], ◌∷◌, if◌then◌else◌}
use wai_ai.Common.Text.{truthy, trim}
use wai_ai.Presets.{PresetSettings, Preset, next_presets, without_id}
use wai_ai.Presets.Json.{Json, array, NumberTests, elements_of, presets_in}

-- What the browser provides: the texts that the storage holds, and JSON, where `parse` is none if
-- JSON.parse throws.
pub record Browser : Type 1 where
  pub Num : Type 0
  pub Text : Type 0
  pub is_empty : Text → Bool
  pub limits : NumberTests Num
  pub parse : Text → Option (Json Num)
  pub stringify : Json Num → Text
  pub lower : String → String
  pub locale_compare : String → String → Ordering

module _ (b : Browser) where
  -- `readJson`, of the text that the storage holds under the key
  unfoldable pub read_json : Option b.Text → Option (Json b.Num)
  read_json stored = elim stored [
    | none ↦ none
    | some raw ↦ if b.is_empty raw then none else b.parse raw
  ]

  -- `loadPresets`
  unfoldable pub load_presets : Option b.Text → List (Preset b.Num)
  unfolding read_json
  load_presets stored = presets_in b.limits (read_json stored)

  -- The text under the key afterwards, and the result of the call_preset.
  pub record Written : Type 0 where
    pub stored : Option b.Text
    pub result : Option (List (Preset b.Num))

  -- `writeJson(…, next) ? next : null`
  unfoldable pub write_presets : Bool → List (Preset b.Num) → Option b.Text → Written
  write_presets true next stored = record {
    stored = some (b.stringify (array (elements_of next)));
    result = some next;
  }
  write_presets false next stored = record { stored = stored; result = none }

  -- The calls of the page; `new_id` and `now` are what newPresetId and the clock give, and `writes` says
  -- whether the storage takes a write.
  pub data PresetCall : Type 0 where
    save_preset : (new_id now name : String) → PresetSettings b.Num → (writes : Bool) → PresetCall
    delete_preset : (id : String) → (writes : Bool) → PresetCall

  unfoldable pub call_preset : PresetCall → Option b.Text → Written
  unfolding load_presets write_presets
  call_preset (save_preset new_id now name settings writes) stored =
      if truthy (trim name)
      then write_presets writes
          (next_presets b.lower b.locale_compare new_id now (trim name) settings
            (load_presets stored))
          stored
      else record { stored = stored; result = none }
  call_preset (delete_preset id writes) stored =
      write_presets writes (without_id id (load_presets stored)) stored

  unfoldable pub call_all : List PresetCall → Option b.Text → Option b.Text
  unfolding call_preset
  call_all [] stored = stored
  call_all (c ∷ cs) stored = call_all cs (call_preset c stored).stored
