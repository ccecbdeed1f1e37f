-- ===== src/Presets/Reload.antt =====
-- A preset that is written is read back.
use wai_ai.Common.{
  ◌≡◌, refl, ap, subst, or_default, ◌∙◌, String, Bool, true, false, Option, none, some, List, [],
  ◌∷◌, All, Bool-cases, inl, inr, if◌then◌else◌,
}
use wai_ai.Common.Text.{truthy, trim}
use wai_ai.Presets.{
  FormatType, text, json_object, json_schema, ResponseFormat, PresetSettings, Preset,
}
use wai_ai.Presets.Json.{
  Json, Elements, no_element, element, NumberTests, null, boolean, str, array, object, number,
  field, lookup, is_object, as_text, as_flag, as_number, format_type, format_name, format_from,
  sanitize_format, format_json, preset_json, elements_of, settings_with, sanitize_settings,
  preset_with, load_preset, keep, load_items,
}

some_injective : {A : Type 0} {x y : A} → some x ≡ some y → x ≡ y
some_injective {A} {x} h = ap (λ o. or_default o x) h

then_of :
    {A : Type 0} (b : Bool) (o : Option A) (a : A) → (if b then o else none) ≡ some a → o ≡ some a
then_of true o a h = h
then_of false o a h = cc

not_else :
    {A : Type 0} (b : Bool) (o : Option A) (a : A)
    → b ≡ false
    → (if b then o else none) ≡ some a
    → ⊥
not_else true o a e h = cc
not_else false o a e h = cc

module _ {Num : Type 0} (limits : NumberTests Num) where
  abbrev pub IsValidSettings : PresetSettings Num → Type 0
  IsValidSettings s =
      (limits.is_temperature s.temperature ≡ true) × (limits.is_count s.max_tokens ≡ true)

  -- A preset as `loadPresets` lets it through.
  abbrev pub IsValid : Preset Num → Type 0
  IsValid p = IsValidSettings p.settings × (truthy (trim p.name) ≡ true)

  as_number-valid :
      (test : Num → Bool) (n : Num) → test n ≡ true → as_number test (some (number n)) ≡ some n
  unfolding as_number
  as_number-valid test n h = rw h refl

  format_type-name : (t : FormatType) → format_type (some (format_name t)) ≡ t
  unfolding format_type
  format_type-name text = refl
  format_type-name json_object = refl
  format_type-name json_schema = refl

  sanitize_format-json :
      (f : ResponseFormat) → sanitize_format {Num = Num} (some (format_json f)) ≡ f
  unfolding sanitize_format format_from is_object format_json field lookup as_text as_flag
  sanitize_format-json f = λ i. record f { type_of = format_type-name f.type_of i }

  sanitize_settings-json :
      (p : Preset Num)
      → IsValidSettings p.settings
      → sanitize_settings limits (preset_json p) ≡ some p.settings
  unfolding sanitize_settings preset_json settings_with is_object field lookup as_text as_flag
  sanitize_settings-json p (t, c) =
      ap
        (λ x.
          settings_with limits (preset_json p) x
            (as_number limits.is_count (some (number p.settings.max_tokens))))
        (as_number-valid limits.is_temperature p.settings.temperature t)
      ∙ ap (settings_with limits (preset_json p) (some p.settings.temperature))
          (as_number-valid limits.is_count p.settings.max_tokens c)
      ∙ ap (λ f. some (record p.settings { response_format = f }))
          (sanitize_format-json p.settings.response_format)

  named :
      (p : Preset Num)
      → truthy (trim p.name) ≡ true
      → preset_with limits (preset_json p) (some p.settings) (some p.id) (some p.name) ≡ some p
  unfolding preset_with preset_json field lookup as_text
  named p n = rw n refl

  -- A valid preset is read back from its JSON.
  pub load_preset-json : (p : Preset Num) → IsValid p → load_preset limits (preset_json p) ≡ some p
  unfolding load_preset preset_json field lookup as_text
  load_preset-json p (v, n) =
      ap (λ s. preset_with limits (preset_json p) s (some p.id) (some p.name))
        (sanitize_settings-json p v)
      ∙ named p n

  pub load_items-elements_of :
      (ps : List (Preset Num)) → All IsValid ps → load_items limits (elements_of ps) ≡ ps
  unfolding load_items elements_of keep
  load_items-elements_of [] h = refl
  load_items-elements_of (p ∷ ps) (v, h) =
      ap (λ o. keep limits o (load_items limits (elements_of ps))) (load_preset-json p v)
      ∙ ap (◌∷◌ p) (load_items-elements_of ps h)

  picked :
      (test : Num → Bool) (m n : Num) (b : Bool)
      → test m ≡ b
      → (if b then some m else none) ≡ some n
      → test n ≡ true
  picked test m n true e h = cc
  picked test m n false e h = cc

  as_number-passes :
      (test : Num → Bool) (o : Option (Json Num)) (n : Num)
      → as_number test o ≡ some n
      → test n ≡ true
  unfolding as_number
  as_number-passes test none n h = cc
  as_number-passes test (some null) n h = cc
  as_number-passes test (some (boolean b)) n h = cc
  as_number-passes test (some (str s)) n h = cc
  as_number-passes test (some (array es)) n h = cc
  as_number-passes test (some (object ms)) n h = cc
  as_number-passes test (some (number m)) n h = picked test m n (test m) refl h

  settings_with-IsValid :
      (r : Json Num) (t c : Option Num) (s : PresetSettings Num)
      → ((n : Num) → t ≡ some n → limits.is_temperature n ≡ true)
      → ((n : Num) → c ≡ some n → limits.is_count n ≡ true)
      → settings_with limits r t c ≡ some s
      → IsValidSettings s
  unfolding settings_with
  settings_with-IsValid r none c s p q h = cc
  settings_with-IsValid r (some t) none s p q h = cc
  settings_with-IsValid r (some t) (some c) s p q h =
      subst IsValidSettings (some_injective h) (p t refl, q c refl)

  sanitize_settings-IsValid :
      (raw : Json Num) (s : PresetSettings Num)
      → sanitize_settings limits raw ≡ some s
      → IsValidSettings s
  unfolding sanitize_settings
  sanitize_settings-IsValid raw s h =
      settings_with-IsValid raw _ _ s
        (as_number-passes limits.is_temperature (field "temperature" raw))
        (as_number-passes limits.is_count (field "maxTokens" raw)) (then_of (is_object raw) _ s h)

  preset_with-IsValid :
      (r : Json Num) (s : Option (PresetSettings Num)) (id name : Option String) (p : Preset Num)
      → ((t : PresetSettings Num) → s ≡ some t → IsValidSettings t)
      → preset_with limits r s id name ≡ some p
      → IsValid p
  unfolding preset_with
  preset_with-IsValid r none id name p v h = cc
  preset_with-IsValid r (some t) none name p v h = cc
  preset_with-IsValid r (some t) (some i) none p v h = cc
  preset_with-IsValid r (some t) (some i) (some n) p v h = elim (Bool-cases (truthy (trim n))) [
    | inl e ↦ subst IsValid (some_injective (then_of (truthy (trim n)) _ p h)) (v t refl, e)
    | inr e ↦ absurd (not_else (truthy (trim n)) _ p e h)
  ]

  load_preset-IsValid :
      (item : Json Num) (p : Preset Num) → load_preset limits item ≡ some p → IsValid p
  unfolding load_preset
  load_preset-IsValid item p h = preset_with-IsValid item _ _ _ p (sanitize_settings-IsValid item) h

  keep-IsValid :
      (o : Option (Preset Num)) (ps : List (Preset Num))
      → ((p : Preset Num) → o ≡ some p → IsValid p)
      → All IsValid ps
      → All IsValid (keep limits o ps)
  unfolding keep
  keep-IsValid none ps v h = h
  keep-IsValid (some p) ps v h = (v p refl, h)

  -- Whatever is stored, the presets that are loaded are valid.
  pub load_items-IsValid : (items : Elements Num) → All IsValid (load_items limits items)
  unfolding load_items
  load_items-IsValid no_element = tt
  load_items-IsValid (element item rest) =
      keep-IsValid (load_preset limits item) (load_items limits rest) (load_preset-IsValid item)
        (load_items-IsValid rest)
