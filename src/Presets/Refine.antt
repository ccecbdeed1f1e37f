-- ===== src/Presets/Refine.antt =====
-- The storage refines a list of presets: whatever text it holds, the calls do to the presets that are
-- loaded from it what they would do to a list.
use Prim.Native.Nat.{Ordering}
use wai_ai.Common.{
  ◌≡◌, refl, ap, ◌∙◌, String, Bool, true, false, not, ◌&&◌, Option, none, some, List, [], ◌∷◌, All,
  All-append, All-filter, either_way, if◌then◌else◌, ◌==◌,
}
use wai_ai.Common.Sort.{Comparator, insert, sort}
use wai_ai.Common.Text.{truthy, trim}
use wai_ai.Common.Text.Trim.{trim-trim}
use wai_ai.Presets.{
  PresetSettings, Preset, find_name, put_in, preset_of, replace_id, next_presets, without_id,
}
use wai_ai.Presets.Json.{Json, null, boolean, number, str, object, array, elements_of, presets_in}
use wai_ai.Presets.Reload.{IsValid, IsValidSettings, load_items-elements_of, load_items-IsValid}
use wai_ai.Presets.Storage.{
  Browser, read_json, load_presets, write_presets, PresetCall, save_preset, delete_preset,
  call_preset, call_all,
}

-- What the browser documents of JSON: a value with finite numbers is read back from its text, which is
-- not empty.
pub record IsJson (b : Browser) : Type 0 where
  pub parse-stringify : (j : Json b.Num) → b.parse (b.stringify j) ≡ some j
  pub stringify_filled : (j : Json b.Num) → b.is_empty (b.stringify j) ≡ false

module _ {ℓ} {A : Type ℓ} (P : A → Type 0) (cmp : Comparator A) where
  All-insert : (x : A) (xs : List A) → P x → All P xs → All P (insert cmp x xs)
  unfolding insert
  All-insert x [] p h = (p, tt)
  All-insert x (y ∷ ys) p (q, h) =
      elim (cmp x y)
        as (λ o.
          All P (elim o as (λ z. List A) [ Ordering.gt ↦ y ∷ insert cmp x ys | _ ↦ x ∷ y ∷ ys ])) [
            | Ordering.gt ↦ (q, All-insert x ys p h)
            | _ ↦ (p, (q, h))
          ]

  All-sort : (xs : List A) → All P xs → All P (sort cmp xs)
  unfolding sort
  All-sort [] h = tt
  All-sort (x ∷ xs) (p, h) = All-insert x (sort cmp xs) p (All-sort xs h)

module _ (b : Browser) where
  -- The calls on a list, with no text in between. A write that fails leaves it as it was.
  unfoldable pub on_list : PresetCall b → List (Preset b.Num) → List (Preset b.Num)
  on_list (save_preset new_id now name settings writes) list =
      if truthy (trim name) && writes
      then next_presets b.lower b.locale_compare new_id now (trim name) settings list
      else list
  on_list (delete_preset id writes) list = if writes then without_id id list else list

  unfoldable pub all_on_list : List (PresetCall b) → List (Preset b.Num) → List (Preset b.Num)
  unfolding on_list
  all_on_list [] list = list
  all_on_list (c ∷ cs) list = all_on_list cs (on_list c list)

  -- The settings that the page saves have a temperature and a number of tokens within their bounds.
  abbrev pub IsValidCall : PresetCall b → Type 0
  IsValidCall (save_preset new_id now name settings writes) = IsValidSettings b.limits settings
  IsValidCall (delete_preset id writes) = Unit

  presets_in-IsValid : (o : Option (Json b.Num)) → All (IsValid b.limits) (presets_in b.limits o)
  unfolding presets_in
  presets_in-IsValid none = tt
  presets_in-IsValid (some (array items)) = load_items-IsValid b.limits items
  presets_in-IsValid (some null) = tt
  presets_in-IsValid (some (boolean x)) = tt
  presets_in-IsValid (some (number x)) = tt
  presets_in-IsValid (some (str x)) = tt
  presets_in-IsValid (some (object x)) = tt

  load_presets-IsValid : (stored : Option b.Text) → All (IsValid b.limits) (load_presets b stored)
  unfolding load_presets
  load_presets-IsValid stored = presets_in-IsValid (read_json b stored)

  replace_id-IsValid :
      (id : String) (p : Preset b.Num) (ps : List (Preset b.Num))
      → IsValid b.limits p
      → All (IsValid b.limits) ps
      → All (IsValid b.limits) (replace_id id p ps)
  unfolding replace_id
  replace_id-IsValid id p [] v h = tt
  replace_id-IsValid id p (q ∷ ps) v (w, h) =
      (either_way (IsValid b.limits) (q.id == id) p q v w, replace_id-IsValid id p ps v h)

  put_in-IsValid :
      (o : Option (Preset b.Num)) (new_id now name : String) (s : PresetSettings b.Num)
      (ps : List (Preset b.Num))
      → IsValidSettings b.limits s
      → truthy (trim name) ≡ true
      → All (IsValid b.limits) ps
      → All (IsValid b.limits) (put_in o new_id now name s ps)
  unfolding put_in preset_of
  put_in-IsValid none new_id now name s ps v n h = All-append (IsValid b.limits) ps _ h ((v, n), tt)
  put_in-IsValid (some p) new_id now name s ps v n h = replace_id-IsValid p.id _ ps (v, n) h

  next_presets-IsValid :
      (new_id now name : String) (s : PresetSettings b.Num) (ps : List (Preset b.Num))
      → IsValidSettings b.limits s
      → truthy (trim name) ≡ true
      → All (IsValid b.limits) ps
      → All (IsValid b.limits) (next_presets b.lower b.locale_compare new_id now name s ps)
  unfolding next_presets
  next_presets-IsValid new_id now name s ps v n h =
      All-sort (IsValid b.limits) _ _
        (put_in-IsValid (find_name b.lower name ps) new_id now name s ps v n h)

  module _ (json : IsJson b) where
    read_json-stringify : (j : Json b.Num) → read_json b (some (b.stringify j)) ≡ some j
    unfolding read_json
    read_json-stringify j = rw (json.stringify_filled j, read_json) (json.parse-stringify j)

    -- What is written is what is loaded next.
    load-write :
        (next : List (Preset b.Num)) (stored : Option b.Text)
        → All (IsValid b.limits) next
        → load_presets b (write_presets b true next stored).stored ≡ next
    unfolding load_presets write_presets presets_in
    load-write next stored h =
        ap (presets_in b.limits) (read_json-stringify (array (elements_of next)))
        ∙ load_items-elements_of b.limits next h

    write-refines :
        (writes : Bool) (next : List (Preset b.Num)) (stored : Option b.Text)
        → All (IsValid b.limits) next
        → load_presets b (write_presets b writes next stored).stored
          ≡ (if writes then next else load_presets b stored)
    unfolding write_presets
    write-refines true next stored h = load-write next stored h
    write-refines false next stored h = refl

    save_refines :
        (new_id now name : String) (s : PresetSettings b.Num) (writes : Bool)
        (stored : Option b.Text) (named : Bool)
        → truthy (trim name) ≡ named
        → IsValidSettings b.limits s
        → let next =
            next_presets b.lower b.locale_compare new_id now
              (trim name)
              s
              (load_presets b stored) in
          load_presets b
            (if named
              then write_presets b writes next stored
              else record { stored = stored; result = none }).stored
          ≡ (if named && writes then next else load_presets b stored)
    save_refines new_id now name s writes stored true e v = write-refines writes _ stored (
        next_presets-IsValid new_id now (trim name) s (load_presets b stored) v
          (ap truthy (trim-trim name) ∙ e) (load_presets-IsValid stored))
    save_refines new_id now name s writes stored false e v = refl

    call_refines :
        (c : PresetCall b) (stored : Option b.Text)
        → IsValidCall c
        → load_presets b (call_preset b c stored).stored ≡ on_list c (load_presets b stored)
    unfolding call_preset on_list presets_in without_id
    call_refines (save_preset new_id now name s writes) stored v =
        save_refines new_id now name s writes stored (truthy (trim name)) refl v
    call_refines (delete_preset id writes) stored v = write-refines writes _ stored (
        All-filter (IsValid b.limits) (λ p. not (p.id == id)) (load_presets b stored)
          (load_presets-IsValid stored))

    -- Whatever text the storage holds, after any calls with valid settings the presets that are loaded
    -- are those that the same calls make of the list loaded before them; a write that the storage refuses
    -- leaves the list as it was.
    pub call_all-refines :
        (calls : List (PresetCall b)) (stored : Option b.Text)
        → All IsValidCall calls
        → load_presets b (call_all b calls stored) ≡ all_on_list calls (load_presets b stored)
    unfolding call_all all_on_list
    call_all-refines [] stored h = refl
    call_all-refines (c ∷ cs) stored (v, h) =
        call_all-refines cs (call_preset b c stored).stored h
        ∙ ap (all_on_list cs) (call_refines c stored v)
