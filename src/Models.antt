-- ===== src/Models.antt =====
-- ui/src/pages/models/modelHelpers.ts, with the records of hooks/useModels.ts: the aliases, the
-- fallback options, the search and the sort of the list of models. `lower` is the engine's
-- `toLowerCase`, and `locale` the sign of its `localeCompare`.
pub mod Aliases
mod Tests
use Prim.Native.Char.{code}
use Prim.Native.Nat.{Ordering}
use wai_ai.Common.{
  ℕ, String, Bool, true, false, not, ◌&&◌, ◌||◌, Option, none, some, List, [], ◌∷◌, ◌++◌, map,
  filter, any, member, eqb, or_default, if◌then◌else◌, ◌==◌,
}
use wai_ai.Common.Text.{truthy, trim, needle, contains}
use wai_ai.Common.Sort.{Comparator, sort}

-- The fields of `DeploymentResponse` that the helpers read.
pub record Deployment : Type 0 where
  pub name : String
  pub provider : String

-- The fields of `ModelResponse` that the helpers read.
pub record Model : Type 0 where
  pub name : String
  pub type : String
  pub provider : String
  pub is_active : Bool
  pub aliases : List String
  pub deployments : Option (List Deployment)

-- `providerLabel`, with the table `providerLabels`
unfoldable pub provider_label : String → String
provider_label provider =
    if provider == "openai"
    then "OpenAI"
    else if provider == "anthropic"
    then "Anthropic"
    else if provider == "azure"
    then "Azure"
    else if provider == "vllm"
    then "vLLM"
    else if provider == "ollama"
    then "Ollama"
    else if provider == "custom"
    then "Custom"
    else provider

-- `baseUrlPlaceholder`, with the table `BASE_URL_PLACEHOLDERS`
unfoldable pub base_url_placeholder : String → String
base_url_placeholder provider =
    if provider == "openai"
    then "https://api.openai.com/v1"
    else if provider == "anthropic"
    then "https://api.anthropic.com"
    else if provider == "azure"
    then "https://<resource>.openai.azure.com"
    else if provider == "vllm"
    then "http://localhost:8000/v1"
    else if provider == "ollama"
    then "http://localhost:11434/v1"
    else if provider == "custom"
    then "https://your-endpoint/v1"
    else "https://"

-- The loop of `normalizeAliases`, on the aliases that are left and those that were kept.
unfoldable pub collect_aliases : List String → List String → List String
collect_aliases [] out = out
collect_aliases (a ∷ rest) out =
    let t = trim a in
    collect_aliases rest (if truthy t && not (member t out) then out ++ t ∷ [] else out)

-- `normalizeAliases`
unfoldable pub normalize_aliases : List String → List String
normalize_aliases aliases = collect_aliases aliases []

-- `text.split(',')`
unfoldable pub split_commas : String → List String
split_commas String.[] = String.[] ∷ []
split_commas (String.◌∷◌ c s) = elim (split_commas s) [
  | [] ↦ String.[] ∷ []
  | w ∷ ws ↦ if eqb (code c) 44 then String.[] ∷ w ∷ ws else String.◌∷◌ c w ∷ ws
]

-- `splitAliasText`
unfoldable pub split_alias_text : String → List String
unfolding split_commas
split_alias_text text = filter truthy (map trim (split_commas text))

-- `SelectOption`
pub record SelectOption : Type 0 where
  pub value : String
  pub label : String

-- `buildFallbackOptions`
unfoldable pub build_fallback_options : List Model → String → String → List SelectOption
build_fallback_options models name type =
    record { value = ""; label = "None" }
    ∷ map (λ m. record { value = m.name; label = m.name })
        (filter (λ m. not (m.name == name) && m.type == type) models)

-- What a search looks at in a deployment.
unfoldable pub deployment_texts : List Deployment → List String
unfolding provider_label
deployment_texts [] = []
deployment_texts (d ∷ ds) = d.name ∷ d.provider ∷ provider_label d.provider ∷ deployment_texts ds

-- `haystack`
unfoldable pub haystack : Model → List String
unfolding provider_label deployment_texts
haystack m =
    (m.name ∷ m.provider ∷ provider_label m.provider ∷ [])
    ++ m.aliases
    ++ deployment_texts (or_default m.deployments [])

-- `modelMatchesSearch`
unfoldable pub model_matches_search : (String → String) → Model → String → Bool
unfolding haystack
model_matches_search lower model query =
    let q = needle lower query in
    if truthy q then any (λ s. contains lower q (some s)) (haystack model) else true

pub data Direction : Type 0 where
  asc desc : Direction

pub record SortState : Type 0 where
  pub column : String
  pub direction : Direction

-- `SORTABLE_COLUMNS`
abbrev sortable_columns : List String
sortable_columns = "name" ∷ "provider" ∷ "is_active" ∷ []

-- `sortKey`
unfoldable pub sort_key : (String → String) → Model → String → String
unfolding provider_label
sort_key lower model column =
    if column == "provider"
    then lower (provider_label model.provider)
    else if column == "is_active"
    then (if model.is_active then "0" else "1")
    else lower model.name

abbrev is_asc : Direction → Bool
is_asc asc = true
is_asc desc = false

-- The comparator of `sortModels`
unfoldable pub compare_models : (String → String) → Comparator String → SortState → Comparator Model
unfolding sort_key
compare_models lower locale s a b =
    elim (locale (sort_key lower a s.column) (sort_key lower b s.column)) [
      | Ordering.eq ↦ locale a.name b.name
      | Ordering.lt ↦ if is_asc s.direction then Ordering.lt else Ordering.gt
      | Ordering.gt ↦ if is_asc s.direction then Ordering.gt else Ordering.lt
    ]

-- `sortModels`
unfoldable pub sort_models :
    (String → String) → Comparator String → List Model → Option SortState → List Model
sort_models lower locale models none = models
sort_models lower locale models (some s) =
    if member s.column sortable_columns then sort (compare_models lower locale s) models else models

-- `nextSort`
unfoldable pub next_sort : Option SortState → String → SortState
next_sort none column = record { column = column; direction = asc }
next_sort (some s) column =
    if s.column == column
    then record { column = column; direction = if is_asc s.direction then desc else asc }
    else record { column = column; direction = asc }
