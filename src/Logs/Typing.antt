-- ===== src/Logs/Typing.antt =====
-- The field of the model in the request log, and the parameter that follows it.
use Prim.Native.Char.{Char}
use wai_ai.Common.{◌≡◌, ◌⊎◌, String, false, Option, some, [], ◌∷◌, ◌==◌}
use wai_ai.Common.Int.{ℤ}
use wai_ai.Common.Text.{present, trim}
use wai_ai.Logs.{UrlParams, UrlLaws, Logs, model_of, update_params}

module _ {Params : Type 0} (u : UrlParams Params) (laws : UrlLaws u)
    (parse_date : String → Option ℤ) where
  -- The field was last filled from the parameters as they are.
  abbrev IsSynced : Logs Params → Type 0
  IsSynced s = s.synced_model ≡ model_of u s.params

  -- A text as the parameter, removed if it is empty.
  abbrev put : String → Params → Params
  put t p = update_params u (("model", present (some t)) ∷ []) p

  -- What the timer leaves, if it was due or not.
  abbrev Follows : Logs Params → Logs Params → Type 0
  Follows s t =
      (model_of u t.params ≡ trim s.model_draft)
      × ((k : String) → ("model" == k) ≡ false → u.get k t.params ≡ u.get k s.params)
      × (((t.model_draft ≡ s.model_draft) × (model_of u s.params ≡ trim s.model_draft))
          ⊎ (t.model_draft ≡ trim s.model_draft))
