-- ===== src/Models/Tests.antt =====
-- The helpers of the models page at concrete values.
use wai_ai.Common.{
  String, ◌≡◌, ◌↔◌, refl, true, false, none, some, List, [], ◌∷◌, map, Listed, AllDistinct,
}
use wai_ai.Common.Text.{truthy, trim}
use wai_ai.Models.{Model, split_alias_text, model_matches_search}

abbrev typed : List String
typed = " fast" ∷ "" ∷ "cheap" ∷ "fast " ∷ []

typed_texts : split_alias_text " fast,,cheap" ≡ "fast" ∷ "cheap" ∷ []
unfolding split_alias_text trim
typed_texts = refl

abbrev gpt : Model
gpt = record {
  name = "gpt";
  type = "chat";
  provider = "openai";
  is_active = true;
  aliases = "fast" ∷ [];
  deployments = none;
}

found : model_matches_search (λ s. s) gpt "Open" ≡ true
unfolding model_matches_search trim wai_ai.Common.Text.contains wai_ai.Common.Text.includes
found = refl
