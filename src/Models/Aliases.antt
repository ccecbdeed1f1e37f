-- ===== src/Models/Aliases.antt =====
-- Which aliases are sent.
use wai_ai.Common.{
  String, ◌≡◌, ◌↔◌, ◌⊎◌, inl, inr, true, not, ◌&&◌, List, [], ◌∷◌, ◌++◌, map, arith, member,
  member_iff, Listed, Listed-append, AllDistinct, Bool-cases,
}
use wai_ai.Common.Text.{truthy, trim}
use wai_ai.Models.{collect_aliases, normalize_aliases}

Listed-collect_aliases :
    (t : String) (rest out : List String)
    → Listed t (collect_aliases rest out)
      ↔ (Listed t out ⊎ (Listed t (map trim rest) × (truthy t ≡ true)))
unfolding collect_aliases
Listed-collect_aliases t [] out = ground arith
Listed-collect_aliases t (a ∷ rest) out =
    elim (Bool-cases (truthy (trim a) && not (member (trim a) out))) [
      | inl new ↦ rw new (
          ground (
            arith,
            new,
            Listed-collect_aliases t rest (out ++ trim a ∷ []),
            Listed-append t out (trim a ∷ []),
          ))
      | inr old ↦ rw old (
          ground (
            arith,
            old,
            Listed-collect_aliases t rest out,
            member_iff (trim a) out,
            member_iff t out,
          ))
    ]

AllDistinct-append :
    (t : String) (xs : List String)
    → AllDistinct xs
    → (Listed t xs → ⊥)
    → AllDistinct (xs ++ t ∷ [])
AllDistinct-append t [] d fresh = ((λ h. h), tt)
AllDistinct-append t (x ∷ xs) (d, ds) fresh = (
  ground (arith, d, fresh, Listed-append x xs (t ∷ [])),
  AllDistinct-append t xs ds (λ h. fresh (inr h)),
)

AllDistinct-collect_aliases :
    (rest out : List String) → AllDistinct out → AllDistinct (collect_aliases rest out)
unfolding collect_aliases
AllDistinct-collect_aliases [] out d = d
AllDistinct-collect_aliases (a ∷ rest) out d =
    elim (Bool-cases (truthy (trim a) && not (member (trim a) out))) [
      | inl new ↦ rw new (
          AllDistinct-collect_aliases rest (out ++ trim a ∷ [])
            (AllDistinct-append (trim a) out d (ground (arith, new, member_iff (trim a) out))))
      | inr old ↦ rw old (AllDistinct-collect_aliases rest out d)
    ]

-- The aliases that are sent are the non-empty trimmed aliases, each of them once.
pub normalize_aliases_lem :
    (aliases : List String) (t : String)
    → (Listed t (normalize_aliases aliases) ↔ (Listed t (map trim aliases) × (truthy t ≡ true)))
      × AllDistinct (normalize_aliases aliases)
unfolding normalize_aliases
normalize_aliases_lem aliases t =
    (ground (arith, Listed-collect_aliases t aliases []), AllDistinct-collect_aliases aliases [] tt)
