-- ===== src/Compare/Run.antt =====
-- What "Run all" sends.
use native.Mathlib.Nat.{mod-lt}
use wai_ai.Common.{
  ℕ, zero, suc, ◌<◌, ◌%◌, String, ◌≡◌, refl, true, false, ◌&&◌, some, List, [], ◌∷◌, length, any,
  All, arith, Bool-cases, inl, inr, or_default, ap, ltb→lt, and_left, and_right, if◌then◌else◌,
  eq_iff, ◌==◌, ltb,
}
use wai_ai.Common.Text.{truthy, trim}
use wai_ai.Controls.Segmented.{nth}
use wai_ai.Controls.Segmented.Moves.{nth-some, nth-All}
use wai_ai.Controls.Select.{Choice}
use wai_ai.Compare.{
  Column, Compare, Props, SendParams, Command, send, run_all, any_streaming, option_value,
  resolve_model, resolved_from, can_run, params_for, sends_from, on_event,
}

module _ {Num Format : Type 0} (p : Props Num Format) where
  -- A model that an option offers, and that has a name.
  abbrev pub IsOffered : String → Type 0
  IsOffered model = (any (λ o. o.value == model) p.options ≡ true) × (truthy model ≡ true)

  -- A column is sent the text, with an offered model and with its own numbers, or the shared ones if they
  -- are synced.
  abbrev pub IsSent : String → Column Num → Command Num Format → Type 0
  IsSent text c k =
      (q : SendParams Num Format) × (k ≡ send c.id text q)
      × IsOffered q.model
      × ((p.synced ≡ true) → (q.temperature ≡ p.temperature) × (q.max_tokens ≡ p.max_tokens))
      × ((p.synced ≡ false) → (q.temperature ≡ c.temperature) × (q.max_tokens ≡ c.max_tokens))

  -- Each column in turn, and nothing else.
  abbrev pub AreSent : String → List (Column Num) → List (Command Num Format) → Type 0
  AreSent text [] [] = Unit
  AreSent text (c ∷ cs) (k ∷ ks) = IsSent text c k × AreSent text cs ks
  AreSent text _ _ = ⊥

  any_here :
      (o : Choice) (i : ℕ) (os : List Choice)
      → nth i os ≡ some o
      → any (λ x. x.value == o.value) os ≡ true
  unfolding nth
  any_here o i [] h = cc
  any_here o zero (x ∷ xs) h =
      let e : x ≡ o = cc in rw ((eq_iff x.value o.value).1 (ap (λ c. c.value) e)) refl
  any_here o (suc i) (x ∷ xs) h = ground (arith, any_here o i xs h)

  module _ (offers : 0 < length p.options)
      (named : All (λ o. truthy o.value ≡ true) p.options) where
    index_bound :
        (i : ℕ) → i % (if ltb (length p.options) 1 then 1 else length p.options) < length p.options
    index_bound i = elim (Bool-cases (ltb (length p.options) 1)) [
      | inl e ↦ absurd (omega (arith, ltb→lt (length p.options) 1 e))
      | inr e ↦ rw e (mod-lt i offers)
    ]

    resolve_model-IsOffered : (c : Column Num) (i : ℕ) → IsOffered (resolve_model p c i)
    unfolding resolve_model option_value
    resolve_model-IsOffered c i =
        elim (Bool-cases (truthy c.model && any (λ o. o.value == c.model) p.options)) [
          | inl e ↦ rw e (and_right (truthy c.model) _ e, and_left (truthy c.model) _ e)
          | inr e ↦
              let (o, at) = nth-some _ p.options (index_bound i) in
              rw (e, at)
                (
                  any_here o _ p.options at,
                  nth-All (λ o. truthy o.value ≡ true) _ p.options o named at,
                )
        ]

    sends_from-AreSent :
        (i : ℕ) (text : String) (cs : List (Column Num)) → AreSent text cs (sends_from p i text cs)
    unfolding sends_from params_for
    sends_from-AreSent i text [] = tt
    sends_from-AreSent i text (c ∷ cs) = (
      (
        params_for p c i,
        refl,
        resolve_model-IsOffered c i,
        (λ e. rw e (refl, refl)),
        (λ e. rw e (refl, refl)),
      ),
      sends_from-AreSent (suc i) text cs,
    )

    some_resolved :
        (cs : List (Column Num)) → 0 < length cs → any truthy (resolved_from p 0 cs) ≡ true
    unfolding resolved_from
    some_resolved [] h = absurd (omega arith)
    some_resolved (c ∷ cs) h = rw (resolve_model-IsOffered c 0).1 refl

  -- If no column streams, the prompt is not blank, nothing blocks the sending, and models with names are
  -- offered, then "Run all" sends the prompt once to every column, with a model that is offered and with
  -- the numbers of the column, or the shared ones if they are synced; and it empties the prompt.
  pub run_all-AreSent :
      (s : Compare Num)
      → any_streaming s.statuses s.columns ≡ false
      → truthy (trim s.draft) ≡ true
      → truthy (or_default p.blocked_reason "") ≡ false
      → 0 < length p.options
      → All (λ o. truthy o.value ≡ true) p.options
      → 0 < length s.columns
      → AreSent s.draft s.columns (on_event p run_all s).1 × ((on_event p run_all s).0.draft ≡ "")
  unfolding on_event
  run_all-AreSent s idle text free offers named some_column =
      rw runs (sends_from-AreSent offers named 0 s.draft s.columns, refl)
    where
      runs : can_run p s ≡ true
      runs =
          unfold can_run in
          rw (idle, text, free, some_resolved offers named s.columns some_column) refl
