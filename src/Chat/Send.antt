-- ===== src/Chat/Send.antt =====
-- What `send` starts, and how many messages it keeps.
use wai_ai.Common.{
  ℕ, suc, ◌-◌, ◌≤◌, String, ◌≡◌, ◌≢◌, ◌↔◌, ◌⊎◌, inl, inr, true, false, not, ◌||◌, none, List, [],
  ◌∷◌, ◌++◌, arith, length, length-drop, Bool-cases,
}
use wai_ai.Common.Int.{ℤ}
use wai_ai.Common.Text.{truthy, trim}
use wai_ai.Chat.Requests.{ChatMessage, Chat, ChatParams, user_message, last_messages, send}

length-last_messages : (n : ℕ) (xs : List ChatMessage) → length (last_messages (suc n) xs) ≤ suc n
unfolding last_messages
length-last_messages n xs = omega (arith, length-drop (length xs - suc n) xs)

-- A request starts exactly when a model is chosen, the text is not blank and no request is in
-- flight; else nothing changes. A list of at most the limit of messages, which is not 0, stays so.
pub send_lem :
    (limit controller : ℕ) (id : String) (now : ℤ) (content : String) (params : ChatParams)
    (s : Chat)
    → length s.messages ≤ suc limit
    → (((send (suc limit) controller id now content params s).1 ≢ none)
        ↔ ((truthy params.model ≡ true) × (truthy (trim content) ≡ true) × (s.in_flight ≡ false)))
      × (((send (suc limit) controller id now content params s).1 ≢ none)
          ⊎ ((send (suc limit) controller id now content params s).0 ≡ s))
      × (length (send (suc limit) controller id now content params s).0.messages ≤ suc limit)
unfolding send
send_lem limit controller id now content params s bound =
    elim (Bool-cases (not (truthy params.model) || not (truthy (trim content)) || s.in_flight)) [
      | inl e ↦ rw e (ground arith)
      | inr e ↦ rw e (
          ground
            (arith, length-last_messages limit (s.messages ++ user_message id (trim content) ∷ [])))
    ]
