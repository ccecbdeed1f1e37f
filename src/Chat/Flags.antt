-- ===== src/Chat/Flags.antt =====
-- What the outcomes of a request do to the flags of the chat.
use wai_ai.Common.{
  String, ◌≡◌, ◌⊎◌, inl, inr, refl, Bool, true, false, Option, none, some, arith, or_default,
  if◌then◌else◌,
}
use wai_ai.Common.Int.{ℤ}
use wai_ai.Common.Text.{truthy}
use wai_ai.Chat.Sse.{Delta, chunk_progress}
use wai_ai.Chat.Requests.{
  Chat, Request, Outcome, unauthorized, refused, no_reader, opened, chunk, done, replied, aborted,
  failed, stop, patch_message, is_current, finish, settle, answer, receive_chunk, show_content,
  with_reply, add_assistant,
}

-- The fields of the chat that the invariant is about.
abbrev pub SameFlags : Chat → Chat → Type 0
SameFlags a b =
    (a.in_flight ≡ b.in_flight) × (a.is_streaming ≡ b.is_streaming) × (a.abort_ref ≡ b.abort_ref)

finish-SameFlags : (b : Bool) (now : ℤ) (r : Request) (s : Chat) → SameFlags (finish b now r s) s
unfolding finish patch_message
finish-SameFlags b now r s = ground arith

pub stop-SameFlags : (s : Chat) → SameFlags (stop s) s
unfolding stop
stop-SameFlags s = ground arith

-- The flags after a request has ended.
abbrev pub Ended : Request → Chat → Chat → Type 0
Ended r s t =
    (t.abort_ref ≡ s.abort_ref)
    × (t.in_flight ≡ (if is_current r s then false else s.in_flight))
    × (t.is_streaming ≡ (if is_current r s then false else s.is_streaming))

settle-Ended : (r : Request) (s t : Chat) → SameFlags t s → Ended r s (settle r t)
unfolding settle is_current
settle-Ended r s t (a, b, c) = rw c (ground (arith, a, b, c))

SameFlags-if : (b : Bool) (s t : Chat) → SameFlags s t → SameFlags (if b then s else t) t
SameFlags-if true s t h = h
SameFlags-if false s t h = (refl, refl, refl)

show_content-SameFlags : (r : Request) (s : Chat) → SameFlags (show_content r s) s
unfolding show_content patch_message
show_content-SameFlags r s = ground arith

-- What an answer does to the flags: the request goes on and they stay, or it ends.
abbrev pub Answered : Request → Chat → Chat × Option Request → Type 0
Answered r s p =
    (SameFlags p.0 s × ((q : Request) × (p.1 ≡ some q) × (q.controller ≡ r.controller)))
    ⊎ (Ended r s p.0 × (p.1 ≡ none))

pub answer-Answered :
    (parse : String → Option Delta) (o : Outcome) (r : Request) (s : Chat)
    → Answered r s (answer parse o r s)
unfolding answer
answer-Answered parse (unauthorized code message) r s =
    inr (settle-Ended r s (record s { error = _ }) (refl, refl, refl), refl)
answer-Answered parse (refused message) r s =
    inr (settle-Ended r s (record s { error = _ }) (refl, refl, refl), refl)
answer-Answered parse no_reader r s =
    inr (settle-Ended r s (record s { error = _ }) (refl, refl, refl), refl)
answer-Answered parse (opened id) r s = inl ((refl, refl, refl), (_, refl, refl))
answer-Answered parse (chunk value now) r s = inl (
  SameFlags-if (truthy (chunk_progress parse value r.reply).0)
      (show_content (receive_chunk parse value now r) s) s
      (show_content-SameFlags (receive_chunk parse value now r) s),
  (receive_chunk parse value now r, refl, unfold receive_chunk in refl),
)
answer-Answered parse (done now) r s =
    inr (settle-Ended r s (finish false now r s) (finish-SameFlags false now r s), refl)
answer-Answered parse (replied id content usage now) r s =
    let whole = with_reply id (or_default content "") usage r in
    let shown = add_assistant id (or_default content "") s in
    inr (
      settle-Ended r s (finish false now whole shown) (finish-SameFlags false now whole shown),
      refl,
    )
answer-Answered parse (aborted now) r s = inr (
  settle-Ended r s (if is_current r s then finish true now r s else s)
      (SameFlags-if (is_current r s) (finish true now r s) s (finish-SameFlags true now r s)),
  refl,
)
answer-Answered parse (failed message) r s =
    inr (settle-Ended r s (record s { error = _ }) (refl, refl, refl), refl)
