-- ===== src/Chat/Requests.antt =====
-- useChatStream.ts: the state of the hook, `send`, `stop` and `clear`, and what the request of a
-- `send` does when something comes back. A request is known by the number of its AbortController.
-- The ids of new messages and the clock come with the call, as do the texts of an error body.
use wai_ai.Common.{
  ℕ, zero, suc, ◌-◌, String, Bool, true, false, not, ◌||◌, Option, none, some, List, [], ◌∷◌, ◌++◌,
  map, length, drop, eqb, ltb, or_default, if◌then◌else◌, ◌==◌,
}
use wai_ai.Common.Int.{ℤ, ◌-ℤ◌}
use wai_ai.Common.Text.{truthy, append, trim, units, slice_start}
use wai_ai.Chat.Sse.{WireUsage, Delta, Reply, empty_reply, chunk_progress, read_chunk}

-- `MessageMetrics`
pub record Metrics : Type 0 where
  pub latency_ms : ℤ
  pub ttft_ms : Option ℤ
  pub prompt_tokens : Option ℕ
  pub completion_tokens : Option ℕ
  pub total_tokens : Option ℕ
  pub stopped : Bool

pub data Role : Type 0 where
  system user assistant : Role

pub record ChatMessage : Type 0 where
  pub id : String
  pub role : Role
  pub content : String
  pub metrics : Option Metrics

-- `duration` is kept in milliseconds, of which the code takes a thousandth.
pub record UsageInfo : Type 0 where
  pub prompt_tokens : ℕ
  pub completion_tokens : ℕ
  pub total_tokens : ℕ
  pub duration : ℤ

-- The states and refs of the hook; `aborted` lists the controllers that were aborted.
pub record Chat : Type 0 where
  pub messages : List ChatMessage
  pub is_streaming : Bool
  pub error : Option String
  pub usage : Option UsageInfo
  pub abort_ref : Option ℕ
  pub in_flight : Bool
  pub aborted : List ℕ

-- The local variables of a `send` under way, and the messages of its body.
pub record Request : Type 0 where
  pub controller : ℕ
  pub payload : List (Role × String)
  pub start : ℤ
  pub assistant_id : Option String
  pub reply : Reply
  pub ttft_ms : Option ℤ

pub record ChatParams : Type 0 where
  pub model : String
  pub system_prompt : String

abbrev pub max_messages : ℕ
max_messages = 50

-- `xs.slice(-n)`; -0 is 0.
unfoldable pub last_messages : ℕ → List ChatMessage → List ChatMessage
last_messages zero xs = xs
last_messages (suc n) xs = drop (length xs - suc n) xs

-- `abortRef.current?.abort()`
unfoldable pub stop : Chat → Chat
stop s = elim s.abort_ref [ none ↦ s | some k ↦ record s { aborted = k ∷ s.aborted } ]

-- `patchMessage` with a content and perhaps metrics.
unfoldable pub patch_message : String → String → Option Metrics → Chat → Chat
patch_message id content metrics s = record s {
  messages =
      map
        (λ m.
          if m.id == id
          then record m {
            content = content;
            metrics = elim metrics [ none ↦ m.metrics | some x ↦ some x ];
          }
          else m)
        s.messages;
}

-- `payloadMessages`
unfoldable pub payload_messages : String → List ChatMessage → List (Role × String)
payload_messages system_prompt history =
    (if truthy (trim system_prompt) then (system, trim system_prompt) ∷ [] else [])
    ++ map (λ m. (m.role, m.content)) history

-- `userMessage`
abbrev pub user_message : String → String → ChatMessage
user_message id text = record { id = id; role = user; content = text; metrics = none }

-- `send`, until the request is on its way: the new state, and the request if there is one.
unfoldable pub send : ℕ → ℕ → String → ℤ → String → ChatParams → Chat → Chat × Option Request
unfolding stop last_messages payload_messages
send limit controller id now content params s =
    let text = trim content in
    if not (truthy params.model) || not (truthy text) || s.in_flight
    then (s, none)
    else let history = last_messages limit (s.messages ++ user_message id text ∷ []) in
      (
        record (stop s) {
          abort_ref = some controller;
          in_flight = true;
          messages = history;
          is_streaming = true;
          error = none;
        },
        some (record {
          controller = controller;
          payload = payload_messages params.system_prompt history;
          start = now;
          assistant_id = none;
          reply = empty_reply;
          ttft_ms = none;
        }),
      )

-- `controller === abortRef.current`
unfoldable pub is_current : Request → Chat → Bool
is_current r s = elim s.abort_ref [ none ↦ false | some k ↦ eqb r.controller k ]

-- `finish`
unfoldable pub finish : Bool → ℤ → Request → Chat → Chat
unfolding patch_message
finish stopped now r s =
    let latency = now -ℤ r.start in
    let count : (WireUsage → Option ℕ) → Option ℕ =
      λ f. elim r.reply.usage [ none ↦ none | some u ↦ some (or_default (f u) 0) ] in
    let metrics : Metrics = record {
      latency_ms = latency;
      ttft_ms = r.ttft_ms;
      prompt_tokens = count (λ u. u.prompt_tokens);
      completion_tokens = count (λ u. u.completion_tokens);
      total_tokens = count (λ u. u.total_tokens);
      stopped = stopped;
    } in
    let patched : Chat = elim r.assistant_id [
      | none ↦ s
      | some id ↦ if truthy id then patch_message id r.reply.content (some metrics) s else s
    ] in
    record patched {
      usage = elim r.reply.usage [
        | none ↦ none
        | some u ↦ some (record {
          prompt_tokens = or_default u.prompt_tokens 0;
          completion_tokens = or_default u.completion_tokens 0;
          total_tokens = or_default u.total_tokens 0;
          duration = latency;
        })
      ];
    }

-- The `finally` of `send`.
unfoldable pub settle : Request → Chat → Chat
unfolding is_current
settle r s = if is_current r s then record s { in_flight = false; is_streaming = false } else s

-- `truncateError` (proxy.ts)
unfoldable pub truncate_error : String → String
truncate_error message =
    if ltb 200 (length (units message)) then append (slice_start 200 message) "..." else message

-- What comes back to a request, a step of its `await`s at a time. `unauthorized` has the code of a
-- 401 body and `refused` the text that `parseProxyError` makes of another; `replied` is the whole
-- body when the request does not stream.
pub data Outcome : Type 0 where
  unauthorized : Option String → String → Outcome
  refused : String → Outcome
  no_reader : Outcome
  opened : String → Outcome
  chunk : String → ℤ → Outcome
  done : ℤ → Outcome
  replied : String → Option String → Option WireUsage → ℤ → Outcome
  aborted : ℤ → Outcome
  failed : String → Outcome

abbrev session_expired : String
session_expired =
    "Session expired or invalid. Log in again or paste a user/team API key in settings."

abbrev upstream_failed : String
upstream_failed = "Upstream authentication failed. Check the model API key in Models settings."

-- The error of a 401.
unfoldable pub unauthorized_error : Option String → String → String
unauthorized_error code message =
    if elim code [ none ↦ false | some c ↦ c == "unauthorized" ]
    then session_expired
    else if truthy message
    then message
    else upstream_failed

-- A new message of the assistant.
abbrev pub add_assistant : String → String → Chat → Chat
add_assistant id content s = record s {
  messages =
      s.messages ++ record { id = id; role = assistant; content = content; metrics = none } ∷ [];
}

-- The request of a reply that came whole.
abbrev pub with_reply : String → String → Option WireUsage → Request → Request
with_reply id text usage r = record r {
  assistant_id = some id;
  reply = record { buffer = ""; content = text; usage = usage };
}

-- The message after a chunk.
unfoldable pub show_content : Request → Chat → Chat
unfolding patch_message
show_content r s = elim r.assistant_id [
  | none ↦ s
  | some id ↦ patch_message id r.reply.content none s
]

-- What a chunk changes of the request: the reply, and the time to the first content.
unfoldable pub receive_chunk : (String → Option Delta) → String → ℤ → Request → Request
receive_chunk parse value now r = record r {
  reply = read_chunk parse value r.reply;
  ttft_ms =
      if truthy (chunk_progress parse value r.reply).0
      then some (or_default r.ttft_ms (now -ℤ r.start))
      else r.ttft_ms;
}

-- The rest of `send`: the new state, and the request if it goes on.
unfoldable pub answer : (String → Option Delta) → Outcome → Request → Chat → Chat × Option Request
unfolding settle finish truncate_error unauthorized_error receive_chunk show_content
answer parse (unauthorized code message) r s =
    (settle r (record s { error = some (unauthorized_error code message) }), none)
answer parse (refused message) r s =
    (settle r (record s { error = some (truncate_error message) }), none)
answer parse no_reader r s = (settle r (record s { error = some "Streaming not supported" }), none)
answer parse (opened id) r s = (add_assistant id "" s, some (record r { assistant_id = some id }))
answer parse (chunk value now) r s =
    let after = receive_chunk parse value now r in
    (if truthy (chunk_progress parse value r.reply).0 then show_content after s else s, some after)
answer parse (done now) r s = (settle r (finish false now r s), none)
answer parse (replied id content usage now) r s =
    let text = or_default content "" in
    (settle r (finish false now (with_reply id text usage r) (add_assistant id text s)), none)
answer parse (aborted now) r s =
    (settle r (if is_current r s then finish true now r s else s), none)
answer parse (failed message) r s =
    (settle r (record s { error = some (truncate_error message) }), none)

-- `clear`
unfoldable pub clear : Chat → Chat
unfolding stop
clear s = record (stop s) {
  abort_ref = none;
  in_flight = false;
  is_streaming = false;
  messages = [];
  usage = none;
  error = none;
}
