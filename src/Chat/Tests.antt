-- ===== src/Chat/Tests.antt =====
-- A chat with a streamed reply that is cleared while it runs.
use wai_ai.Common.{
  ℕ, ◌≤◌, String, ◌≡◌, ◌≢◌, ◌↔◌, ◌⊎◌, refl, Bool, true, false, Option, none, some, List, [], ◌∷◌,
  arith, length, ◌==◌, if◌then◌else◌,
}
use wai_ai.Common.Int.{pos}
use wai_ai.Common.Text.{truthy, trim}
use wai_ai.Chat.Sse.{Delta, Reply, empty_reply, read_chunk}
use wai_ai.Chat.Chunks.{read_all, join_chunks, read_all-join_chunks}
use wai_ai.Chat.Requests.{ChatParams, opened, chunk, aborted, send, max_messages}
use wai_ai.Chat.Turns.{Event, sent, came, cleared, run, initial, IsSound, run-IsSound}
use wai_ai.Chat.Send.{send_lem}

-- A parser that knows two events.
abbrev parse : String → Option Delta
parse s =
    if s == "hel"
    then some (record { content = some "hel"; usage = none })
    else if s == "lo"
    then some (record { content = some "lo"; usage = none })
    else none

abbrev chunks : List String
chunks = "data: hel\n\nda" ∷ "ta: l" ∷ "o\ndata: [DONE]\n" ∷ []

read_hello : (read_all parse chunks empty_reply).content ≡ "hello"
unfolding read_all read_chunk wai_ai.Chat.Sse.chunk_progress wai_ai.Chat.Sse.split_lines
    wai_ai.Chat.Sse.put_char wai_ai.Chat.Sse.take_lines wai_ai.Chat.Sse.take_line
    wai_ai.Chat.Sse.take_delta wai_ai.Chat.Sse.drop_text wai_ai.Common.Text.append trim
    wai_ai.Common.Text.starts_with
read_hello = refl

read_all-join_chunks_example :
    read_all parse chunks empty_reply ≡ read_chunk parse (join_chunks chunks) empty_reply
read_all-join_chunks_example = read_all-join_chunks parse chunks

abbrev params : ChatParams
params = record { model = "auto"; system_prompt = "" }

abbrev events : List Event
events =
    sent "m1" (pos 0) "Hi" params
    ∷ came 0 (opened "m2")
    ∷ came 0 (chunk "data: hel\n" (pos 5))
    ∷ cleared
    ∷ sent "m3" (pos 9) "Again" params
    ∷ came 0 (aborted (pos 10))
    ∷ []

run-IsSound_example : IsSound (run parse max_messages events initial)
run-IsSound_example = run-IsSound parse max_messages events

send_lem_example :
    (((send 50 0 "m1" (pos 0) "Hi" params initial.chat).1 ≢ none) ↔ (
      (truthy params.model ≡ true)
      × (truthy (trim "Hi") ≡ true)
      × (initial.chat.in_flight ≡ false)))
    × (((send 50 0 "m1" (pos 0) "Hi" params initial.chat).1 ≢ none)
        ⊎ ((send 50 0 "m1" (pos 0) "Hi" params initial.chat).0 ≡ initial.chat))
    × (length (send 50 0 "m1" (pos 0) "Hi" params initial.chat).0.messages ≤ 50)
send_lem_example = send_lem 49 0 "m1" (pos 0) "Hi" params initial.chat (omega arith)
