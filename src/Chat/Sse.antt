-- ===== src/Chat/Sse.antt =====
-- useChatStream.ts, the loop of `send` that reads the event stream: lines are put together from
-- chunks, and each "data: " line carries JSON. `parse` is the engine's `JSON.parse` with the two
-- fields that are read of its result, `none` where it throws. A chunk is the decoder's text.
use wai_ai.Common.{
  ℕ, zero, suc, String, Bool, true, false, not, ◌||◌, Option, none, some, List, [], ◌∷◌, eqb,
  if◌then◌else◌, ◌==◌,
}
use Prim.Native.Char.{Char, code}
use wai_ai.Common.Text.{truthy, present, append, trim, starts_with}

-- `WireUsage`
pub record WireUsage : Type 0 where
  pub prompt_tokens : Option ℕ
  pub completion_tokens : Option ℕ
  pub total_tokens : Option ℕ

-- `choices[0].delta.content` and `usage` of an event.
pub record Delta : Type 0 where
  pub content : Option String
  pub usage : Option WireUsage

-- What the loop keeps between chunks.
pub record Reply : Type 0 where
  pub buffer : String
  pub content : String
  pub usage : Option WireUsage

abbrev pub empty_reply : Reply
empty_reply = record { buffer = ""; content = ""; usage = none }

-- One more character, a line break or not, before the lines of a text and its rest.
unfoldable pub put_char : Bool → Char → List String × String → List String × String
put_char true c (ls, r) = (String.[] ∷ ls, r)
put_char false c ([], r) = ([], String.◌∷◌ c r)
put_char false c (l ∷ ls, r) = (String.◌∷◌ c l ∷ ls, r)

-- `lines = buffer.split('\n'); buffer = lines.pop()`: the whole lines, and what follows the last.
unfoldable pub split_lines : String → List String × String
split_lines String.[] = ([], String.[])
split_lines (String.◌∷◌ c s) = put_char (eqb (code c) 10) c (split_lines s)

-- `s.slice(n)` of a text that starts with n characters of one unit.
unfoldable pub drop_text : ℕ → String → String
drop_text zero s = s
drop_text (suc n) String.[] = String.[]
drop_text (suc n) (String.◌∷◌ c s) = drop_text n s

-- `chunkContent` and `finalUsage`
abbrev pub Progress : Type 0
Progress = String × Option WireUsage

-- `if (delta) chunkContent += delta`, on what is left of `delta` if it is truthy
unfoldable pub add_text : String → Option String → String
add_text chunk none = chunk
add_text chunk (some delta) = append chunk delta

-- An event that could be parsed.
unfoldable pub take_delta : Delta → Progress → Progress
unfolding add_text
take_delta d (chunk, usage) =
    (add_text chunk (present d.content), elim d.usage [ none ↦ usage | some u ↦ some u ])

-- The body of the loop over the lines.
unfoldable pub take_line : (String → Option Delta) → String → Progress → Progress
take_line parse line p =
    let trimmed = trim line in
    if not (truthy trimmed) || trimmed == "data: [DONE]" || not (starts_with trimmed "data: ")
    then p
    else elim (parse (drop_text 6 trimmed)) [ none ↦ p | some d ↦ take_delta d p ]

unfoldable pub take_lines : (String → Option Delta) → List String → Progress → Progress
take_lines parse [] p = p
take_lines parse (l ∷ ls) p = take_lines parse ls (take_line parse l p)

-- What the lines of a chunk add, `chunkContent` first.
unfoldable pub chunk_progress : (String → Option Delta) → String → Reply → Progress
chunk_progress parse value r =
    take_lines parse (split_lines (append r.buffer value)).0 ("", r.usage)

-- The body of the loop over the chunks, on the reply.
unfoldable pub read_chunk : (String → Option Delta) → String → Reply → Reply
read_chunk parse value r =
    let p = chunk_progress parse value r in
    record {
      buffer = (split_lines (append r.buffer value)).1;
      content = if truthy p.0 then append r.content p.0 else r.content;
      usage = p.1;
    }
