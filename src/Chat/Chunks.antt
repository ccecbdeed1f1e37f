-- ===== src/Chat/Chunks.antt =====
-- The reply does not depend on how the stream is cut into chunks.
use wai_ai.Common.{
  String, ◌≡◌, refl, sym, ap, ◌∙◌, Bool, true, false, Option, none, some, List, [], ◌∷◌, ◌++◌,
  Bool-cases, Option-cases, not, ◌||◌, ◌==◌, inl, inr, eqb, if◌then◌else◌,
}
use Prim.Native.Char.{Char, code}
use wai_ai.Common.Text.{truthy, present, append, trim, starts_with}
use wai_ai.Common.Text.Prefix.{append_assoc, append-nil}
use wai_ai.Chat.Sse.{
  Delta, Reply, empty_reply, put_char, split_lines, Progress, add_text, take_delta, take_line,
  drop_text, take_lines, chunk_progress, read_chunk,
}

-- The lines of two texts, the second of which continues the rest of the first.
abbrev continue_lines : List String × String → String → List String × String
continue_lines p b = (p.0 ++ (split_lines (append p.1 b)).0, (split_lines (append p.1 b)).1)

put_char-continue_lines :
    (nl : Bool) (c : Char) (p : List String × String) (b : String)
    → eqb (code c) 10 ≡ nl
    → put_char nl c (continue_lines p b) ≡ continue_lines (put_char nl c p) b
unfolding put_char split_lines append
put_char-continue_lines true c (ls, r) b e = refl
put_char-continue_lines false c ([], r) b e = rw e refl
put_char-continue_lines false c (l ∷ ls, r) b e = refl

split_lines-append : (a b : String) → split_lines (append a b) ≡ continue_lines (split_lines a) b
unfolding split_lines append
split_lines-append String.[] b = refl
split_lines-append (String.◌∷◌ c a) b =
    ap (put_char (eqb (code c) 10) c) (split_lines-append a b)
    ∙ put_char-continue_lines (eqb (code c) 10) c (split_lines a) b refl

take_lines-append :
    (parse : String → Option Delta) (xs ys : List String) (p : Progress)
    → take_lines parse (xs ++ ys) p ≡ take_lines parse ys (take_lines parse xs p)
unfolding take_lines
take_lines-append parse [] ys p = refl
take_lines-append parse (x ∷ xs) ys p = take_lines-append parse xs ys (take_line parse x p)

-- The content before the chunk stays in front of what is read.
abbrev after_content : String → Progress → Progress
after_content s p = (append s p.0, p.1)

add_text-append :
    (s c : String) (o : Option String) → add_text (append s c) o ≡ append s (add_text c o)
unfolding add_text
add_text-append s c none = refl
add_text-append s c (some x) = append_assoc s c x

take_delta-after_content :
    (d : Delta) (s : String) (p : Progress)
    → take_delta d (after_content s p) ≡ after_content s (take_delta d p)
unfolding take_delta
take_delta-after_content d s (c, u) =
    ap (λ t. (t, elim d.usage [ none ↦ u | some v ↦ some v ]))
      (add_text-append s c (present d.content))

take_line-after_content :
    (parse : String → Option Delta) (l s : String) (p : Progress)
    → take_line parse l (after_content s p) ≡ after_content s (take_line parse l p)
unfolding take_line
take_line-after_content parse l s p =
    let trimmed = trim l in
    elim (Bool-cases
      (not (truthy trimmed) || trimmed == "data: [DONE]" || not (starts_with trimmed "data: "))) [
        | inl e ↦ rw e refl
        | inr e ↦ elim (Option-cases (parse (drop_text 6 trimmed))) [
          | inl k ↦ rw (e, k) refl
          | inr (d, k) ↦ rw (e, k) (take_delta-after_content d s p)
        ]
      ]

take_lines-after_content :
    (parse : String → Option Delta) (ls : List String) (s : String) (p : Progress)
    → take_lines parse ls (after_content s p) ≡ after_content s (take_lines parse ls p)
unfolding take_lines
take_lines-after_content parse [] s p = refl
take_lines-after_content parse (l ∷ ls) s p =
    ap (take_lines parse ls) (take_line-after_content parse l s p)
    ∙ take_lines-after_content parse ls s (take_line parse l p)

if-truthy : (s t : String) → (if truthy t then append s t else s) ≡ append s t
if-truthy s String.[] = sym (append-nil s)
if-truthy s (String.◌∷◌ c t) = refl

-- Two texts added one by one, or at once.
added :
    (s t u : String)
    → (if truthy u
        then append (if truthy t then append s t else s) u
        else (if truthy t then append s t else s))
      ≡ (if truthy (append t u) then append s (append t u) else s)
added s t u =
    if-truthy (if truthy t then append s t else s) u
    ∙ ap (λ x. append x u) (if-truthy s t)
    ∙ append_assoc s t u
    ∙ sym (if-truthy s (append t u))

-- Two chunks read as one.
read_chunk-append :
    (parse : String → Option Delta) (a b : String) (r : Reply)
    → read_chunk parse b (read_chunk parse a r) ≡ read_chunk parse (append a b) r
unfolding read_chunk chunk_progress
read_chunk-append parse a b r =
    let first = split_lines (append r.buffer a) in
    let second = split_lines (append first.1 b) in
    let p = take_lines parse first.0 ("", r.usage) in
    let whole : split_lines (append r.buffer (append a b)) ≡ continue_lines first b =
      ap split_lines (sym (append_assoc r.buffer a b)) ∙ split_lines-append (append r.buffer a) b in
    let read : take_lines parse (first.0 ++ second.0) ("", r.usage)
        ≡ after_content p.0 (take_lines parse second.0 ("", p.1)) =
      take_lines-append parse first.0 second.0 ("", r.usage)
      ∙ ap (λ x. take_lines parse second.0 (x, p.1)) (sym (append-nil p.0))
      ∙ take_lines-after_content parse second.0 p.0 ("", p.1) in
    let q = take_lines parse second.0 ("", p.1) in
    rw (whole, read)
      (ap (λ s. record { buffer = second.1; content = s; usage = q.1 }) (added r.content p.0 q.0))

unfoldable pub read_all : (String → Option Delta) → List String → Reply → Reply
read_all parse [] r = r
read_all parse (c ∷ cs) r = read_all parse cs (read_chunk parse c r)

unfoldable pub join_chunks : List String → String
join_chunks [] = ""
join_chunks (c ∷ cs) = append c (join_chunks cs)

read_all-after :
    (parse : String → Option Delta) (cs : List String) (a : String)
    → read_all parse cs (read_chunk parse a empty_reply)
      ≡ read_chunk parse (append a (join_chunks cs)) empty_reply
unfolding read_all join_chunks
read_all-after parse [] a = rw (append-nil a) refl
read_all-after parse (c ∷ cs) a = rw (read_chunk-append parse a c empty_reply) (
    read_all-after parse cs (append a c)
    ∙ ap (λ s. read_chunk parse s empty_reply) (append_assoc a c (join_chunks cs)))

nothing_read : (parse : String → Option Delta) → read_chunk parse "" empty_reply ≡ empty_reply
unfolding read_chunk chunk_progress split_lines take_lines append
nothing_read parse = refl

-- However a stream is cut into chunks, the content, the usage and the unfinished line that the loop
-- has read are those of the whole stream in one chunk.
pub read_all-join_chunks :
    (parse : String → Option Delta) (cs : List String)
    → read_all parse cs empty_reply ≡ read_chunk parse (join_chunks cs) empty_reply
unfolding join_chunks append
read_all-join_chunks parse cs =
    ap (read_all parse cs) (sym (nothing_read parse)) ∙ read_all-after parse cs ""
