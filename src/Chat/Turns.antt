-- ===== src/Chat/Turns.antt =====
-- The requests of a chat in any order of calls and outcomes: what is under way, and what an old
-- request cannot change.
use wai_ai.Common.{
  ℕ, suc, ◌<◌, String, ◌≡◌, ◌≢◌, inl, inr, refl, sym, ap, ◌∙◌, Bool, true, false, not, ◌||◌, Option,
  none, some, List, [], ◌∷◌, arith, filter, any, find, eqb, if◌then◌else◌, All, All-filter,
  Bool-cases, Option-cases, eqb_iff,
}
use wai_ai.Common.Int.{ℤ}
use wai_ai.Common.Text.{truthy, trim}
use wai_ai.Chat.Sse.{Delta}
use wai_ai.Chat.Flags.{Answered, answer-Answered, stop-SameFlags}
use wai_ai.Chat.Requests.{Chat, ChatParams, Request, Outcome, stop, send, is_current, answer, clear}

-- The chat, the requests under way, and the number of the next controller.
pub record World : Type 0 where
  pub chat : Chat
  pub requests : List Request
  pub next : ℕ

pub data Event : Type 0 where
  sent : String → ℤ → String → ChatParams → Event
  came : ℕ → Outcome → Event
  stopped : Event
  cleared : Event

abbrev without : ℕ → List Request → List Request
without k rs = filter (λ q. not (eqb q.controller k)) rs

-- The requests after one of them has moved on or ended.
abbrev replace : ℕ → Option Request → List Request → List Request
replace k none rs = without k rs
replace k (some r) rs = r ∷ without k rs

unfoldable pub step : (String → Option Delta) → ℕ → Event → World → World
step parse limit (sent id now content params) w =
    let (chat, request) = send limit w.next id now content params w.chat in
    record {
      chat = chat;
      requests = elim request [ none ↦ w.requests | some r ↦ r ∷ w.requests ];
      next = suc w.next;
    }
step parse limit (came k outcome) w = elim (find (λ r. eqb r.controller k) w.requests) [
  | none ↦ w
  | some r ↦
      let (chat, request) = answer parse outcome r w.chat in
      record w { chat = chat; requests = replace k request w.requests }
]
step parse limit stopped w = record w { chat = stop w.chat }
step parse limit cleared w = record w { chat = clear w.chat }

unfoldable pub run : (String → Option Delta) → ℕ → List Event → World → World
run parse limit [] w = w
run parse limit (e ∷ es) w = run parse limit es (step parse limit e w)

-- The hook before any call.
abbrev pub initial : World
initial = record {
  chat = record {
    messages = [];
    is_streaming = false;
    error = none;
    usage = none;
    abort_ref = none;
    in_flight = false;
    aborted = [];
  };
  requests = [];
  next = 0;
}

abbrev has_request : ℕ → List Request → Bool
has_request k rs = any (λ r. eqb r.controller k) rs

-- The request of the current controller is under way.
abbrev pub is_live : Option ℕ → List Request → Bool
is_live none rs = false
is_live (some k) rs = has_request k rs

-- The chat is in flight, and shows that it streams, exactly while the request of its controller is
-- under way; and controllers are numbered in order.
pub record IsSound (w : World) : Type 0 where
  pub flag : w.chat.in_flight ≡ is_live w.chat.abort_ref w.requests
  pub shown : w.chat.is_streaming ≡ w.chat.in_flight
  pub numbered : All (λ r. r.controller < w.next) w.requests

-- Which requests are there after one of them has moved on or ended.
has_request-without_self : (k : ℕ) (rs : List Request) → has_request k (without k rs) ≡ false
has_request-without_self k [] = refl
has_request-without_self k (r ∷ rs) = ground (arith, has_request-without_self k rs)

has_request-without_other :
    (j k : ℕ) (rs : List Request) → j ≢ k → has_request j (without k rs) ≡ has_request j rs
has_request-without_other j k [] h = refl
has_request-without_other j k (r ∷ rs) h = ground (arith, has_request-without_other j k rs h)

find-has_request :
    (k : ℕ) (rs : List Request) (n : ℕ) (r : Request)
    → find (λ q. eqb q.controller k) rs ≡ some r
    → All (λ q. q.controller < n) rs
    → (r.controller ≡ k) × (has_request k rs ≡ true) × (r.controller < n)
find-has_request k [] n r e h = absurd (ground arith)
find-has_request k (q ∷ rs) n r e (lt, h) = elim (Bool-cases (eqb q.controller k)) [
  | inl same ↦ ground (arith, eqb_iff q.controller k)
  | inr other ↦ ground (arith, find-has_request k rs n r (rw other at e) h)
]

-- A request that has moved on stands for the one before.
has_request-moved :
    (j k : ℕ) (q : Request) (rs : List Request)
    → q.controller ≡ k
    → has_request k rs ≡ true
    → has_request j (q ∷ without k rs) ≡ has_request j rs
has_request-moved j k q rs same there = elim (Bool-cases (eqb j k)) [
  | inl e ↦ ground (arith, eqb_iff j k, eqb_iff q.controller j)
  | inr e ↦ ground (arith, eqb_iff j k, eqb_iff q.controller j, has_request-without_other j k rs)
]

is_live-moved :
    (o : Option ℕ) (k : ℕ) (q : Request) (rs : List Request)
    → q.controller ≡ k
    → has_request k rs ≡ true
    → is_live o (q ∷ without k rs) ≡ is_live o rs
is_live-moved none k q rs same there = refl
is_live-moved (some j) k q rs same there = has_request-moved j k q rs same there

-- When a request ends, the flags follow.
is_live-ended :
    (r : Request) (s : Chat) (rs : List Request)
    → s.in_flight ≡ is_live s.abort_ref rs
    → (if is_current r s then false else s.in_flight)
      ≡ is_live s.abort_ref (without r.controller rs)
is_live-ended r s rs h = ended s.abort_ref refl
  where
    ended :
        (o : Option ℕ)
        → s.abort_ref ≡ o
        → (if is_current r s then false else s.in_flight) ≡ is_live o (without r.controller rs)
    ended none e = unfold is_current in rw e (h ∙ ap (λ x. is_live x rs) e)
    ended (some j) e = elim (Bool-cases (eqb r.controller j)) [
      | inl same ↦
          unfold is_current in
          rw (e, same)
            (ground (
              arith,
              eqb_iff r.controller j,
              has_request-without_self j rs,
              ap (λ k. has_request j (without k rs)) ((eqb_iff r.controller j).0 same),
            ))
      | inr other ↦
          unfold is_current in
          rw (e, other)
            (ground (
              arith,
              h ∙ ap (λ x. is_live x rs) e,
              eqb_iff j r.controller,
              eqb_iff r.controller j,
              has_request-without_other j r.controller rs,
            ))
    ]

came-IsSound :
    (w : World) (k : ℕ) (r : Request) (p : Chat × Option Request)
    → IsSound w
    → r.controller ≡ k
    → has_request k w.requests ≡ true
    → r.controller < w.next
    → Answered r w.chat p
    → IsSound (record w { chat = p.0; requests = replace k p.1 w.requests })
came-IsSound w k r p sound same there lt (inl ((a, b, c), (q, e, f))) = rw e (record {
  flag =
      a ∙ sound.flag ∙ sym (rw c (is_live-moved w.chat.abort_ref k q w.requests (f ∙ same) there));
  shown = b ∙ sound.shown ∙ sym a;
  numbered = (
    rw f lt,
    All-filter (λ x. x.controller < w.next) (λ x. not (eqb x.controller k)) w.requests
        sound.numbered,
  );
})
came-IsSound w k r p sound same there lt (inr ((c, a, b), e)) = rw e (record {
  flag = a ∙ rw c (rw (sym same) (is_live-ended r w.chat w.requests sound.flag));
  shown = rw (a, b, sound.shown) refl;
  numbered =
      All-filter (λ x. x.controller < w.next) (λ x. not (eqb x.controller k)) w.requests
        sound.numbered;
})

All-suc :
    (n : ℕ) (rs : List Request)
    → All (λ x. x.controller < n) rs
    → All (λ x. x.controller < suc n) rs
All-suc n [] h = tt
All-suc n (r ∷ rs) (lt, h) = (omega arith, All-suc n rs h)

step-IsSound :
    (parse : String → Option Delta) (limit : ℕ) (e : Event) (w : World)
    → IsSound w
    → IsSound (step parse limit e w)
unfolding step
step-IsSound parse limit (sent id now content params) w s =
    elim (Bool-cases
      (not (truthy params.model) || not (truthy (trim content)) || w.chat.in_flight)) [
        | inl refused_ ↦
            unfold send in
            rw refused_ (record {
              flag = s.flag;
              shown = s.shown;
              numbered = All-suc w.next w.requests s.numbered;
            })
        | inr starts ↦
            unfold send in
            rw starts (record {
              flag = ground arith;
              shown = refl;
              numbered = (omega arith, All-suc w.next w.requests s.numbered);
            })
      ]
step-IsSound parse limit (came k o) w s =
    elim (Option-cases (find (λ r. eqb r.controller k) w.requests)) [
      | inl none_there ↦ rw (none_there, step) s
      | inr (r, there) ↦
          let (same, has, lt) = find-has_request k w.requests w.next r there s.numbered in
          rw (there, step)
            (came-IsSound w k r (answer parse o r w.chat) s same has lt
              (answer-Answered parse o r w.chat))
    ]
step-IsSound parse limit stopped w s =
    let (a, b, c) = stop-SameFlags w.chat in
    record { flag = rw (a, c) s.flag; shown = rw (a, b) s.shown; numbered = s.numbered }
step-IsSound parse limit cleared w s =
    unfold clear in record { flag = refl; shown = refl; numbered = s.numbered }

run_keeps :
    (parse : String → Option Delta) (limit : ℕ) (es : List Event) (w : World)
    → IsSound w
    → IsSound (run parse limit es w)
unfolding run
run_keeps parse limit [] w s = s
run_keeps parse limit (e ∷ es) w s =
    run_keeps parse limit es (step parse limit e w) (step-IsSound parse limit e w s)

-- Whatever is called and whatever comes back, in any order, the chat is in flight, and shows that it
-- streams, exactly while the request of its current controller is under way.
pub run-IsSound :
    (parse : String → Option Delta) (limit : ℕ) (es : List Event)
    → IsSound (run parse limit es initial)
run-IsSound parse limit es =
    run_keeps parse limit es initial (record { flag = refl; shown = refl; numbered = tt })
