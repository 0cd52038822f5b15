-- ===== src/Runner/Exchange/Turn/Answers.antt =====
-- What awaitTurn of internal/service/codex/runner.go sends and counts, and when it returns no error.
use symphony_go.Prelude.{
  true, false, Text, codes, text_eq, any, if◌then◌else◌, if_case, Option, none, some, List, [], ◌∷◌,
  ◌++◌, All, ok, ◌≡◌, refl, sym, ap, subst, arith, text_eq→eq,
}
use symphony_go.Observability.{Fields}
use symphony_go.Runner.Stats.{TurnStats, observe, observe_all}
use symphony_go.Runner.Exchange.{Incoming, message, garbage, broken, stopped, Writes}
use symphony_go.Runner.Exchange.Turn.{
  Execute, answer_of, Reaction, finish, refuse, answer, go_on, refused, react, TurnEnd, see,
  method_of, handle_dynamic_tool_call, after_event, await_turn,
}

-- The answers to the calls of tools among the events.
unfoldable pub answers : Execute → List (Text × Fields) → List Fields
unfolding text_eq
answers execute [] = []
answers execute ((method, payload) ∷ events) =
    let rest = answers execute events in
    if text_eq method (codes "item/tool/call")
    then elim (answer_of execute payload) [ none ↦ rest | some note ↦ note ∷ rest ]
    else rest

-- An event that does not end a turn.
abbrev pub Passing : Text × Fields → Type 0
Passing (method, payload) =
    (text_eq method (codes "turn/completed") ≡ false) × (any (text_eq method) refused ≡ false)

-- The last event is the completion of the turn, and none before it ends a turn.
abbrev pub Completed : List (Text × Fields) → Type 0
Completed events =
    (before : List (Text × Fields)) × (payload : Fields) × (events
      ≡ before ++ ((codes "turn/completed", payload) ∷ []))
    × All Passing before

abbrev pub Accounted : Execute → TurnStats → TurnEnd → Type 0
Accounted execute s t =
    (t.sent ≡ answers execute t.events)
    × (t.stats ≡ observe_all t.events s)
    × (t.result ≡ ok tt → Completed t.events)

finish_is : (method : Text) → react method ≡ finish → method ≡ codes "turn/completed"
unfolding react
finish_is method h = text_eq→eq method (codes "turn/completed") (ground (arith, h))

completed_is_no_call :
    (method : Text)
    → method ≡ codes "turn/completed"
    → text_eq method (codes "item/tool/call") ≡ false
unfolding text_eq
completed_is_no_call method h = subst (λ m. text_eq m (codes "item/tool/call") ≡ false) (sym h) refl

refuse_is :
    (method : Text) → react method ≡ refuse → text_eq method (codes "item/tool/call") ≡ false
unfolding react
refuse_is method h = ground (arith, h)

call_is_passing : any (text_eq (codes "item/tool/call")) refused ≡ false
unfolding any text_eq
call_is_passing = refl

answer_is :
    (method : Text) (payload : Fields)
    → react method ≡ answer
    → (text_eq method (codes "item/tool/call") ≡ true) × Passing (method, payload)
unfolding react
answer_is method payload h =
    let call : text_eq method (codes "item/tool/call") ≡ true = ground (arith, h) in
    let is = text_eq→eq method (codes "item/tool/call") call in
    (
      call,
      (ground (arith, h), subst (λ m. any (text_eq m) refused ≡ false) (sym is) call_is_passing),
    )

go_on_is :
    (method : Text) (payload : Fields)
    → react method ≡ go_on
    → (text_eq method (codes "item/tool/call") ≡ false) × Passing (method, payload)
unfolding react
go_on_is method payload h = (ground (arith, h), (ground (arith, h), ground (arith, h)))

-- One passing event in front.
Completed-cons :
    (event : Text × Fields) (events : List (Text × Fields))
    → Passing event
    → Completed events
    → Completed (event ∷ events)
Completed-cons event events p (before, payload, e, h) =
    (event ∷ before, payload, ap (λ es. event ∷ es) e, (p, h))

module _ (writes : Writes) (execute : Execute)
    (writable : (note : Fields) → writes note ≡ true) where
  handled-Accounted :
      (method : Text) (payload : Fields) (s : TurnStats) (lines : List Incoming) (later : TurnEnd)
      (note : Option Fields)
      → answer_of execute payload ≡ note
      → text_eq method (codes "item/tool/call") ≡ true
      → Passing (method, payload)
      → Accounted execute (observe method payload s) later
      → Accounted execute s (
          see
            (method, payload)
            (handle_dynamic_tool_call writes note (observe method payload s) lines later))
  unfolding handle_dynamic_tool_call observe_all answers
  handled-Accounted method payload s lines later none e call passing acc =
      (rw (call, e) refl, refl, λ e. cc)
  handled-Accounted method payload s lines later (some note) e call passing (sent, stats, done) =
      if_case (λ (t : TurnEnd). Accounted execute s (see (method, payload) t)) (writes note)
        (λ _. (
          rw (call, e) (ap (λ notes. note ∷ notes) sent),
          stats,
          λ ok_is. Completed-cons (method, payload) later.events passing (done ok_is),
        ))
        (λ closed. absurd (ground (arith, writable note, closed)))

  after_event-Accounted :
      (method : Text) (payload : Fields) (s : TurnStats) (lines : List Incoming) (later : TurnEnd)
      (r : Reaction)
      → react method ≡ r
      → Accounted execute (observe method payload s) later
      → Accounted execute s (
          see
            (method, payload)
            (after_event writes execute method payload (observe method payload s) lines later r))
  unfolding after_event observe_all answers
  after_event-Accounted method payload s lines later finish h acc =
      let is = finish_is method h in
      (
        rw (completed_is_no_call method is) refl,
        refl,
        λ _. ([], payload, ap (λ m. (m, payload) ∷ []) is, tt),
      )
  after_event-Accounted method payload s lines later refuse h acc =
      (rw (refuse_is method h) refl, refl, λ e. cc)
  after_event-Accounted method payload s lines later answer h acc =
      let (call, passing) = answer_is method payload h in
      handled-Accounted method payload s lines later (answer_of execute payload) refl call passing
        acc
  after_event-Accounted method payload s lines later go_on h (sent, stats, done) =
      let (no_call, passing) = go_on_is method payload h in
      (
        rw (no_call, sent) refl,
        stats,
        λ e. Completed-cons (method, payload) later.events passing (done e),
      )

  -- Let the server's input take every message. In a turn, the messages sent are the answers to the calls of
  -- tools that the turn saw, one for each call with an id, in their order; the statistics are those of the
  -- events seen; and where the turn ends without an error, its last event is turn/completed, and no event
  -- before it is one that ends a turn: no failure and no request for input or approval.
  pub await_turn-Accounted :
      (lines : List Incoming) (s : TurnStats)
      → Accounted execute s (await_turn writes execute lines s)
  unfolding await_turn observe_all answers
  await_turn-Accounted [] s = (refl, refl, λ h. cc)
  await_turn-Accounted (stopped why ∷ lines) s = (refl, refl, λ h. cc)
  await_turn-Accounted (broken why ∷ lines) s = (refl, refl, λ h. cc)
  await_turn-Accounted (garbage ∷ lines) s = await_turn-Accounted lines s
  await_turn-Accounted (message payload ∷ lines) s =
      let now = observe (method_of payload) payload s in
      after_event-Accounted (method_of payload) payload s lines
        (await_turn writes execute lines now) (react (method_of payload)) refl
        (await_turn-Accounted lines now)
