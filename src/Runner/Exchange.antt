-- ===== src/Runner/Exchange.antt =====
-- The session of internal/service/codex/runner.go with the Codex app server: JSON messages, one for each
-- line. What comes in is a list; where it ends nothing more comes, and the timer of the waiting call fires.
pub mod Responses
pub mod Thread
pub mod Turn
use symphony_go.Prelude.{
  ℕ, ◌==◌, ℤ, pos, negsuc, Bool, true, false, ◌||◌, Text, codes, text_eq, trim_space, any,
  if◌then◌else◌, Option, none, some, List, [], ◌∷◌, ◌++◌, Result, ok, err,
}
use symphony_go.Observability.{
  Json, bool, num, str, arr, obj, Items, nil, cons, Fields, end, field, get_field, as_int,
  as_object, object_or_nil, string_or_empty,
}
use symphony_go.Domain.{Issue}
use symphony_go.Runner.Stats.{TurnStats, observe}

-- What a waiting call meets: a line that is a JSON object or not, the end or an error of the reader, the
-- timer of the call, or for a turn the end of its context.
pub data Incoming : Type 0 where
  message : Fields → Incoming
  garbage : Incoming
  broken stopped : Text → Incoming

-- What was sent, what is still to be read, and the result.
pub record Exchange {ℓ} (A : Type ℓ) : Type ℓ where
  pub sent : List Fields
  pub rest : List Incoming
  pub result : Result A

-- Whether the server's input takes a message.
abbrev pub Writes : Type 0
Writes = Fields → Bool

-- numericID, compared with the number of a request
unfoldable pub is_response_to : ℕ → Fields → Bool
unfolding get_field as_int
is_response_to id payload = elim (as_int (get_field (codes "id") payload)) [
  | none ↦ false
  | some (pos n) ↦ n == id
  | some (negsuc n) ↦ false
]

-- The result of a response. A key "error" counts, whatever its value is.
unfoldable pub response_result : Fields → Result Fields
unfolding get_field as_object
response_result payload = elim (get_field (codes "error") payload) [
  | some e ↦ err (codes "response error")
  | none ↦ elim (as_object (get_field (codes "result") payload)) [
    | none ↦ err (codes "response missing result")
    | some fields ↦ ok fields
  ]
]

unfoldable pub await_response : ℕ → List Incoming → Result Fields × List Incoming
unfolding is_response_to response_result
await_response id [] = (err (codes "response timeout"), [])
await_response id (stopped why ∷ lines) = (err (codes "response timeout"), lines)
await_response id (broken why ∷ lines) = (err why, lines)
await_response id (garbage ∷ lines) = await_response id lines
await_response id (message payload ∷ lines) =
    let later = await_response id lines in
    if is_response_to id payload then (response_result payload, lines) else later

-- A request and its response.
unfoldable pub call : Writes → ℕ → Fields → List Incoming → Exchange Fields
unfolding await_response
call writes id request lines =
    let (result, rest) = await_response id lines in
    if writes request
    then record { sent = request ∷ []; rest = rest; result = result }
    else record { sent = []; rest = lines; result = err (codes "write") }

unfoldable pub notify : Writes → Fields → List Incoming → Exchange (Unit {0})
notify writes note lines =
    if writes note
    then record { sent = note ∷ []; rest = lines; result = ok tt }
    else record { sent = []; rest = lines; result = err (codes "write") }

abbrev pub proceed {ℓ κ} :
    {A : Type ℓ} {B : Type κ}
    → List Fields
    → List Incoming
    → Result A
    → (A → List Incoming → Exchange B)
    → Exchange B
proceed sent lines (err e) next = record { sent = sent; rest = lines; result = err e }
proceed sent lines (ok a) next = record {
  sent = sent ++ (next a lines).sent;
  rest = (next a lines).rest;
  result = (next a lines).result;
}

abbrev pub and_then {ℓ κ} :
    {A : Type ℓ} {B : Type κ} → Exchange A → (A → List Incoming → Exchange B) → Exchange B
and_then x next = proceed x.sent x.rest x.result next

abbrev pub request : Text → ℕ → Fields → Fields
request method id params =
    field (codes "method") (str method)
      (field (codes "id") (num (pos id)) (field (codes "params") (obj params) end))

abbrev pub initialize_request : Fields
initialize_request = request (codes "initialize") 1 (
    field (codes "capabilities") (obj (field (codes "experimentalApi") (bool true) end)) (
      field (codes "clientInfo")
        (obj (
          field (codes "name") (str (codes "symphony-go-orchestrator")) (
            field (codes "title") (str (codes "Symphony Go Orchestrator"))
              (field (codes "version") (str (codes "0.1.0")) end))))
        end))

abbrev pub initialized_note : Fields
initialized_note =
    field (codes "method") (str (codes "initialized")) (field (codes "params") (obj end) end)

unfoldable pub initialize : Writes → List Incoming → Exchange (Unit {0})
unfolding call notify
initialize writes lines =
    and_then (call writes 1 initialize_request lines)
      (λ _ more. notify writes initialized_note more)

-- `object, _ := result[name].(map[string]any)`, its id, and the error where that is empty
unfoldable pub identified : Text → Fields → List Incoming → Exchange Text
unfolding get_field object_or_nil string_or_empty
identified name result lines =
    let id = string_or_empty (get_field (codes "id") (object_or_nil (get_field name result))) in
    record {
      sent = [];
      rest = lines;
      result = if text_eq id [] then err (codes "invalid response") else ok id;
    }
