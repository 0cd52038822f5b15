-- ===== src/Runner/Exchange/Turn.antt =====
-- awaitTurn and handleDynamicToolCall of internal/service/codex/runner.go: the events of a turn, and the
-- calls of dynamic tools, which the program answers. What a tool returns is a parameter.
pub mod Answers
use symphony_go.Prelude.{
  Bool, true, false, ◌||◌, Text, codes, text_eq, trim_space, any, if◌then◌else◌, Option, none, some,
  List, [], ◌∷◌, Result, ok, err,
}
use symphony_go.Observability.{
  Json, str, obj, Fields, end, field, get_field, object_or_nil, string_or_empty, as_object,
}
use symphony_go.Runner.Stats.{TurnStats, observe}
use symphony_go.Runner.Exchange.{Incoming, message, garbage, broken, stopped, Writes}

-- toolCallName, over its keys
first_name : List Text → Fields → Text
unfolding get_field string_or_empty trim_space
first_name [] params = []
first_name (key ∷ keys) params =
    let others = first_name keys params in
    let name = trim_space (string_or_empty (get_field key params)) in
    if text_eq name [] then others else name

unfoldable pub tool_call_name : Fields → Text
unfolding first_name
tool_call_name = first_name (codes "tool" ∷ codes "name" ∷ codes "toolName" ∷ [])

unfoldable pub tool_call_arguments : Fields → Json
unfolding get_field
tool_call_arguments params = elim (get_field (codes "arguments") params) [
  | none ↦ obj end
  | some arguments ↦ arguments
]

-- What DynamicToolExecutor.Execute returns.
abbrev pub Execute : Type 0
Execute = Text → Json → Json

-- The answer to a call, none where the call has no id.
unfoldable pub answer_of : Execute → Fields → Option Fields
unfolding tool_call_name tool_call_arguments get_field object_or_nil
answer_of execute payload = elim (get_field (codes "id") payload) [
  | none ↦ none
  | some id ↦
      let params = object_or_nil (get_field (codes "params") payload) in
      some (
        field (codes "id") id (
          field (codes "result") (execute (tool_call_name params) (tool_call_arguments params))
            end))
]

-- The cases of awaitTurn's switch.
pub data Reaction : Type 0 where
  finish refuse answer go_on : Reaction

abbrev pub refused : List Text
refused =
    codes "turn/failed"
    ∷ codes "turn/cancelled"
    ∷ codes "turn/input_required"
    ∷ codes "turn/approval_required"
    ∷ codes "item/tool/requestUserInput"
    ∷ codes "item/commandExecution/requestApproval"
    ∷ codes "item/fileChange/requestApproval"
    ∷ codes "mcpServer/elicitation/request"
    ∷ []

unfoldable pub react : Text → Reaction
unfolding any
react method =
    if text_eq method (codes "turn/completed")
    then finish
    else if text_eq method (codes "item/tool/call")
    then answer
    else if any (text_eq method) refused
    then refuse
    else go_on

-- What was sent and seen in a turn, its statistics, what is still to be read, and how it ended.
pub record TurnEnd : Type 0 where
  pub sent : List Fields
  pub events : List (Text × Fields)
  pub stats : TurnStats
  pub rest : List Incoming
  pub result : Result (Unit {0})

abbrev pub ended : TurnStats → List Incoming → Result (Unit {0}) → TurnEnd
ended s lines result = record { sent = []; events = []; stats = s; rest = lines; result = result }

abbrev pub see : Text × Fields → TurnEnd → TurnEnd
see event t = record t { events = event ∷ t.events }

abbrev pub send : Fields → TurnEnd → TurnEnd
send note t = record t { sent = note ∷ t.sent }

-- The rest of a turn behind the call of a tool.
unfoldable pub handle_dynamic_tool_call :
    Writes → Option Fields → TurnStats → List Incoming → TurnEnd → TurnEnd
handle_dynamic_tool_call writes none s lines later =
    ended s lines (err (codes "dynamic tool call missing id"))
handle_dynamic_tool_call writes (some note) s lines later =
    if writes note then send note later else ended s lines (err (codes "write"))

abbrev pub method_of : Fields → Text
method_of payload = string_or_empty (get_field (codes "method") payload)

-- The cases of the switch, each with what it returns or leaves to the rest of the loop.
unfoldable pub after_event :
    Writes → Execute → Text → Fields → TurnStats → List Incoming → TurnEnd → Reaction → TurnEnd
unfolding answer_of handle_dynamic_tool_call
after_event writes execute method payload now lines later finish = ended now lines (ok tt)
after_event writes execute method payload now lines later refuse = ended now lines (err method)
after_event writes execute method payload now lines later answer =
    handle_dynamic_tool_call writes (answer_of execute payload) now lines later
after_event writes execute method payload now lines later go_on = later

unfoldable pub await_turn : Writes → Execute → List Incoming → TurnStats → TurnEnd
unfolding get_field string_or_empty observe react after_event
await_turn writes execute [] s = ended s [] (err (codes "turn timeout"))
await_turn writes execute (stopped why ∷ lines) s = ended s lines (err why)
await_turn writes execute (broken why ∷ lines) s = ended s lines (err why)
await_turn writes execute (garbage ∷ lines) s = await_turn writes execute lines s
await_turn writes execute (message payload ∷ lines) s =
    let method = method_of payload in
    let now = observe method payload s in
    let later = await_turn writes execute lines now in
    see (method, payload) (after_event writes execute method payload now lines later (react method))
