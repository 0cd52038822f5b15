-- ===== src/Observability.antt =====
-- internal/runtime/observability/token.go and ratelimit.go, and the payload readers of
-- internal/service/orchestrator/orchestrator.go: what an agent event says about tokens, rate limits
-- and identifiers. A payload is a decoded JSON object.
use symphony_go.Prelude.{
  ℤ, pos, Bool, true, false, ◌||◌, ◌&&◌, Text, codes, text_eq, to_lower, if◌then◌else◌, contains,
  wrap_int, ◌+ℤ◌, Option, none, some, List, [], ◌∷◌, map, not, ◌==◌,
}
use symphony_go.Domain.{TokenUsage}

-- A number stands for its integer part: the code reads numbers through `int(v)` only.
mutual
  pub data Json : Type 0 where
    null : Json
    bool : Bool → Json
    num : ℤ → Json
    str : Text → Json
    arr : Items → Json
    obj : Fields → Json

  pub data Items : Type 0 where
    nil : Items
    cons : Json → Items → Items

  pub data Fields : Type 0 where
    end : Fields
    field : Text → Json → Fields → Fields

-- `value, ok := m[key]`, also on a nil map, which is `end`.
unfoldable pub get_field : Text → Fields → Option Json
get_field key end = none
get_field key (field k v rest) = if text_eq k key then some v else get_field key rest

-- `m, ok := v.(map[string]any)`
unfoldable pub as_object : Option Json → Option Fields
as_object (some (obj fields)) = some fields
as_object _ = none

-- `m, _ := v.(map[string]any)`: a failed assertion leaves the nil map.
unfoldable pub object_or_nil : Option Json → Fields
unfolding as_object
object_or_nil v = elim (as_object v) [ none ↦ end | some fields ↦ fields ]

-- `s, _ := v.(string)`
unfoldable pub string_or_empty : Option Json → Text
string_or_empty (some (str s)) = s
string_or_empty _ = []

-- numericPayloadInt, and the type switch of intField
unfoldable pub as_int : Option Json → Option ℤ
as_int (some (num n)) = some n
as_int _ = none

unfoldable pub int_field : Fields → List Text → Option ℤ
unfolding get_field as_int
int_field value [] = none
int_field value (name ∷ names) = elim (as_int (get_field name value)) [
  | some n ↦ some n
  | none ↦ int_field value names
]

-- A field that is missing reads as 0.
abbrev pub count_of : Option ℤ → ℤ
count_of (some n) = n
count_of none = pos 0

abbrev pub input_names : List Text
input_names = codes "input_tokens" ∷ codes "inputTokens" ∷ codes "input" ∷ []

abbrev pub output_names : List Text
output_names = codes "output_tokens" ∷ codes "outputTokens" ∷ codes "output" ∷ []

abbrev pub total_names : List Text
total_names = codes "total_tokens" ∷ codes "totalTokens" ∷ codes "total" ∷ []

unfoldable pub usage_of : Option ℤ → Option ℤ → Option ℤ → Option TokenUsage
unfolding wrap_int
usage_of none none none = none
usage_of input output (some total) = some (record {
  input_tokens = count_of input;
  output_tokens = count_of output;
  total_tokens = count_of (some total);
})
usage_of input output none = some (record {
  input_tokens = count_of input;
  output_tokens = count_of output;
  total_tokens = wrap_int (count_of input +ℤ count_of output);
})

unfoldable pub usage_from_map : Fields → Option TokenUsage
unfolding int_field usage_of
usage_from_map value =
    usage_of (int_field value input_names) (int_field value output_names)
      (int_field value total_names)

-- The part of extractTokenUsage below `params["tokenUsage"]`: none where that part falls through.
nested_usage : Option Fields → Option (Option TokenUsage)
unfolding usage_from_map as_object
nested_usage none = none
nested_usage (some token_usage) = elim (as_object (get_field (codes "total") token_usage)) [
  | some total ↦ some (usage_from_map total)
  | none ↦ elim (usage_from_map token_usage) [ some usage ↦ some (some usage) | none ↦ none ]
]

total_usage : Fields → Fields → Option TokenUsage
unfolding usage_from_map as_object
total_usage payload params = elim (as_object (get_field (codes "total_token_usage") params)) [
  | none ↦ usage_from_map payload
  | some nested ↦ usage_from_map nested
]

params_usage : Fields → Fields → Option TokenUsage
unfolding nested_usage total_usage
params_usage payload params = elim (usage_from_map params) [
  | some usage ↦ some usage
  | none ↦ elim (nested_usage (as_object (get_field (codes "tokenUsage") params))) [
    | some found ↦ found
    | none ↦ total_usage payload params
  ]
]

-- ExtractTokenUsage; a nil payload is `end`, and has no usage either.
unfoldable pub extract_token_usage : Fields → Option TokenUsage
unfolding params_usage
extract_token_usage payload = elim (as_object (get_field (codes "params") payload)) [
  | none ↦ usage_from_map payload
  | some params ↦ params_usage payload params
]

unfoldable pub first_field : List Text → Fields → Option Json
unfolding get_field
first_field [] value = none
first_field (key ∷ keys) value = elim (get_field key value) [
  | some limits ↦ some limits
  | none ↦ first_field keys value
]

unfoldable pub rate_limits_from_map : Fields → Option Json
unfolding first_field
rate_limits_from_map =
    first_field
      (codes "rate_limits" ∷ codes "rateLimits" ∷ codes "rateLimit" ∷ codes "rate_limit" ∷ [])

abbrev is_empty_object : Fields → Bool
is_empty_object end = true
is_empty_object (field k v rest) = false

method_of : Fields → Text
unfolding get_field string_or_empty
method_of payload = string_or_empty (get_field (codes "method") payload)

rate_limit_params : Text → Fields → Option Json
rate_limit_params method params =
    if contains (to_lower method) (codes "rate")
      && contains (to_lower method) (codes "limit")
      && not (is_empty_object params)
    then some (obj params)
    else none

-- ExtractRateLimits
unfoldable pub extract_rate_limits : Fields → Option Json
unfolding rate_limits_from_map rate_limit_params method_of object_or_nil
extract_rate_limits payload =
    let params = object_or_nil (get_field (codes "params") payload) in
    elim (rate_limits_from_map payload) [
      | some value ↦ some value
      | none ↦ elim (rate_limits_from_map params) [
        | some value ↦ some value
        | none ↦ rate_limit_params (method_of payload) params
      ]
    ]

-- HumanizeCodexEvent
unfoldable pub humanize_codex_event : Fields → Text
unfolding method_of
humanize_codex_event payload =
    let method = method_of payload in
    if text_eq method (codes "turn/completed")
    then codes "turn completed"
    else if text_eq method (codes "turn/failed")
    then codes "turn failed"
    else if text_eq method (codes "turn/cancelled")
    then codes "turn cancelled"
    else if text_eq method (codes "codex/event/task_started")
    then codes "task started"
    else if text_eq method (codes "codex/event/token_count")
        || text_eq method (codes "thread/tokenUsage/updated")
    then codes "token usage updated"
    else if text_eq method (codes "")
    then codes "event"
    else map (λ c. if c == b'_' then b' ' else c) method

-- codex.Event
pub record Event : Type 0 where
  pub name : Text
  pub payload : Fields

unfoldable pub codex_event_name : Event → Text
unfolding method_of
codex_event_name event =
    if not (text_eq event.name (codes ""))
    then event.name
    else if not (text_eq (method_of event.payload) (codes ""))
    then method_of event.payload
    else codes "codex_event"

-- The first key with a string that is not empty.
unfoldable pub first_string : List Text → Fields → Text
unfolding get_field string_or_empty
first_string [] value = []
first_string (key ∷ keys) value =
    let rest = first_string keys value in
    let found = string_or_empty (get_field key value) in
    if not (text_eq found (codes "")) then found else rest

unfoldable pub codex_payload_string : Fields → List Text → Text
unfolding first_string object_or_nil
codex_payload_string payload keys =
    let found = first_string keys payload in
    if not (text_eq found (codes ""))
    then found
    else first_string keys (object_or_nil (get_field (codes "params") payload))

unfoldable pub numeric_payload_int : Option Json → Option ℤ
unfolding as_int
numeric_payload_int = as_int
