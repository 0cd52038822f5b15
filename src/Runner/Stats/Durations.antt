-- ===== src/Runner/Stats/Durations.antt =====
-- The durations of TurnStats of internal/service/codex/runner.go against the list of events.
use symphony_go.Prelude.{
  ℕ, ltb, ◌<◌, ◌≤◌, ◌+◌, ◌^◌, Bool, Text, codes, text_eq, if◌then◌else◌, none, some, List, [], ◌∷◌,
  Option-cases, inl, inr, ◌≡◌, arith,
}
use symphony_go.Observability.{Fields, get_field, string_or_empty, as_int}
use symphony_go.Runner.Stats.{
  TurnStats, count_kind, count_failed, add_duration, duration, observe_command, completed_item,
  observe_item, observe, observe_all,
}

-- A command that an item reports.
abbrev pub is_command : Fields → Bool
is_command item =
    text_eq (string_or_empty (get_field (codes "type") item)) (codes "commandExecution")

-- A command's duration that an event reports.
abbrev item_duration : Fields → ℕ
item_duration item =
    if is_command item then duration (as_int (get_field (codes "durationMs") item)) else 0

reported : Text × Fields → ℕ
reported (method, payload) = elim (completed_item method payload) [
  | none ↦ 0
  | some item ↦ item_duration item
]

unfoldable pub sum_durations : List (Text × Fields) → ℕ
unfolding reported
sum_durations [] = 0
sum_durations (event ∷ events) = reported event + sum_durations events

abbrev pub max : ℕ → ℕ → ℕ
max m n = if ltb m n then n else m

unfoldable pub max_duration : List (Text × Fields) → ℕ
unfolding reported
max_duration [] = 0
max_duration (event ∷ events) = max (reported event) (max_duration events)

pub max_duration-le-sum :
    (events : List (Text × Fields)) → max_duration events ≤ sum_durations events
unfolding sum_durations max_duration
max_duration-le-sum [] = omega arith
max_duration-le-sum (event ∷ events) = ground (arith, max_duration-le-sum events)

-- The durations after one event or several.
abbrev pub Adds : TurnStats → TurnStats → ℕ → ℕ → Type 0
Adds s t total slowest =
    (t.command_duration_ms ≡ s.command_duration_ms + total)
    × (t.slowest_command_duration_ms ≡ max s.slowest_command_duration_ms slowest)

observe_item-Adds :
    (item : Fields) (s : TurnStats)
    → s.command_duration_ms + item_duration item < 2 ^ 63
    → Adds s (observe_item item s) (item_duration item) (item_duration item)
unfolding observe_item observe_command add_duration count_failed count_kind
observe_item-Adds item s h = grind arith

Adds-then :
    (s t u : TurnStats) (a b c d : ℕ) → Adds s t a b → Adds t u c d → Adds s u (a + c) (max b d)
Adds-then s t u a b c d (e1, e2) (e3, e4) = (omega (arith, e1, e3), ground (arith, e2, e4))

observe-Adds :
    (method : Text) (payload : Fields) (s : TurnStats)
    → s.command_duration_ms + reported (method, payload) < 2 ^ 63
    → Adds s (observe method payload s) (reported (method, payload)) (reported (method, payload))
unfolding observe reported
observe-Adds method payload s h = elim (Option-cases (completed_item method payload)) [
  | inl missing ↦ rw (observe, reported, missing) (grind (arith, missing), grind (arith, missing))
  | inr (item, done) ↦
      rw (observe, reported, done) (observe_item-Adds item s (ground (arith, h, done, reported)))
]

pub observe_all-Adds :
    (events : List (Text × Fields)) (s : TurnStats)
    → s.command_duration_ms + sum_durations events < 2 ^ 63
    → Adds s (observe_all events s) (sum_durations events) (max_duration events)
unfolding observe_all sum_durations max_duration
observe_all-Adds [] s h = (omega arith, ground arith)
observe_all-Adds ((method, payload) ∷ events) s h =
    let one = observe-Adds method payload s (omega (arith, h)) in
    Adds-then s (observe method payload s) (observe_all events (observe method payload s)) _ _ _ _
      one (observe_all-Adds events (observe method payload s) (omega (arith, h, one.0)))
