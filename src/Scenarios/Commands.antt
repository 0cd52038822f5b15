-- ===== src/Scenarios/Commands.antt =====
-- A turn in which Codex runs a test that fails and a search, and then answers.
use symphony_go.Prelude.{
  ◌<◌, ◌≤◌, ◌^◌, ◌≡◌, Text, codes, text_eq, pos, List, [], ◌∷◌, count_if, none, arith,
}
use symphony_go.Observability.{
  Json, str, num, obj, Fields, end, field, get_field, string_or_empty, as_int,
}
use symphony_go.Runner.Commands.{Kind}
use symphony_go.Runner.Stats.{
  no_stats, observe_all, kinds, dominant_command_kind, completed_item, duration,
}
use symphony_go.Runner.Stats.Durations.{sum_durations, max_duration, is_command}
use symphony_go.Runner.Stats.Totals.{
  count_of, of_kind, failing, completes, Balanced, observe_all-counts,
}
use symphony_go.Runner.Stats.Dominant.{Leader, dominant_command_kind-Leader}

abbrev completed : Fields → Text × Fields
completed item =
    (codes "item/completed", field (codes "params") (obj (field (codes "item") (obj item) end)) end)

abbrev command : Text → Json → Fields
command text duration = field (codes "type") (str (codes "commandExecution")) (
    field (codes "command") (str text)
      (field (codes "exitCode") (num (pos 1)) (field (codes "durationMs") duration end)))

abbrev events : List (Text × Fields)
events =
    completed (command (codes "bash -lc 'go test ./...'") (num (pos 1200)))
    ∷ (codes "turn/started", end)
    ∷ completed (command (codes "rg TODO") (num (pos 30)))
    ∷ []

short : sum_durations events < 2 ^ 63
unfolding sum_durations completed_item get_field text_eq string_or_empty duration as_int
short = omega arith

observe_all-counts_example :
    ((kind : Kind)
      → count_of kind (observe_all events no_stats) ≡ count_if (completes (of_kind kind)) events)
    × ((observe_all events no_stats).command_count ≡ count_if (completes is_command) events)
    × Balanced (observe_all events no_stats)
    × ((observe_all events no_stats).failed_command_count ≡ count_if (completes failing) events)
    × ((observe_all events no_stats).failed_command_count
        ≤ (observe_all events no_stats).command_count)
    × ((observe_all events no_stats).command_duration_ms ≡ sum_durations events)
    × ((observe_all events no_stats).slowest_command_duration_ms ≡ max_duration events)
    × ((observe_all events no_stats).slowest_command_duration_ms
        ≤ (observe_all events no_stats).command_duration_ms)
observe_all-counts_example = observe_all-counts events short

dominant_command_kind-Leader_example :
    Leader
      (kinds (observe_all events no_stats))
      none
      0
      (dominant_command_kind (observe_all events no_stats))
dominant_command_kind-Leader_example = dominant_command_kind-Leader (observe_all events no_stats)
