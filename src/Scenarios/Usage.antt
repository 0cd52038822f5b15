-- ===== src/Scenarios/Usage.antt =====
-- A running issue whose events report a growing usage.
use symphony_go.Prelude.{◌≡◌, refl, pos, arith, some, [], ◌∷◌, codes, text_eq, find_by}
use symphony_go.Domain.{RunningEntry, TokenUsage}
use symphony_go.Observability.{
  Event, num, field, end, extract_token_usage, usage_from_map, int_field, get_field, as_int,
  usage_of, as_object,
}
use symphony_go.Orchestrator.State.{Orchestrator, empty_entry}
use symphony_go.Orchestrator.Running.{running_key}
use symphony_go.Orchestrator.Running.Tokens.{
  update_running_from_events, Grows, over, reports, Gains, Room, last_usage,
  update_running_from_events-Gains,
}
use symphony_go.Orchestrator.Safety.Interleavings.{new_orchestrator}
use symphony_go.Scenarios.{fresh, first_issue}

abbrev entry : RunningEntry
entry = record empty_entry { issue_id = first_issue.id }

abbrev busy : Orchestrator
busy = record fresh { running = entry ∷ [] }

abbrev usage_event : Event
usage_event = record {
  name = codes "usage";
  payload =
      field (codes "input_tokens") (num (pos 5)) (field (codes "output_tokens") (num (pos 2)) end);
}

abbrev used : TokenUsage
used = record { input_tokens = pos 5; output_tokens = pos 2; total_tokens = pos 7 }

reported : extract_token_usage usage_event.payload ≡ some used
unfolding extract_token_usage as_object get_field text_eq usage_from_map int_field as_int usage_of
reported = refl

growing : Grows entry.tokens (usage_event ∷ usage_event ∷ [])
growing =
    reports used reported ((refl, refl), (refl, refl), (refl, refl))
      (reports used reported ((refl, refl), (refl, refl), (refl, refl))
        (over ((refl, refl), (refl, refl), (refl, refl))))

room : Room busy.totals entry.tokens (last_usage entry.tokens (usage_event ∷ usage_event ∷ []))
unfolding extract_token_usage as_object get_field text_eq usage_from_map int_field as_int usage_of
    new_orchestrator
room = ((refl, omega arith), (refl, omega arith), (refl, omega arith))

here : find_by running_key first_issue.id busy.running ≡ some entry
unfolding find_by text_eq
here = refl

update_running_from_events-Gains_example :
    (after : RunningEntry) × (find_by running_key first_issue.id
        (update_running_from_events 9 first_issue.id (usage_event ∷ usage_event ∷ []) busy).running
      ≡ some after)
    × Gains busy.totals entry.tokens
        (update_running_from_events 9 first_issue.id (usage_event ∷ usage_event ∷ []) busy).totals
        after.tokens
update_running_from_events-Gains_example =
    update_running_from_events-Gains 9 first_issue.id (usage_event ∷ usage_event ∷ []) busy entry
      here growing room
