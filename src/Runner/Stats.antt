-- ===== src/Runner/Stats.antt =====
-- TurnStats of internal/service/codex/runner.go: what a turn's commands and changes add up to. The
-- counts are numbers without a bound; the durations are int64.
pub mod Durations
pub mod Totals
pub mod Dominant
use symphony_go.Prelude.{
  ℕ, ◌+◌, ltb, ◌==◌, word, ℤ, pos, negsuc, Bool, true, false, not, ◌&&◌, Text, codes, text_eq,
  if◌then◌else◌, Option, none, some, List, [], ◌∷◌,
}
use symphony_go.Observability.{Fields, get_field, object_or_nil, string_or_empty, as_int}
use symphony_go.Runner.Commands.{
  Kind, search, read, test, build, git, other, command_kind, command_text, changed_file_count,
}

pub record TurnStats : Type 0 where
  pub command_count : ℕ
  pub failed_command_count : ℕ
  pub command_duration_ms : ℕ
  pub slowest_command_duration_ms : ℕ
  pub search_command_count : ℕ
  pub read_command_count : ℕ
  pub test_command_count : ℕ
  pub build_command_count : ℕ
  pub git_command_count : ℕ
  pub other_command_count : ℕ
  pub file_change_count : ℕ
  pub changed_file_count : ℕ
  pub final_message_present : Bool

-- `TurnStats{}`
abbrev pub no_stats : TurnStats
no_stats = record {
  command_count = 0;
  failed_command_count = 0;
  command_duration_ms = 0;
  slowest_command_duration_ms = 0;
  search_command_count = 0;
  read_command_count = 0;
  test_command_count = 0;
  build_command_count = 0;
  git_command_count = 0;
  other_command_count = 0;
  file_change_count = 0;
  changed_file_count = 0;
  final_message_present = false;
}

unfoldable pub count_kind : Kind → TurnStats → TurnStats
count_kind search s = record s { search_command_count = s.search_command_count + 1 }
count_kind read s = record s { read_command_count = s.read_command_count + 1 }
count_kind test s = record s { test_command_count = s.test_command_count + 1 }
count_kind build s = record s { build_command_count = s.build_command_count + 1 }
count_kind git s = record s { git_command_count = s.git_command_count + 1 }
count_kind other s = record s { other_command_count = s.other_command_count + 1 }

-- `exitCode != 0`
unfoldable pub has_failed : Option ℤ → Bool
has_failed none = false
has_failed (some (pos n)) = not (n == 0)
has_failed (some (negsuc n)) = true

-- The duration, 0 where it is absent or not positive.
unfoldable pub duration : Option ℤ → ℕ
duration none = 0
duration (some (pos n)) = n
duration (some (negsuc n)) = 0

unfoldable pub count_failed : Bool → TurnStats → TurnStats
count_failed failed s = record s {
  failed_command_count = if failed then s.failed_command_count + 1 else s.failed_command_count;
}

unfoldable pub add_duration : ℕ → TurnStats → TurnStats
add_duration value s = record s {
  command_duration_ms = word (s.command_duration_ms + value);
  slowest_command_duration_ms =
      if ltb s.slowest_command_duration_ms value then value else s.slowest_command_duration_ms;
}

unfoldable pub observe_command : Fields → TurnStats → TurnStats
unfolding count_kind count_failed add_duration
observe_command item s = add_duration (duration (as_int (get_field (codes "durationMs") item))) (
    count_failed (has_failed (as_int (get_field (codes "exitCode") item))) (
      count_kind (command_kind (command_text item))
        (record s { command_count = s.command_count + 1 })))

-- The item of an event that reports it complete.
unfoldable pub completed_item : Text → Fields → Option Fields
unfolding get_field object_or_nil text_eq
completed_item method payload =
    if text_eq method (codes "item/completed")
    then some (
        object_or_nil
          (get_field (codes "item") (object_or_nil (get_field (codes "params") payload))))
    else none

unfoldable pub observe_item : Fields → TurnStats → TurnStats
unfolding observe_command
observe_item item s =
    let kind = string_or_empty (get_field (codes "type") item) in
    if text_eq kind (codes "commandExecution")
    then observe_command item s
    else if text_eq kind (codes "fileChange")
    then record s {
      file_change_count = s.file_change_count + 1;
      changed_file_count = s.changed_file_count + changed_file_count item;
    }
    else if text_eq kind (codes "agentMessage")
        && text_eq (string_or_empty (get_field (codes "phase") item)) (codes "final_answer")
    then record s { final_message_present = true }
    else s

unfoldable pub observe : Text → Fields → TurnStats → TurnStats
unfolding completed_item observe_item
observe method payload s = elim (completed_item method payload) [
  | none ↦ s
  | some item ↦ observe_item item s
]

-- The events of a turn, in their order.
unfoldable pub observe_all : List (Text × Fields) → TurnStats → TurnStats
unfolding observe
observe_all [] s = s
observe_all ((method, payload) ∷ events) s = observe_all events (observe method payload s)

-- The loop of DominantCommandKind.
unfoldable pub first_maximal : List (Kind × ℕ) → Option Kind → ℕ → Option Kind
first_maximal [] dominant max_count = dominant
first_maximal ((kind, count) ∷ kinds) dominant max_count =
    first_maximal kinds (if ltb max_count count then some kind else dominant)
      (if ltb max_count count then count else max_count)

abbrev pub kinds : TurnStats → List (Kind × ℕ)
kinds s =
    (search, s.search_command_count)
    ∷ (read, s.read_command_count)
    ∷ (test, s.test_command_count)
    ∷ (build, s.build_command_count)
    ∷ (git, s.git_command_count)
    ∷ (other, s.other_command_count)
    ∷ []

-- none is "none".
unfoldable pub dominant_command_kind : TurnStats → Option Kind
unfolding first_maximal
dominant_command_kind s = first_maximal (kinds s) none 0
