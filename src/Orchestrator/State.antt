-- ===== src/Orchestrator/State.antt =====
-- The Orchestrator struct of internal/service/orchestrator/orchestrator.go, with the parts of the Go
-- runtime that its handlers act on: contexts that were cancelled, timers that are armed, and worker
-- goroutines inside RunIssueTrunk.
use symphony_go.Prelude.{
  ℕ, pos, Text, Map, Bool, Option, List, [], ◌∷◌, none, some, ◌==◌, not, filter,
}
use symphony_go.Domain.{Config, Issue, RunningEntry, RetryEntry, CodexTotals}

pub record TerminalCleanup : Type 0 where
  pub issue : Issue
  pub entry : RunningEntry

-- serviceCtx: nil, live, or cancelled.
pub data Service : Type 0 where
  unset live done : Service

-- A timer of time.AfterFunc that has neither fired nor been stopped. When it fires it calls
-- handleRetry for its issue.
pub record Timer : Type 0 where
  pub id : ℕ
  pub issue_id : Text
  pub due_at : ℕ

-- What the handlers do outside the struct.
pub data Effect : Type 0 where
  workspace_removed : Text → Effect
  session_deleted : Text → Effect

-- A cancel function stands for its context and is held by number, as a timer is. `poll_now` says that
-- the channel of capacity 1 holds a token.
pub record Orchestrator : Type 0 where
  pub config : Config
  pub issue_filter : Text
  pub running : List RunningEntry
  pub retrying : List RetryEntry
  pub totals : CodexTotals
  pub last_error : Text
  pub claimed : Map Bool
  pub running_cancel : Map ℕ
  pub pending_terminal_cleanup : Map TerminalCleanup
  pub service : Service
  pub retry_timers : Map ℕ
  pub retry_attempts : Map ℕ
  pub poll_now : Bool
  pub next_id : ℕ
  pub cancelled : List ℕ
  pub armed : List Timer
  pub workers : List Text
  pub effects : List Effect

abbrev pub worker_key : Text → Text
worker_key id = id

-- The zero value of observability.RunningEntry.
abbrev pub empty_entry : RunningEntry
empty_entry = record {
  issue_id = [];
  issue_identifier = [];
  state = [];
  agent_phase = [];
  stage = [];
  workspace_path = [];
  attempt = 0;
  session_id = [];
  thread_id = [];
  turn_id = [];
  pid = pos 0;
  turn_count = 0;
  last_event = [];
  last_message = [];
  started_at = 0;
  last_event_at = 0;
  tokens = record { input_tokens = pos 0; output_tokens = pos 0; total_tokens = pos 0 };
}

-- issuemodel.Issue{ID: id, Identifier: identifier, State: state}
abbrev pub bare_issue : Text → Text → Text → Issue
bare_issue id identifier state = record {
  id = id;
  identifier = identifier;
  title = [];
  description = [];
  priority = none;
  state = state;
  branch_name = [];
  url = [];
  assignee_id = [];
  assigned_to_worker = none;
  labels = [];
  blocked_by = none;
  created_at = none;
  updated_at = none;
}

cancelled_with : Option ℕ → List ℕ → List ℕ
cancelled_with none contexts = contexts
cancelled_with (some context) contexts = context ∷ contexts

-- `cancel()` on the context's function; nothing for a nil function.
unfoldable pub cancel_context : Option ℕ → Orchestrator → Orchestrator
unfolding cancelled_with
cancel_context context o = record o { cancelled = cancelled_with context o.cancelled }

unfoldable pub without_timer : Option ℕ → List Timer → List Timer
without_timer none timers = timers
without_timer (some timer) timers = filter (λ t. not (t.id == timer)) timers

-- `timer.Stop()`; nothing for a nil timer.
unfoldable pub stop_timer : Option ℕ → Orchestrator → Orchestrator
stop_timer timer o = record o { armed = without_timer timer o.armed }
