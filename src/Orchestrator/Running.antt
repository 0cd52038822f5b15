-- ===== src/Orchestrator/Running.antt =====
-- The operations on snapshot.Running and snapshot.CodexTotals: run_stage.go, and setRunning,
-- updateRunningState, updateRunningFromEvent, removeRunning and tokenDelta of orchestrator.go. Each
-- runs under the orchestrator's lock. Telemetry is not modelled, nor is RuntimeSeconds, which is only
-- ever copied.
pub mod Tokens
use symphony_go.Prelude.{
  ℕ, ◌+◌, ◌-◌, ℤ, pos, ◌+ℤ◌, wrap_int, excess, Bool, ◌==◌, Text, codes, text_eq, if◌then◌else◌,
  Option, none, some, List, [], ◌∷◌, has_by, put_by, change_by, drop_by, find_by, not,
}
use symphony_go.Domain.{Issue, RunningEntry, TokenUsage, CodexTotals}
use symphony_go.Observability.{
  Event, codex_event_name, humanize_codex_event, codex_payload_string, numeric_payload_int,
  get_field, extract_token_usage,
}
use symphony_go.Orchestrator.State.{Orchestrator}

abbrev pub running_key : RunningEntry → Text
running_key entry = entry.issue_id

unfoldable pub is_running : Text → List RunningEntry → Bool
is_running = has_by running_key

abbrev or_else : Text → Text → Text
or_else value default = if text_eq value (codes "") then default else value

-- The entry that setRunningStageLocked makes for an issue that has none.
unfoldable pub stage_entry : ℕ → Issue → ℕ → Text → Text → Text → Text → ℕ → RunningEntry
stage_entry now issue attempt phase stage message workspace_path turn_count = record {
  issue_id = issue.id;
  issue_identifier = issue.identifier;
  state = issue.state;
  agent_phase = phase;
  stage = stage;
  workspace_path = workspace_path;
  attempt = attempt;
  session_id = [];
  thread_id = [];
  turn_id = [];
  pid = ℤ.pos 0;
  turn_count = if turn_count == 0 then 1 else turn_count;
  last_event = stage;
  last_message = or_else message stage;
  started_at = now;
  last_event_at = now;
  tokens = record { input_tokens = ℤ.pos 0; output_tokens = ℤ.pos 0; total_tokens = ℤ.pos 0 };
}

-- What it keeps of the entry that is there.
unfoldable pub merge_stage : RunningEntry → RunningEntry → RunningEntry
merge_stage entry existing = record entry {
  started_at = if existing.started_at == 0 then entry.started_at else existing.started_at;
  agent_phase = or_else entry.agent_phase existing.agent_phase;
  stage = or_else entry.stage existing.stage;
  last_event = if text_eq entry.stage (codes "") then existing.last_event else entry.last_event;
  workspace_path = or_else entry.workspace_path existing.workspace_path;
  session_id = existing.session_id;
  thread_id = existing.thread_id;
  turn_id = existing.turn_id;
  pid = existing.pid;
  tokens = existing.tokens;
}

unfoldable pub set_running_stage :
    ℕ → Issue → ℕ → Text → Text → Text → Text → ℕ → Orchestrator → Orchestrator
unfolding stage_entry merge_stage
set_running_stage now issue attempt phase stage message workspace_path turn_count o =
    let entry = stage_entry now issue attempt phase stage message workspace_path turn_count in
    record o { running = put_by running_key (merge_stage entry) entry o.running }

-- setRunningLocked
unfoldable pub set_running : RunningEntry → Orchestrator → Orchestrator
set_running entry o = record o { running = put_by running_key (λ _. entry) entry o.running }

unfoldable pub update_running_state : Text → Text → Orchestrator → Orchestrator
update_running_state id state o = record o {
  running = change_by running_key id (λ entry. record entry { state = state }) o.running;
}

-- positiveDelta on each counter
unfoldable pub positive_delta : ℤ → ℤ → ℤ
unfolding wrap_int
positive_delta next previous = wrap_int (pos (excess next previous))

unfoldable pub token_delta : TokenUsage → TokenUsage → CodexTotals
unfolding positive_delta
token_delta next previous = record {
  input_tokens = positive_delta next.input_tokens previous.input_tokens;
  output_tokens = positive_delta next.output_tokens previous.output_tokens;
  total_tokens = positive_delta next.total_tokens previous.total_tokens;
  nanos_running = 0;
}

unfoldable pub add_totals : CodexTotals → CodexTotals → CodexTotals
unfolding wrap_int
add_totals totals delta = record {
  input_tokens = wrap_int (totals.input_tokens +ℤ delta.input_tokens);
  output_tokens = wrap_int (totals.output_tokens +ℤ delta.output_tokens);
  total_tokens = wrap_int (totals.total_tokens +ℤ delta.total_tokens);
  nanos_running = totals.nanos_running + delta.nanos_running;
}

abbrev no_totals : CodexTotals
no_totals = record {
  input_tokens = pos 0;
  output_tokens = pos 0;
  total_tokens = pos 0;
  nanos_running = 0;
}

-- The fields that updateRunningFromEvent writes into an entry.
unfoldable pub entry_from_event : ℕ → Event → RunningEntry → RunningEntry
entry_from_event now event entry =
    let payload = event.payload in
    record entry {
      last_event = codex_event_name event;
      last_message = humanize_codex_event payload;
      last_event_at = now;
      session_id =
          or_else (codex_payload_string payload (codes "session_id" ∷ codes "sessionId" ∷ []))
            entry.session_id;
      thread_id =
          or_else (codex_payload_string payload (codes "thread_id" ∷ codes "threadId" ∷ []))
            entry.thread_id;
      turn_id =
          or_else (codex_payload_string payload (codes "turn_id" ∷ codes "turnId" ∷ []))
            entry.turn_id;
      pid = elim (numeric_payload_int (get_field (codes "pid") payload)) [
        | none ↦ entry.pid
        | some pid ↦ pid
      ];
      tokens = elim (extract_token_usage payload) [ none ↦ entry.tokens | some usage ↦ usage ];
    }

unfoldable pub usage_delta : Option TokenUsage → RunningEntry → CodexTotals
unfolding token_delta
usage_delta none entry = no_totals
usage_delta (some usage) entry = token_delta usage entry.tokens

-- The rate limits that an event carries are shown in the snapshot and read by no handler; they are
-- left out.
unfoldable pub update_running_from_event : ℕ → Text → Event → Orchestrator → Orchestrator
unfolding entry_from_event usage_delta add_totals
update_running_from_event now id event o = elim (find_by running_key id o.running) [
  | none ↦ o
  | some entry ↦ record o {
    running = change_by running_key id (entry_from_event now event) o.running;
    totals = add_totals o.totals (usage_delta (extract_token_usage event.payload) entry);
  }
]

-- The running time of the entries that removeRunning drops.
unfoldable pub time_of : ℕ → Text → List RunningEntry → ℕ
time_of now id [] = 0
time_of now id (entry ∷ rest) =
    let others = time_of now id rest in
    if not (text_eq entry.issue_id id)
    then others
    else if entry.started_at == 0
    then others
    else (now - entry.started_at) + others

unfoldable pub remove_running : ℕ → Text → Orchestrator → Orchestrator
unfolding time_of add_totals
remove_running now id o = record o {
  running = drop_by running_key id o.running;
  totals = add_totals o.totals (record no_totals { nanos_running = time_of now id o.running });
}
