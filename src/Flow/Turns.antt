-- ===== src/Flow/Turns.antt =====
-- internal/service/issueflow/agent_session.go, runCodexSessionAttempt: what happens after each Codex
-- turn. What the tracker, the context and the Codex server answer during a turn is a record.
pub mod Writes
pub mod Ends
pub mod Sessions
pub mod Finished
use symphony_go.Prelude.{
  ℕ, ◌+◌, leb, Bool, true, false, ◌&&◌, not, Text, text_eq, if◌then◌else◌, Option, none, some, List,
  [], ◌∷◌, ◌++◌, ◌||◌, codes, suc, zero,
}
use symphony_go.Domain.{Config, Issue}
use symphony_go.Outcomes.{Outcome, RunError, done, wait_human, retry_failure, retry_continuation}
use symphony_go.Flow.{
  RunStage, AgentPhase, Prompt, Ending, state_ai_review, state_pushing, state_merging, state_done,
  in_state, state_write_extension_enabled, max_turns, next_worker_phase, next_worker_prompt,
  next_worker_stage, review_state_passes, merging_state_passes, pushing_state_passes,
  decide_after_turn,
}

-- A call of `UpdateIssueState`, with the transition that is reported to telemetry and its error.
pub record StateWrite : Type 0 where
  pub issue_id : Text
  pub from_state : Text
  pub to_state : Text
  pub err : Option RunError

-- A call of `setRunningStage` between two turns.
pub record StageReport : Type 0 where
  pub phase : AgentPhase
  pub stage : RunStage
  pub turn : ℕ

-- sessionstore.Record
pub record SessionRecord : Type 0 where
  pub issue_id : Text
  pub issue_identifier : Text
  pub thread_id : Text
  pub workspace_path : Text
  pub worker_host : Text
  pub last_state : Text
  pub last_session_id : Text
  pub last_turn_id : Text
  pub updated_at : ℕ

-- What does not change during a session: the configuration, whether there is a session store, and
-- the thread that Codex opened.
pub record Setting : Type 0 where
  pub config : Config
  pub has_sessions : Bool
  pub workspace_path : Text
  pub thread_id : Text
  pub worker_host : Text

-- The answers during one turn. `messages` are the texts of CompletedAgentMessageText for its events,
-- "" where an event has none; `refreshed` counts only where `fetch_error` is none.
pub record Turn : Type 0 where
  pub start_error : Option RunError
  pub turn_id : Text
  pub messages : List Text
  pub await_error : Option RunError
  pub fetch_error : Option RunError
  pub refreshed : Issue
  pub context_error : Option RunError
  pub update_error : Option RunError
  pub completed_at : ℕ

-- The variables that the closure AfterTurn shares with the event handler, and the calls it made, the
-- last one first.
pub record Session : Type 0 where
  pub current_issue : Issue
  pub last_agent_message : Text
  pub attempt_outcome : Outcome
  pub current_turn_count : ℕ
  pub writes : List StateWrite
  pub stages : List StageReport
  pub records : List SessionRecord

-- What AfterTurn returns: the session ends, or goes on with a prompt for an issue.
pub data AfterTurn : Type 0 where
  halt : Option RunError → AfterTurn
  proceed : Prompt → Issue → AfterTurn

-- The session that runCodexSessionAttempt starts with.
unfoldable pub new_session : Issue → Session
new_session issue = record {
  current_issue = issue;
  last_agent_message = [];
  attempt_outcome = retry_continuation;
  current_turn_count = 1;
  writes = [];
  stages = [];
  records = [];
}

-- The event handler: the last text that is not "" is kept.
unfoldable pub hear : List Text → Text → Text
hear [] last = last
hear ([] ∷ texts) last = hear texts last
hear ((c ∷ cs) ∷ texts) last = hear texts (c ∷ cs)

unfoldable pub upsert_session_record : Setting → Turn → Session → Session
upsert_session_record setting turn s =
    if not setting.has_sessions || text_eq setting.thread_id [] then s else record s {
      records =
          record {
            issue_id = s.current_issue.id;
            issue_identifier = s.current_issue.identifier;
            thread_id = setting.thread_id;
            workspace_path = setting.workspace_path;
            worker_host = setting.worker_host;
            last_state = s.current_issue.state;
            last_session_id = setting.thread_id ++ codes "-" ++ turn.turn_id;
            last_turn_id = turn.turn_id;
            updated_at = turn.completed_at;
          }
          ∷ s.records;
    }

-- applyReviewPass, applyPushPass and applyMergePass differ in the two states: the write, and the
-- state of the issue where it succeeds.
unfoldable pub apply_pass : Text → Text → Option RunError → Session → Session
apply_pass from to none s = record s {
  current_issue = record s.current_issue { state = to };
  writes =
      record { issue_id = s.current_issue.id; from_state = from; to_state = to; err = none }
      ∷ s.writes;
}
apply_pass from to (some err) s = record s {
  writes =
      record { issue_id = s.current_issue.id; from_state = from; to_state = to; err = some err }
      ∷ s.writes;
}

unfoldable pub apply_review_pass : Option RunError → Session → Session
unfolding apply_pass
apply_review_pass update_error s = apply_pass state_ai_review state_merging update_error s

unfoldable pub apply_push_pass : Option RunError → Session → Session
unfolding apply_pass
apply_push_pass update_error s = apply_pass state_pushing state_done update_error s

unfoldable pub apply_merge_pass : Option RunError → Session → Session
unfolding apply_pass
apply_merge_pass update_error s = apply_pass state_merging state_done update_error s

unfoldable pub end_with : Outcome → Option RunError → Session → Session × AfterTurn
end_with outcome err s = (record s { attempt_outcome = outcome }, halt err)

unfoldable pub stage_report : Issue → ℕ → StageReport
unfolding next_worker_stage
stage_report issue turn = record {
  phase = next_worker_phase issue;
  stage = next_worker_stage issue turn;
  turn = turn;
}

-- The next turn, after its stage is reported.
unfoldable pub go_on : ℕ → Session → Session × AfterTurn
unfolding next_worker_prompt stage_report
go_on count s = (
  record s {
    stages = stage_report s.current_issue (count + 1) ∷ s.stages;
    current_turn_count = count + 1;
  },
  proceed (next_worker_prompt s.current_issue) s.current_issue,
)

unfoldable pub review_applied : ℕ → Option RunError → Session → Session × AfterTurn
unfolding go_on end_with
review_applied count none s = go_on count s
review_applied count (some err) s = end_with retry_failure (some err) s

unfoldable pub final_applied : Option RunError → Session → Session × AfterTurn
unfolding end_with
final_applied none s = end_with done none s
final_applied (some err) s = end_with retry_failure (some err) s

-- A passed review, push or merge writes only where the policy allows it.
unfoldable pub if_enabled : Config → Session → Session × AfterTurn → Session × AfterTurn
unfolding end_with
if_enabled c s next = if state_write_extension_enabled c then next else end_with wait_human none s

-- AfterTurn from the test of the review on; `start` is the issue at the start of the turn.
unfoldable pub after_passes : Config → Issue → Turn → ℕ → Session → Session × AfterTurn
unfolding if_enabled review_applied final_applied go_on end_with apply_review_pass apply_push_pass
    apply_merge_pass
after_passes c start turn count s =
    if review_state_passes s.current_issue s.last_agent_message
    then if_enabled c s
        (review_applied count turn.update_error (apply_review_pass turn.update_error s))
    else if in_state start state_pushing
        && pushing_state_passes s.current_issue s.last_agent_message
    then if_enabled c s (final_applied turn.update_error (apply_push_pass turn.update_error s))
    else if merging_state_passes s.current_issue s.last_agent_message
    then if_enabled c s (final_applied turn.update_error (apply_merge_pass turn.update_error s))
    else if leb (max_turns c) count
    then end_with retry_continuation none s
    else go_on count s

-- AfterTurn from decideAfterTurn on.
unfoldable pub after_decision :
    Config → Issue → Turn → ℕ → Session → Option Ending → Session × AfterTurn
unfolding after_passes end_with
after_decision c start turn count s (some e) = end_with e.outcome e.err s
after_decision c start turn count s none = after_passes c start turn count s

-- AfterTurn once the tracker has answered.
unfoldable pub after_fetch : Setting → Turn → ℕ → Session → Option RunError → Session × AfterTurn
unfolding after_decision upsert_session_record end_with
after_fetch setting turn count s (some err) = end_with retry_failure (some err) s
after_fetch setting turn count s none =
    after_decision setting.config s.current_issue turn count
      (upsert_session_record setting turn (record s { current_issue = turn.refreshed }))
      (decide_after_turn setting.config turn.context_error turn.refreshed)

unfoldable pub after_turn : Setting → Turn → ℕ → Session → Session × AfterTurn
unfolding after_fetch
after_turn setting turn count s = after_fetch setting turn count s turn.fetch_error

-- How RunSession ends: the session, the number of its turns, and its error.
pub record SessionEnd : Type 0 where
  pub session : Session
  pub turns : ℕ
  pub err : Option RunError

-- RunSession goes on with the prompt that AfterTurn returned, or ends.
unfoldable pub follow : ℕ → Session × AfterTurn → (Session → Option SessionEnd) → Option SessionEnd
follow count (s, halt err) rest = some (record { session = s; turns = count; err = err })
follow count (s, proceed prompt issue) rest = rest s

unfoldable pub after_await :
    Setting
    → Turn
    → ℕ
    → Session
    → Option RunError
    → (Session → Option SessionEnd)
    → Option SessionEnd
unfolding follow after_turn
after_await setting turn count s (some err) rest =
    some (record { session = s; turns = count; err = some err })
after_await setting turn count s none rest = follow count (after_turn setting turn count s) rest

unfoldable pub after_start :
    Setting
    → Turn
    → ℕ
    → Session
    → Option RunError
    → (Session → Option SessionEnd)
    → Option SessionEnd
unfolding after_await hear
after_start setting turn before s (some err) rest =
    some (record { session = s; turns = before; err = some err })
after_start setting turn before s none rest =
    after_await setting turn (before + 1)
      (record s { last_agent_message = hear turn.messages s.last_agent_message }) turn.await_error
      rest

-- The loop of RunSession on fuel: `before` turns are over, and `turns` answers each turn by its index.
unfoldable pub run_turns : Setting → (ℕ → Turn) → ℕ → ℕ → Session → Option SessionEnd
unfolding after_start
run_turns setting turns zero before s = none
run_turns setting turns (suc fuel) before s =
    after_start setting (turns before) before s (turns before).start_error
      (λ next. run_turns setting turns fuel (before + 1) next)

-- RunSession: the session is started, then its turns run.
unfoldable pub run_session : Setting → (ℕ → Turn) → ℕ → Issue → Option RunError → Option SessionEnd
unfolding new_session run_turns
run_session setting turns fuel issue (some err) =
    some (record { session = new_session issue; turns = 0; err = some err })
run_session setting turns fuel issue none = run_turns setting turns fuel 0 (new_session issue)
