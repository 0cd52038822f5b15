-- ===== src/Flow/Trunk.antt =====
-- RunIssueTrunk of internal/service/issueflow/flow.go and runWorkerAttempt of agent_session.go: from
-- the guards on the state of an issue to the hooks and the Codex sessions around its turns.
pub mod Effects
pub mod Hooks
use symphony_go.Prelude.{
  ℕ, Bool, true, false, ◌&&◌, ◌||◌, not, ltb, ◌==◌, Text, text_eq, trim_space, equal_fold,
  if◌then◌else◌, Option, none, some, List, [], ◌∷◌, ◌++◌,
}
use symphony_go.Domain.{Config, Issue}
use symphony_go.Eligibility.{state_name_in}
use symphony_go.Outcomes.{Outcome, RunError, done, wait_human, retry_failure, stopped}
use symphony_go.Flow.{
  Ending, ending, ending_with, state_blocked, state_todo, state_in_progress, state_rework, in_state,
  is_active, waits_for_human_review, waits_if_blocked, return_retry_or_stop,
}
use symphony_go.Flow.Turns.{StateWrite, SessionRecord, Setting, Turn, SessionEnd, run_session}

-- What Codex answers during one RunSession.
pub record CodexRun : Type 0 where
  pub start_error : Option RunError
  pub thread_id : Text
  pub worker_host : Text
  pub turns : ℕ → Turn

-- What the workspace manager, the renderer, the session store and Codex answer during one attempt.
-- `stored` is none where the store has no record or fails; `context_error` is `ctx.Err()` after the
-- first session.
pub record Worker : Type 0 where
  pub ensure_error : Option RunError
  pub workspace_path : Text
  pub before_run_error : Option RunError
  pub render_error : Option RunError
  pub stored : Option SessionRecord
  pub context_error : Option RunError
  pub first_run : CodexRun
  pub second_run : CodexRun

-- The first prompt of a session: the rendered workflow, or the continuation text.
pub data FirstPrompt : Type 0 where
  rendered_prompt first_continuation : FirstPrompt

-- The calls that a run makes, in their order.
pub data Effect : Type 0 where
  promoted : StateWrite → Effect
  ensured_workspace ran_before_run rendered_workflow : Effect
  ran_session : FirstPrompt → Text → SessionEnd → Effect
  deleted_record : Effect
  ran_after_run : Effect

pub record RunEnd : Type 0 where
  pub result : Ending
  pub effects : List Effect

-- What a run is given: the configuration, whether there is a session store, and the fuel.
pub record Runtime : Type 0 where
  pub config : Config
  pub has_sessions : Bool
  pub fuel : ℕ

unfoldable pub setting_of : Runtime → Text → CodexRun → Setting
setting_of rt workspace_path run = record {
  config = rt.config;
  has_sessions = rt.has_sessions;
  workspace_path = workspace_path;
  thread_id = run.thread_id;
  worker_host = run.worker_host;
}

-- The checks of a stored record, after it is found.
unfoldable pub resumable : Text → Option SessionRecord → Text
resumable workspace_path none = []
resumable workspace_path (some r) =
    if text_eq r.thread_id []
    then []
    else if not (text_eq r.workspace_path workspace_path)
    then []
    else r.thread_id

unfoldable pub resume_thread_id_for_rework : Runtime → Issue → Worker → Text
unfolding resumable
resume_thread_id_for_rework rt issue w =
    if not rt.has_sessions || not (in_state issue state_rework)
    then []
    else resumable w.workspace_path w.stored

unfoldable pub first_prompt : Text → FirstPrompt
first_prompt resume = if text_eq resume [] then rendered_prompt else first_continuation

unfoldable pub run_codex_session_attempt : Runtime → Issue → Text → CodexRun → Option SessionEnd
unfolding setting_of run_session
run_codex_session_attempt rt issue workspace_path run =
    run_session (setting_of rt workspace_path run) run.turns rt.fuel issue run.start_error

-- How an attempt ends after its last session.
unfoldable pub finish_attempt : SessionEnd → Option RunError → Ending
finish_attempt e none = ending e.session.attempt_outcome
finish_attempt e (some err) = return_retry_or_stop (some err)

unfoldable pub is_some : Option RunError → Bool
is_some none = false
is_some (some err) = true

-- A resumed session that failed before its first turn is run again in a new thread.
unfoldable pub falls_back : Text → Worker → SessionEnd → Bool
unfolding is_some
falls_back resume w e =
    is_some e.err && not (text_eq resume []) && not (is_some w.context_error) && (e.turns == 0)

unfoldable pub ended_by : List Effect → FirstPrompt → Text → Option SessionEnd → Option RunEnd
unfolding finish_attempt
ended_by before prompt resume none = none
ended_by before prompt resume (some e) = some (record {
  result = finish_attempt e e.err;
  effects = before ++ (ran_session prompt resume e ∷ []);
})

unfoldable pub deletions : Runtime → List Effect
deletions rt = if rt.has_sessions then deleted_record ∷ [] else []

unfoldable pub after_first_session :
    Runtime → Issue → Worker → Text → Option SessionEnd → Option RunEnd
unfolding falls_back ended_by deletions run_codex_session_attempt
after_first_session rt issue w resume none = none
after_first_session rt issue w resume (some e) =
    if falls_back resume w e
    then ended_by (ran_session (first_prompt resume) resume e ∷ deletions rt) rendered_prompt []
        (run_codex_session_attempt rt issue w.workspace_path w.second_run)
    else ended_by [] (first_prompt resume) resume (some e)

unfoldable pub run_sessions : Runtime → Issue → Worker → Option RunEnd
unfolding after_first_session resume_thread_id_for_rework run_codex_session_attempt
run_sessions rt issue w =
    after_first_session rt issue w (resume_thread_id_for_rework rt issue w)
      (run_codex_session_attempt rt issue w.workspace_path w.first_run)

-- Effects before or after those of a run.
unfoldable pub with_effects : List Effect → List Effect → Option RunEnd → Option RunEnd
with_effects before after none = none
with_effects before after (some e) =
    some (record { result = e.result; effects = before ++ (e.effects ++ after) })

unfoldable pub after_render : Runtime → Issue → Worker → Option RunError → Option RunEnd
unfolding run_sessions
after_render rt issue w (some err) =
    some (record { result = ending_with retry_failure err; effects = [] })
after_render rt issue w none = run_sessions rt issue w

unfoldable pub after_before_run : Runtime → Issue → Worker → Option RunError → Option RunEnd
unfolding after_render with_effects
after_before_run rt issue w (some err) =
    some (record { result = ending_with retry_failure err; effects = [] })
after_before_run rt issue w none =
    with_effects (rendered_workflow ∷ []) [] (after_render rt issue w w.render_error)

-- runWorkerAttempt from Ensure on; the deferred AfterRun hook is the last effect.
unfoldable pub after_ensure : Runtime → Issue → Worker → Option RunError → Option RunEnd
unfolding after_before_run with_effects
after_ensure rt issue w (some err) =
    some (record { result = ending_with retry_failure err; effects = ensured_workspace ∷ [] })
after_ensure rt issue w none =
    with_effects (ensured_workspace ∷ ran_before_run ∷ []) (ran_after_run ∷ [])
      (after_before_run rt issue w w.before_run_error)

unfoldable pub run_worker_attempt : Runtime → Issue → Worker → Option RunEnd
unfolding after_ensure
run_worker_attempt rt issue w = after_ensure rt issue w w.ensure_error

-- promoteTodoToInProgress: the test, and the issue with the write where the test holds.
unfoldable pub is_todo : Issue → Bool
is_todo issue = equal_fold (trim_space issue.state) state_todo

unfoldable pub promotion : Issue → Option RunError → Effect
promotion issue err = promoted (record {
  issue_id = issue.id;
  from_state = state_todo;
  to_state = state_in_progress;
  err = err;
})

-- RunIssueTrunk once the issue is promoted.
unfoldable pub run_promoted : Runtime → Issue → Worker → Option RunEnd
unfolding run_worker_attempt
run_promoted rt issue w =
    if waits_for_human_review issue
    then some (record { result = ending wait_human; effects = [] })
    else if not (is_active issue.state rt.config.tracker.active_states)
    then some (record { result = ending stopped; effects = [] })
    else run_worker_attempt rt issue w

unfoldable pub promote_todo_to_in_progress :
    Runtime → Issue → Worker → Option RunError → Option RunEnd
unfolding run_promoted promotion with_effects
promote_todo_to_in_progress rt issue w none =
    with_effects (promotion issue none ∷ []) []
      (run_promoted rt (record issue { state = state_in_progress }) w)
promote_todo_to_in_progress rt issue w (some err) =
    some
      (record { result = ending_with retry_failure err; effects = promotion issue (some err) ∷ [] })

-- RunIssueTrunk from the test of the terminal states on; `update_error` is the answer to the
-- promotion.
unfoldable pub run_issue : Runtime → Issue → Worker → Option RunError → Option RunEnd
unfolding promote_todo_to_in_progress is_todo run_promoted
run_issue rt issue w update_error =
    if state_name_in issue.state rt.config.tracker.terminal_states
    then some (record { result = ending done; effects = [] })
    else if waits_if_blocked issue
    then some (record { result = ending wait_human; effects = [] })
    else if is_todo issue
    then promote_todo_to_in_progress rt issue w update_error
    else run_promoted rt issue w

-- `context_error` is `ctx.Err()` at the start.
unfoldable pub run_issue_trunk :
    Runtime → Issue → Worker → Option RunError → Option RunError → Option RunEnd
unfolding run_issue
run_issue_trunk rt issue w (some err) update_error =
    some (record { result = ending_with stopped err; effects = [] })
run_issue_trunk rt issue w none update_error = run_issue rt issue w update_error
