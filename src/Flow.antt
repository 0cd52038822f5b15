-- ===== src/Flow.antt =====
-- internal/service/issueflow/flow.go and review_merge.go: the lifecycle decisions of an issue. Logging
-- and telemetry are not modelled.
pub mod Turns
pub mod Trunk
use symphony_go.Prelude.{
  ℕ, Bool, true, false, ◌&&◌, ◌||◌, not, is_positive, to_nat, ltb, leb, Text, codes, text_eq,
  to_lower, trim_space, equal_fold, has_prefix, if◌then◌else◌, Option, none, some, List, [], ◌∷◌,
  any,
}
use symphony_go.Domain.{Config, Issue}
use symphony_go.Outcomes.{
  Outcome, RunError, done, wait_human, retry_failure, retry_continuation, stopped, canceled, failed,
}
use symphony_go.Eligibility.{state_name_in}

unfoldable pub state_blocked : Text
state_blocked = codes "Blocked"

unfoldable pub state_todo : Text
state_todo = codes "Todo"

unfoldable pub state_in_progress : Text
state_in_progress = codes "In Progress"

unfoldable pub state_ai_review : Text
state_ai_review = codes "AI Review"

unfoldable pub state_pushing : Text
state_pushing = codes "Pushing"

unfoldable pub state_merging : Text
state_merging = codes "Merging"

unfoldable pub state_done : Text
state_done = codes "Done"

unfoldable pub state_rework : Text
state_rework = codes "Rework"

unfoldable pub state_human_review : Text
state_human_review = codes "Human Review"

-- RunStage
pub data RunStage : Type 0 where
  queued preparing_workspace running_workspace_hooks rendering_prompt running_agent : RunStage
  continuing_ai_review continuing_pushing continuing_merging continuing_implementation : RunStage

-- AgentPhase
pub data AgentPhase : Type 0 where
  implementer reviewer : AgentPhase

-- Which of the four texts of result.go a further turn is prompted with.
pub data Prompt : Type 0 where
  continuation_prompt ai_review_prompt pushing_prompt merging_prompt : Prompt

-- An empty list of active states lets every state pass.
unfoldable pub is_active : Text → List Text → Bool
is_active state [] = true
is_active state (s ∷ active) = state_name_in state (s ∷ active)

unfoldable pub review_prefixes : List Text
review_prefixes =
    codes "review: pass" ∷ codes "conclusion: pass" ∷ codes "结论: pass" ∷ codes "结论：pass" ∷ []

unfoldable pub review_final_passes : Text → Bool
unfolding review_prefixes
review_final_passes text =
    any (λ prefix. has_prefix (to_lower (trim_space text)) prefix) review_prefixes

unfoldable pub merge_final_passes : Text → Bool
merge_final_passes text = has_prefix (to_lower (trim_space text)) (codes "merge: pass")

unfoldable pub push_final_passes : Text → Bool
push_final_passes text = has_prefix (to_lower (trim_space text)) (codes "push: pass")

unfoldable pub in_state : Issue → Text → Bool
in_state issue state = state_name_in issue.state (state ∷ [])

unfoldable pub review_state_passes : Issue → Text → Bool
review_state_passes issue message = in_state issue state_ai_review && review_final_passes message

unfoldable pub merging_state_passes : Issue → Text → Bool
merging_state_passes issue message = in_state issue state_merging && merge_final_passes message

unfoldable pub pushing_state_passes : Issue → Text → Bool
pushing_state_passes issue message = in_state issue state_pushing && push_final_passes message

unfoldable pub state_write_extension_enabled : Config → Bool
state_write_extension_enabled c = equal_fold (trim_space c.agent.review_policy.mode) (codes "auto")

unfoldable pub max_turns : Config → ℕ
max_turns c = if is_positive c.agent.max_turns then to_nat c.agent.max_turns else 1

unfoldable pub next_worker_phase : Issue → AgentPhase
next_worker_phase issue =
    if state_name_in issue.state (state_ai_review ∷ state_pushing ∷ state_merging ∷ [])
    then reviewer
    else implementer

unfoldable pub next_worker_prompt : Issue → Prompt
next_worker_prompt issue =
    if in_state issue state_ai_review
    then ai_review_prompt
    else if in_state issue state_pushing
    then pushing_prompt
    else if in_state issue state_merging
    then merging_prompt
    else continuation_prompt

-- implementationStage and its three siblings: the first turn is `running_agent`.
unfoldable pub stage_from : RunStage → ℕ → RunStage
stage_from stage turn = if leb turn 1 then running_agent else stage

unfoldable pub next_worker_stage : Issue → ℕ → RunStage
next_worker_stage issue turn =
    if in_state issue state_ai_review
    then stage_from continuing_ai_review turn
    else if in_state issue state_pushing
    then stage_from continuing_pushing turn
    else if in_state issue state_merging
    then stage_from continuing_merging turn
    else stage_from continuing_implementation turn

-- waitIfHumanReview
unfoldable pub waits_for_human_review : Issue → Bool
waits_for_human_review issue =
    equal_fold (trim_space issue.state) state_human_review
    || equal_fold (trim_space issue.state) (codes "In Review")

unfoldable pub waits_if_blocked : Issue → Bool
waits_if_blocked issue = equal_fold (trim_space issue.state) state_blocked

-- A result with its error, as RunIssueTrunk and its parts return them.
pub record Ending : Type 0 where
  pub outcome : Outcome
  pub err : Option RunError

abbrev pub ending : Outcome → Ending
ending outcome = record { outcome = outcome; err = none }

abbrev pub ending_with : Outcome → RunError → Ending
ending_with outcome err = record { outcome = outcome; err = some err }

-- decideAfterTurn after the test of the context: none where the run goes on.
unfoldable pub decide_by_state : Config → Issue → Option Ending
decide_by_state c issue =
    if state_name_in issue.state c.tracker.terminal_states
    then some (ending done)
    else if waits_for_human_review issue
    then some (ending wait_human)
    else if not (is_active issue.state c.tracker.active_states)
    then some (ending stopped)
    else none

-- decideAfterTurn; `context_error` is `ctx.Err()`.
unfoldable pub decide_after_turn : Config → Option RunError → Issue → Option Ending
unfolding decide_by_state
decide_after_turn c (some err) issue = some (ending_with stopped err)
decide_after_turn c none issue = decide_by_state c issue

unfoldable pub return_retry_or_stop : Option RunError → Ending
return_retry_or_stop none = ending retry_continuation
return_retry_or_stop (some canceled) = ending_with stopped canceled
return_retry_or_stop (some (failed message)) = ending_with retry_failure (failed message)
