-- ===== src/Orchestrator/RetryHandler.antt =====
-- handleRetry of orchestrator.go: what happens when a retry timer fires. Logging is not modelled.
pub mod Progress
use symphony_go.Prelude.{
  ℕ, ◌+◌, Text, codes, text_eq, if◌then◌else◌, delete, Option, none, some, List, [], ◌∷◌, ◌++◌, not,
  filter, ◌==◌,
}
use symphony_go.Domain.{Issue}
use symphony_go.Backoff.{failure}
use symphony_go.Eligibility.{
  Verdict, eligible, refused, no_available_orchestrator_slots, candidate_eligible,
}
use symphony_go.Orchestrator.State.{Orchestrator}
use symphony_go.Orchestrator.Env.{Env, Fetch, fetched, fetch_failed}
use symphony_go.Orchestrator.Retrying.{schedule_retry, clear_retry, attempt_of, retry_issue}
use symphony_go.Orchestrator.Dispatch.{
  eligibility_state, release_issue, dispatch_issue_done, service_done,
}
use symphony_go.Orchestrator.Exit.{signal_poll_now}

unfoldable pub find_issue : Text → List Issue → Option Issue
find_issue id [] = none
find_issue id (issue ∷ rest) =
    let others = find_issue id rest in if text_eq issue.id id then some issue else others

unfoldable pub set_last_error : Text → Orchestrator → Orchestrator
set_last_error message o = record o { last_error = message }

-- clearRetry, releaseIssue, signalPollNow.
unfoldable pub give_up_retry : Text → Orchestrator → Orchestrator
give_up_retry id o = signal_poll_now (release_issue id (clear_retry id o))

abbrev pub no_slots_error : Option Text
no_slots_error = some (codes "no available orchestrator slots")

-- `eligibilityState` without the issue's own claim.
unfoldable pub retry_verdict : Issue → Text → Orchestrator → Verdict
retry_verdict issue id o =
    let s = eligibility_state (codes "") o in
    candidate_eligible issue (record s { claimed = delete id s.claimed })

unfoldable pub schedule_next : ℕ → Issue → ℕ → Option Text → Orchestrator → Orchestrator
schedule_next now issue attempt err o =
    signal_poll_now (schedule_retry now issue (attempt + 1) failure err o)

-- A dispatch that is refused schedules another attempt.
unfoldable pub retry_dispatch : ℕ → Issue → ℕ → Orchestrator → Orchestrator
unfolding schedule_next
retry_dispatch now issue attempt o =
    let (dispatched, accepted) = dispatch_issue_done now issue attempt o in
    if accepted
    then signal_poll_now dispatched
    else schedule_next now issue attempt no_slots_error dispatched

unfoldable pub retry_by_verdict : ℕ → Issue → Text → Verdict → Orchestrator → Orchestrator
unfolding retry_dispatch give_up_retry
retry_by_verdict now issue id eligible o = retry_dispatch now issue (attempt_of id o) o
retry_by_verdict now issue id (refused no_available_orchestrator_slots) o =
    schedule_next now issue (attempt_of id o) no_slots_error o
retry_by_verdict now issue id (refused _) o = give_up_retry id o

unfoldable pub retry_found : ℕ → Text → Option Issue → Orchestrator → Orchestrator
unfolding retry_by_verdict retry_verdict
retry_found now id none o = give_up_retry id o
retry_found now id (some issue) o = retry_by_verdict now issue id (retry_verdict issue id o) o

unfoldable pub retry_after_failure : ℕ → Text → Text → Orchestrator → Orchestrator
unfolding schedule_next set_last_error
retry_after_failure now id message o =
    let wrapped = codes "retry poll failed: " ++ message in
    let recorded = set_last_error wrapped o in
    elim (retry_issue id recorded) [
      | none ↦ signal_poll_now recorded
      | some (issue, attempt) ↦ schedule_next now issue attempt (some wrapped) recorded
    ]

unfoldable pub retry_fetched : ℕ → Text → Fetch (List Issue) → Orchestrator → Orchestrator
unfolding retry_found retry_after_failure find_issue
retry_fetched now id (fetched issues) o = retry_found now id (find_issue id issues) o
retry_fetched now id (fetch_failed message) o = retry_after_failure now id message o

unfoldable pub handle_retry : Env → ℕ → Text → Orchestrator → Orchestrator
unfolding retry_fetched give_up_retry service_done
handle_retry env now id o =
    if service_done o.service
    then give_up_retry id o
    else retry_fetched now id (env.fetch_active_issues o.config.tracker.active_states) o

-- An armed timer fires: the runtime forgets it and calls handleRetry for its issue.
unfoldable pub fire_timer : Env → ℕ → ℕ → Text → Orchestrator → Orchestrator
unfolding handle_retry
fire_timer env now timer id o =
    handle_retry env now id (record o { armed = filter (λ t. not (t.id == timer)) o.armed })
