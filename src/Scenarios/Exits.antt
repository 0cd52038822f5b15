-- ===== src/Scenarios/Exits.antt =====
-- An issue is dispatched, and its worker ends with an error.
use symphony_go.Prelude.{
  ◌≡◌, ◌↔◌, refl, true, false, none, some, [], ◌∷◌, codes, has_key, lookup, any, text_eq,
  trim_space, equal_fold,
}
use symphony_go.Eligibility.{state_name_in}
use symphony_go.Eligibility.Spec.{Dispatchable}
use symphony_go.Outcomes.{retry_failure, failed}
use symphony_go.Orchestrator.State.{Orchestrator}
use symphony_go.Orchestrator.Dispatch.{
  dispatch_issue_done, service_done, eligibility_state, start_worker,
}
use symphony_go.Orchestrator.Dispatch.Accepts.{dispatch_issue_done_iff}
use symphony_go.Orchestrator.Exit.{worker_exited}
use symphony_go.Orchestrator.Exit.Retries.{Alive, Follows, worker_exited-Follows}
use symphony_go.Orchestrator.Safety.Interleavings.{new_orchestrator}
use symphony_go.Scenarios.{first_issue, fresh, env}

dispatch_issue_done_iff_example :
    (((dispatch_issue_done 5 first_issue 0 fresh).1 ≡ true) ↔ (
      (service_done fresh.service ≡ false)
      × (has_key first_issue.id fresh.running_cancel ≡ false)
      × Dispatchable first_issue (eligibility_state first_issue.id fresh)))
    × ((dispatch_issue_done 5 first_issue 0 fresh).1 ≡ true
        → (dispatch_issue_done 5 first_issue 0 fresh).0 ≡ start_worker 5 first_issue 0 fresh)
    × ((dispatch_issue_done 5 first_issue 0 fresh).1 ≡ false
        → (dispatch_issue_done 5 first_issue 0 fresh).0 ≡ fresh)
dispatch_issue_done_iff_example = dispatch_issue_done_iff 5 first_issue 0 fresh

abbrev started : Orchestrator
started = record fresh {
  claimed = (first_issue.id, true) ∷ [];
  running_cancel = (first_issue.id, 7) ∷ [];
  workers = first_issue.id ∷ [];
}

no_cleanup : lookup first_issue.id started.pending_terminal_cleanup ≡ none
unfolding lookup new_orchestrator
no_cleanup = refl

no_retry : lookup first_issue.id started.retry_attempts ≡ none
unfolding lookup new_orchestrator
no_retry = refl

serving : service_done started.service ≡ false
unfolding service_done new_orchestrator
serving = refl

alive : Alive started.config (env.fetch_issue first_issue.id)
unfolding new_orchestrator state_name_in any text_eq trim_space equal_fold
alive = refl

worker_exited-Follows_example :
    Follows first_issue.id
      (some 1)
      started
      (worker_exited env 9 first_issue 0 retry_failure (some (failed (codes "broken"))) started)
worker_exited-Follows_example =
    worker_exited-Follows env 9 first_issue 0 retry_failure (some (failed (codes "broken"))) started
      no_cleanup no_retry serving alive
