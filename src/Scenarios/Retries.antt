-- ===== src/Scenarios/Retries.antt =====
-- A retry timer fires for an issue that the tracker still lists.
use symphony_go.Prelude.{
  ◌≡◌, refl, true, false, some, [], ◌∷◌, has_key, lookup, any, text_eq, trim_space, equal_fold,
  delete, count_if,
}
use symphony_go.Eligibility.{
  eligible, candidate_eligible, state_name_in, lacks_required_field, in_human_review,
  routed_elsewhere, is_claimed, available_slots_for_state, state_limit, running_in_state,
}
use symphony_go.Eligibility.Spec.{candidate_eligible_iff}
use symphony_go.Orchestrator.State.{Orchestrator}
use symphony_go.Orchestrator.Retrying.{attempt_of}
use symphony_go.Orchestrator.Dispatch.{
  running_map, max_concurrent_agents, service_done, eligibility_state, start_worker,
}
use symphony_go.Orchestrator.Exit.{signal_poll_now}
use symphony_go.Orchestrator.Env.{Env, fetched}
use symphony_go.Orchestrator.RetryHandler.{find_issue, handle_retry}
use symphony_go.Orchestrator.RetryHandler.Progress.{handle_retry-dispatch}
use symphony_go.Orchestrator.Safety.Interleavings.{new_orchestrator}
use symphony_go.Scenarios.{first_issue, fresh, env}

abbrev waiting : Orchestrator
waiting = record fresh {
  claimed = (first_issue.id, true) ∷ [];
  retry_attempts = (first_issue.id, 2) ∷ [];
}

serving : service_done waiting.service ≡ false
unfolding service_done new_orchestrator
serving = refl

listed : find_issue first_issue.id (first_issue ∷ []) ≡ some first_issue
unfolding find_issue text_eq
listed = refl

free : has_key first_issue.id waiting.running_cancel ≡ false
unfolding has_key lookup new_orchestrator
free = refl

dispatchable : candidate_eligible first_issue (eligibility_state first_issue.id waiting) ≡ eligible
unfolding candidate_eligible eligibility_state new_orchestrator has_key lookup delete any text_eq
    trim_space equal_fold lacks_required_field state_name_in in_human_review routed_elsewhere
    is_claimed running_map available_slots_for_state state_limit max_concurrent_agents
    running_in_state count_if
dispatchable = refl

abbrev answering : Env
answering = record env { fetch_active_issues = λ _. fetched (first_issue ∷ []) }

handle_retry-dispatch_example :
    (handle_retry answering 50 first_issue.id waiting
      ≡ signal_poll_now (start_worker 50 first_issue (attempt_of first_issue.id waiting) waiting))
    × ((handle_retry answering 50 first_issue.id waiting).workers
        ≡ first_issue.id ∷ waiting.workers)
handle_retry-dispatch_example =
    handle_retry-dispatch answering 50 first_issue.id waiting (first_issue ∷ []) first_issue serving
      refl listed free
      ((candidate_eligible_iff first_issue (eligibility_state first_issue.id waiting)).0
        dispatchable)
