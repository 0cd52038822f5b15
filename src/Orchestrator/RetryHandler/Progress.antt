-- ===== src/Orchestrator/RetryHandler/Progress.antt =====
-- handleRetry of orchestrator.go gets an issue running again when its retry timer fires.
use symphony_go.Prelude.{
  ℕ, Bool, true, false, Text, codes, text_eq, text_eq→eq, text_eq_refl, lookup, delete, has_key,
  lookup-delete, Map, some, List, [], ◌∷◌, ◌≡◌, ◌≢◌, refl, sym, ap, ◌∙◌, subst, arith,
}
use symphony_go.Domain.{Issue}
use symphony_go.Eligibility.{eligible, state_limit}
use symphony_go.Eligibility.Spec.{Dispatchable, candidate_eligible_iff}
use symphony_go.Orchestrator.State.{Orchestrator, stop_timer}
use symphony_go.Orchestrator.Env.{Env, fetched}
use symphony_go.Orchestrator.Retrying.{attempt_of, drop_retry, remove_retry}
use symphony_go.Orchestrator.Running.{set_running_stage}
use symphony_go.Orchestrator.Dispatch.{
  eligibility_state, dispatch_issue_done, service_done, start_worker,
}
use symphony_go.Orchestrator.Dispatch.Accepts.{dispatch_issue_done_iff}
use symphony_go.Orchestrator.Exit.{signal_poll_now}
use symphony_go.Orchestrator.RetryHandler.{
  find_issue, retry_verdict, retry_dispatch, retry_by_verdict, retry_found, retry_fetched,
  handle_retry,
}

find_issue-id :
    (id : Text) (issues : List Issue) (issue : Issue)
    → find_issue id issues ≡ some issue
    → issue.id ≡ id
unfolding find_issue
find_issue-id id [] issue h = cc
find_issue-id id (first ∷ rest) issue h =
    grind (arith, text_eq→eq first.id id, find_issue-id id rest issue, h)

deleted_is_unclaimed : (id : Text) (claimed : Map Bool) → lookup id (delete id claimed) ≢ some true
deleted_is_unclaimed id claimed =
    λ h. ground (arith, h, lookup-delete id id claimed, text_eq_refl id)

-- The retry handler does not count the issue's own claim, nor does the dispatch.
retry_verdict-eligible :
    (issue : Issue) (id : Text) (o : Orchestrator)
    → issue.id ≡ id
    → Dispatchable issue (eligibility_state issue.id o)
    → retry_verdict issue id o ≡ eligible
unfolding retry_verdict eligibility_state delete text_eq state_limit
retry_verdict-eligible issue id o same h =
    let s = eligibility_state (codes "") o in
    (candidate_eligible_iff issue (record s { claimed = delete id s.claimed })).1 (record {
      has_id = h.has_id;
      has_identifier = h.has_identifier;
      has_title = h.has_title;
      has_state = h.has_state;
      active = h.active;
      not_terminal = h.not_terminal;
      not_human_review = h.not_human_review;
      not_in_review = h.not_in_review;
      ai_review_allowed = h.ai_review_allowed;
      routed_here = h.routed_here;
      unclaimed =
          subst (λ i. lookup i (delete id s.claimed) ≢ some true) (sym same)
            (deleted_is_unclaimed id s.claimed);
      not_running = h.not_running;
      blockers_closed = h.blockers_closed;
      global_slot = h.global_slot;
      state_slot = h.state_slot;
    })

retry_dispatch-accepted :
    (now : ℕ) (issue : Issue) (attempt : ℕ) (o : Orchestrator)
    → (dispatch_issue_done now issue attempt o).1 ≡ true
    → (dispatch_issue_done now issue attempt o).0 ≡ start_worker now issue attempt o
    → retry_dispatch now issue attempt o ≡ signal_poll_now (start_worker now issue attempt o)
unfolding retry_dispatch
retry_dispatch-accepted now issue attempt o accepted same = rw (accepted, same) refl

started-workers :
    (now : ℕ) (issue : Issue) (attempt : ℕ) (o : Orchestrator)
    → (signal_poll_now (start_worker now issue attempt o)).workers ≡ issue.id ∷ o.workers
unfolding signal_poll_now start_worker set_running_stage drop_retry remove_retry stop_timer
started-workers now issue attempt o = ground arith

-- A retry timer fires while the service runs, the tracker answers, and its answer has the issue, which has
-- no running worker and is dispatchable when its own claim is not counted. Then the handler starts a
-- worker for it, with the number of the attempt that was queued, and asks for a poll.
pub handle_retry-dispatch :
    (env : Env) (now : ℕ) (id : Text) (o : Orchestrator) (issues : List Issue) (issue : Issue)
    → service_done o.service ≡ false
    → env.fetch_active_issues o.config.tracker.active_states ≡ fetched issues
    → find_issue id issues ≡ some issue
    → has_key issue.id o.running_cancel ≡ false
    → Dispatchable issue (eligibility_state issue.id o)
    → (handle_retry env now id o ≡ signal_poll_now (start_worker now issue (attempt_of id o) o))
      × ((handle_retry env now id o).workers ≡ issue.id ∷ o.workers)
unfolding handle_retry retry_fetched retry_found retry_by_verdict
handle_retry-dispatch env now id o issues issue served answered there free h =
    let accepts = dispatch_issue_done_iff now issue (attempt_of id o) o in
    let accepted = accepts.0.1 (served, free, h) in
    let verdict = retry_verdict-eligible issue id o (find_issue-id id issues issue there) h in
    let dispatched =
      retry_dispatch-accepted now issue (attempt_of id o) o accepted (accepts.1 accepted) in
    let handled : handle_retry env now id o
        ≡ signal_poll_now (start_worker now issue (attempt_of id o) o) =
      rw
        (
          handle_retry, served, retry_fetched, answered, retry_found, there, retry_by_verdict,
          verdict,
        )
        dispatched in
    (handled, ap (λ p. p.workers) handled ∙ started-workers now issue (attempt_of id o) o)
