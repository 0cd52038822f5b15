-- ===== src/Orchestrator/Dispatch/Accepts.antt =====
-- When a dispatch is accepted: dispatchIssueDone of internal/service/orchestrator/orchestrator.go
-- against the conditions of eligibility.go.
use symphony_go.Prelude.{ℕ, ◌≡◌, ◌↔◌, true, false, has_key}
use symphony_go.Domain.{Issue}
use symphony_go.Eligibility.{candidate_eligible, eligible}
use symphony_go.Eligibility.Spec.{Dispatchable, candidate_eligible_iff}
use symphony_go.Orchestrator.State.{Orchestrator}
use symphony_go.Orchestrator.Dispatch.{
  dispatch_issue_done, service_done, eligibility_state, start_worker, may_dispatch,
}
use symphony_go.Orchestrator.Dispatch.Slots.{accepted_checks, refused_unchanged}

dispatch_eligible :
    (now : ℕ) (issue : Issue) (attempt : ℕ) (o : Orchestrator)
    → service_done o.service ≡ false
    → has_key issue.id o.running_cancel ≡ false
    → candidate_eligible issue (eligibility_state issue.id o) ≡ eligible
    → (dispatch_issue_done now issue attempt o).1 ≡ true
unfolding dispatch_issue_done may_dispatch
dispatch_eligible now issue attempt o served free h = rw (served, free, h)

-- A dispatch is accepted exactly when the service is not shut down, the issue has no running worker,
-- and the issue is dispatchable when its own claim is not counted: complete, active, not terminal or
-- in review, routed to this worker, not blocked, with a free slot overall and in its state. A dispatch
-- that is accepted starts a worker; one that is refused changes nothing.
pub dispatch_issue_done_iff :
    (now : ℕ) (issue : Issue) (attempt : ℕ) (o : Orchestrator)
    → (((dispatch_issue_done now issue attempt o).1 ≡ true) ↔ (
        (service_done o.service ≡ false)
        × (has_key issue.id o.running_cancel ≡ false)
        × Dispatchable issue (eligibility_state issue.id o)))
      × ((dispatch_issue_done now issue attempt o).1 ≡ true
          → (dispatch_issue_done now issue attempt o).0 ≡ start_worker now issue attempt o)
      × ((dispatch_issue_done now issue attempt o).1 ≡ false
          → (dispatch_issue_done now issue attempt o).0 ≡ o)
dispatch_issue_done_iff now issue attempt o =
    let spec = candidate_eligible_iff issue (eligibility_state issue.id o) in
    (
      (
        λ h.
            let (served, free, ok, same) = accepted_checks now issue attempt o h in
            (served, free, spec.0 ok),
        λ h. dispatch_eligible now issue attempt o h.0 h.1 (spec.1 h.2),
      ),
      λ h. let (served, free, ok, same) = accepted_checks now issue attempt o h in same,
      refused_unchanged now issue attempt o,
    )
