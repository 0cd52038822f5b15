-- ===== src/Orchestrator/Dispatch.antt =====
-- Claims and dispatch: eligibilityStateLocked, globalSlotsAvailable, maxConcurrentAgents, claimIssue,
-- releaseIssue, serviceDoneLocked and dispatchIssueDone of orchestrator.go. The goroutine that a
-- dispatch starts is an entry of `workers`; what it runs is RunIssueTrunk.
pub mod Slots
pub mod Accepts
use symphony_go.Prelude.{
  ℕ, ◌+◌, ◌-◌, Bool, true, false, ◌&&◌, not, Text, codes, if◌then◌else◌, is_positive, to_nat, Map,
  lookup, insert, delete, has_key, Option, none, some, List, [], ◌∷◌, length,
}
use symphony_go.Domain.{Config, Issue, RunningEntry}
use symphony_go.ReviewPolicy.{effective_review_policy, allows_ai_review_state}
use symphony_go.Eligibility.{
  EligibilityState, RunningIssue, Reason, Verdict, eligible, refused, already_claimed,
  candidate_eligible,
}
use symphony_go.Orchestrator.State.{Orchestrator, Service, unset, live, done}
use symphony_go.Orchestrator.Running.{set_running_stage}
use symphony_go.Orchestrator.Retrying.{drop_retry}

unfoldable pub max_concurrent_agents : Option Config → ℕ
max_concurrent_agents none = 10
max_concurrent_agents (some c) =
    if is_positive c.agent.max_concurrent_agents then to_nat c.agent.max_concurrent_agents else 10

-- The loop that fills the running map: a later entry of an issue replaces an earlier one.
unfoldable pub running_map : Map RunningIssue → List RunningEntry → Map RunningIssue
running_map acc [] = acc
running_map acc (entry ∷ entries) =
    running_map (insert entry.issue_id (record { state = entry.state }) acc) entries

-- eligibilityStateLocked
unfoldable pub eligibility_state : Text → Orchestrator → EligibilityState
eligibility_state ignore_claim_issue_id o = record {
  active_states = o.config.tracker.active_states;
  terminal_states = o.config.tracker.terminal_states;
  claimed = delete ignore_claim_issue_id o.claimed;
  running = running_map [] o.running;
  max_concurrent = max_concurrent_agents (some o.config);
  per_state = o.config.agent.max_concurrent_agents_by_state;
  ai_review = allows_ai_review_state (effective_review_policy o.config.agent);
}

unfoldable pub global_slots_available : Orchestrator → ℕ
unfolding max_concurrent_agents
global_slots_available o = max_concurrent_agents (some o.config) - length o.running

unfoldable pub claim_issue : Text → Orchestrator → Orchestrator
claim_issue id o = record o { claimed = insert id true o.claimed }

unfoldable pub release_issue : Text → Orchestrator → Orchestrator
release_issue id o = record o { claimed = delete id o.claimed }

unfoldable pub service_done : Service → Bool
service_done unset = false
service_done live = false
service_done done = true

-- `ok || reason == "claimed"`
unfoldable pub may_dispatch : Verdict → Bool
may_dispatch eligible = true
may_dispatch (refused already_claimed) = true
may_dispatch (refused _) = false

-- The writes of dispatchIssueDone once its guards have passed.
unfoldable pub start_worker : ℕ → Issue → ℕ → Orchestrator → Orchestrator
start_worker now issue attempt o =
    let claimed = drop_retry issue.id (record o {
      claimed = insert issue.id true o.claimed;
      running_cancel = insert issue.id o.next_id o.running_cancel;
      next_id = o.next_id + 1;
    }) in
    let queued =
      set_running_stage now issue attempt (codes "") (codes "queued") (codes "queued for worker")
        (codes "") 1 claimed in
    record queued { workers = issue.id ∷ queued.workers }

unfoldable pub dispatch_issue_done : ℕ → Issue → ℕ → Orchestrator → Orchestrator × Bool
unfolding service_done may_dispatch
dispatch_issue_done now issue attempt o =
    let started = start_worker now issue attempt o in
    if service_done o.service
    then (o, false)
    else if has_key issue.id o.running_cancel
    then (o, false)
    else if not (may_dispatch (candidate_eligible issue (eligibility_state issue.id o)))
    then (o, false)
    else (started, true)
