-- ===== src/Orchestrator/Safety/Interleavings.antt =====
-- Interleavings of the locked sections, as a step relation: the goroutines of the poll loop, of the
-- workers and of the timers take the lock in whatever order. A reload of the configuration that lowers
-- max_concurrent_agents is not a step.
use symphony_go.Prelude.{
  ℕ, pos, ◌≤◌, ◌≡◌, refl, true, false, Text, Option, some, List, [], has_by, arith,
}
use symphony_go.Domain.{Config, Issue, RunningEntry}
use symphony_go.Backoff.{RetryReason}
use symphony_go.Observability.{Event}
use symphony_go.Orchestrator.State.{
  Orchestrator, Service, Timer, Effect, unset, worker_key, cancel_context,
}
use symphony_go.Orchestrator.Running.{
  running_key, set_running_stage, update_running_state, update_running_from_event,
}
use symphony_go.Orchestrator.Retrying.{schedule_retry, clear_retry, stop_retry_timers}
use symphony_go.Orchestrator.Dispatch.{
  max_concurrent_agents, dispatch_issue_done, claim_issue, release_issue,
}
use symphony_go.Orchestrator.Exit.{
  retire_worker, forget_cancel, signal_poll_now, mark_pending_terminal_cleanup,
  pop_pending_terminal_cleanup,
}
use symphony_go.Orchestrator.RetryHandler.{set_last_error}
use symphony_go.Orchestrator.Reconcile.{cancel_running}
use symphony_go.Orchestrator.Safety.{Safe}
use symphony_go.Orchestrator.Safety.Operations.{
  Safe-same, schedule_retry-Safe, clear_retry-Safe, update_running_state-Safe,
  update_running_from_event-Safe, set_running_stage-Safe, retire_worker-Safe, forget_cancel-Safe,
  dispatch_issue_done-Safe,
}

-- A new orchestrator: nothing runs.
unfoldable pub new_orchestrator : Config → Text → Orchestrator
new_orchestrator config issue_filter = record {
  config = config;
  issue_filter = issue_filter;
  running = [];
  retrying = [];
  totals = record {
    input_tokens = pos 0;
    output_tokens = pos 0;
    total_tokens = pos 0;
    nanos_running = 0;
  };
  last_error = [];
  claimed = [];
  running_cancel = [];
  pending_terminal_cleanup = [];
  service = unset;
  retry_timers = [];
  retry_attempts = [];
  poll_now = false;
  next_id = 0;
  cancelled = [];
  armed = [];
  workers = [];
  effects = [];
}

-- One locked section. A worker reports stages of its own issue only, and drops the cancel function of
-- its issue only after it took its entry away. A reload is a step if it does not lower the limit.
pub data Step (o : Orchestrator) : Orchestrator → Type 0 where
  dispatching :
      (now : ℕ) (issue : Issue) (attempt : ℕ) → Step o (dispatch_issue_done now issue attempt o).0
  scheduling :
      (now : ℕ) (issue : Issue) (attempt : ℕ) (reason : RetryReason) (err : Option Text)
      → Step o (schedule_retry now issue attempt reason err o)
  clearing : (id : Text) → Step o (clear_retry id o)
  reporting :
      (now : ℕ) (issue : Issue) (attempt : ℕ) (phase stage message path : Text) (turn : ℕ)
      → has_by worker_key issue.id o.workers ≡ true
      → Step o (set_running_stage now issue attempt phase stage message path turn o)
  receiving :
      (now : ℕ) (id : Text) (event : Event) → Step o (update_running_from_event now id event o)
  moving : (id state : Text) → Step o (update_running_state id state o)
  retiring : (now : ℕ) (id : Text) → Step o (retire_worker now id o)
  forgetting : (id : Text) → has_by running_key id o.running ≡ false → Step o (forget_cancel id o)
  cancelling : (id : Text) → Step o (cancel_running id o)
  claiming : (id : Text) → Step o (claim_issue id o)
  releasing : (id : Text) → Step o (release_issue id o)
  marking :
      (issue : Issue) (entry : RunningEntry) → Step o (mark_pending_terminal_cleanup issue entry o)
  popping : (id : Text) → Step o (pop_pending_terminal_cleanup id o)
  signalling : Step o (signal_poll_now o)
  failing : (message : Text) → Step o (set_last_error message o)
  stopping : Step o (stop_retry_timers o)
  acting : (effects : List Effect) → Step o (record o { effects = effects })
  firing : (armed : List Timer) → Step o (record o { armed = armed })
  serving : (service : Service) → Step o (record o { service = service })
  reloading :
      (config : Config)
      → max_concurrent_agents (some o.config) ≤ max_concurrent_agents (some config)
      → Step o (record o { config = config })

pub data Reach (o : Orchestrator) : Orchestrator → Type 0 where
  here : Reach o o
  next : {p q : Orchestrator} → Reach o p → Step p q → Reach o q

pub Reach-trans : {o p q : Orchestrator} → Reach o p → Reach p q → Reach o q
Reach-trans r here = r
Reach-trans r (next t st) = next (Reach-trans r t) st

pub one : {o p : Orchestrator} → Step o p → Reach o p
one st = next here st

reloading-Safe :
    (config : Config) (o : Orchestrator)
    → max_concurrent_agents (some o.config) ≤ max_concurrent_agents (some config)
    → Safe o
    → Safe (record o { config = config })
reloading-Safe config o h s = record {
  running_distinct = s.running_distinct;
  retrying_distinct = s.retrying_distinct;
  workers_distinct = s.workers_distinct;
  within_limit = omega (arith, s.within_limit, h);
  worker_shown = s.worker_shown;
  shown_cancel = s.shown_cancel;
}

Step-Safe : {o p : Orchestrator} → Step o p → Safe o → Safe p
unfolding cancel_running claim_issue release_issue mark_pending_terminal_cleanup
    pop_pending_terminal_cleanup signal_poll_now set_last_error stop_retry_timers cancel_context
Step-Safe {o} (dispatching now issue attempt) s = dispatch_issue_done-Safe now issue attempt o s
Step-Safe {o} (scheduling now issue attempt reason err) s =
    schedule_retry-Safe now issue attempt reason err o s
Step-Safe {o} (clearing id) s = clear_retry-Safe id o s
Step-Safe {o} (reporting now issue attempt phase stage message path turn w) s =
    set_running_stage-Safe now issue attempt phase stage message path turn o w s
Step-Safe {o} (receiving now id event) s = update_running_from_event-Safe now id event o s
Step-Safe {o} (moving id state) s = update_running_state-Safe id state o s
Step-Safe {o} (retiring now id) s = retire_worker-Safe now id o s
Step-Safe {o} (forgetting id gone) s = forget_cancel-Safe id o gone s
Step-Safe {o} (reloading config h) s = reloading-Safe config o h s
Step-Safe {o} (cancelling id) s = Safe-same o _ refl refl refl refl refl s
Step-Safe {o} (claiming id) s = Safe-same o _ refl refl refl refl refl s
Step-Safe {o} (releasing id) s = Safe-same o _ refl refl refl refl refl s
Step-Safe {o} (marking issue entry) s = Safe-same o _ refl refl refl refl refl s
Step-Safe {o} (popping id) s = Safe-same o _ refl refl refl refl refl s
Step-Safe {o} signalling s = Safe-same o _ refl refl refl refl refl s
Step-Safe {o} (failing message) s = Safe-same o _ refl refl refl refl refl s
Step-Safe {o} stopping s = Safe-same o _ refl refl refl refl refl s
Step-Safe {o} (acting effects) s = Safe-same o _ refl refl refl refl refl s
Step-Safe {o} (firing armed) s = Safe-same o _ refl refl refl refl refl s
Step-Safe {o} (serving service) s = Safe-same o _ refl refl refl refl refl s

pub Reach-Safe-from : {o p : Orchestrator} → Reach o p → Safe o → Safe p
Reach-Safe-from here s = s
Reach-Safe-from (next r st) s = Step-Safe st (Reach-Safe-from r s)

new_orchestrator-Safe :
    (config : Config) (issue_filter : Text) → Safe (new_orchestrator config issue_filter)
unfolding new_orchestrator has_by
new_orchestrator-Safe config issue_filter = record {
  running_distinct = tt;
  retrying_distinct = tt;
  workers_distinct = tt;
  within_limit = omega arith;
  worker_shown = λ id h. cc;
  shown_cancel = λ id h. cc;
}

-- From a new orchestrator, however the locked sections interleave, as long as no reload of the
-- configuration lowers max_concurrent_agents, a worker reports stages of its own issue only, and a cancel
-- function is dropped only after the running entry: running and retrying entries have distinct issues,
-- an issue has at most one worker, every worker's issue is among the running entries, every running
-- issue has its cancel function, and there are at most max_concurrent_agents running entries.
pub Reach-Safe :
    (config : Config) (issue_filter : Text) {o : Orchestrator}
    → Reach (new_orchestrator config issue_filter) o
    → Safe o
Reach-Safe config issue_filter r = Reach-Safe-from r (new_orchestrator-Safe config issue_filter)
