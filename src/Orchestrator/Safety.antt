-- ===== src/Orchestrator/Safety.antt =====
-- What is to hold of the orchestrator between two locked sections: one worker for an issue, every
-- worker shown, and no more running entries than max_concurrent_agents. A reload of the configuration
-- that lowers max_concurrent_agents breaks the last one until enough workers end, and is left out.
pub mod Operations
pub mod Interleavings
pub mod Handlers
pub mod Polling
use symphony_go.Prelude.{ℕ, ◌≤◌, ◌≡◌, true, Text, has_key, has_by, Distinct, length, some}
use symphony_go.Orchestrator.State.{Orchestrator, worker_key}
use symphony_go.Orchestrator.Running.{running_key}
use symphony_go.Orchestrator.Retrying.{retry_key}
use symphony_go.Orchestrator.Dispatch.{max_concurrent_agents}

pub record Safe (o : Orchestrator) : Type 0 where
  pub running_distinct : Distinct running_key o.running
  pub retrying_distinct : Distinct retry_key o.retrying
  pub workers_distinct : Distinct worker_key o.workers
  pub within_limit : length o.running ≤ max_concurrent_agents (some o.config)
  pub worker_shown :
      (id : Text) → has_by worker_key id o.workers ≡ true → has_by running_key id o.running ≡ true
  pub shown_cancel :
      (id : Text) → has_by running_key id o.running ≡ true → has_key id o.running_cancel ≡ true
