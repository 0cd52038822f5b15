-- ===== src/Orchestrator.antt =====
-- internal/service/orchestrator: the orchestrator's state, its locked operations and its handlers.
pub mod State
pub mod Env
pub mod Running
pub mod Retrying
pub mod Dispatch
pub mod Exit
pub mod RetryHandler
pub mod Reconcile
pub mod Poll
pub mod Safety
pub mod Claims
