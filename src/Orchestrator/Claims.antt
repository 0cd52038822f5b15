-- ===== src/Orchestrator/Claims.antt =====
-- No claim leaks: between two handlers, a claimed issue has a worker or an armed retry timer, so
-- something will release it. The retry timers, attempts and entries agree.
pub mod Timers
pub mod Locked
pub mod Handlers
pub mod RetryTimers
pub mod Histories
use symphony_go.Prelude.{
  ℕ, ◌<◌, ◌≡◌, ◌≢◌, Bool, true, ◌||◌, Text, Map, lookup, has_key, some, List, has_by, All,
}
use symphony_go.Orchestrator.State.{Orchestrator, Timer, worker_key}
use symphony_go.Orchestrator.Retrying.{retry_key}

abbrev pub timer_key : Timer → Text
timer_key t = t.issue_id

-- An armed timer is the one that retryTimers holds for its issue.
abbrev pub Registered : Map ℕ → Timer → Type 0
Registered timers t = lookup t.issue_id timers ≡ some t.id

-- The three containers of the retry queue have the same issues.
pub record Synced (o : Orchestrator) : Type 0 where
  pub registered : All (Registered o.retry_timers) o.armed
  pub injective :
      (j k : Text) (x : ℕ)
      → lookup j o.retry_timers ≡ some x
      → lookup k o.retry_timers ≡ some x
      → j ≡ k
  pub below : (j : Text) (x : ℕ) → lookup j o.retry_timers ≡ some x → x < o.next_id
  pub attempts : (j : Text) → has_key j o.retry_attempts ≡ has_key j o.retry_timers
  pub entries : (j : Text) → has_by retry_key j o.retrying ≡ has_key j o.retry_timers

-- An issue in the retry queue has its timer armed.
abbrev pub Armed : Orchestrator → Text → Type 0
Armed o j = has_by timer_key j o.armed ≡ has_key j o.retry_timers

-- A claimed issue has a worker or an armed timer.
abbrev pub Backed : Orchestrator → Text → Type 0
Backed o j =
    has_key j o.claimed ≡ true
    → (has_by worker_key j o.workers || has_by timer_key j o.armed) ≡ true

pub record Sound (o : Orchestrator) : Type 0 where
  pub synced : Synced o
  pub armed : (j : Text) → Armed o j
  pub backed : (j : Text) → Backed o j

-- The same but for one issue, which a handler is working on.
pub record SoundBut (id : Text) (o : Orchestrator) : Type 0 where
  pub synced : Synced o
  pub armed : (j : Text) → id ≢ j → Armed o j
  pub backed : (j : Text) → id ≢ j → Backed o j
