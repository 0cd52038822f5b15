-- ===== src/Orchestrator/Retrying.antt =====
-- The retry queue: scheduleRetry, clearRetry and stopRetryTimers of retry.go, and addRetry,
-- removeRetryLocked, retryQueued and retryIssue of orchestrator.go. Telemetry is not modelled.
use symphony_go.Prelude.{
  ℕ, ◌+◌, Bool, ltb, leb, Text, if◌then◌else◌, Map, lookup, insert, delete, has_key, Option, none,
  some, List, [], ◌∷◌, has_by, put_by, drop_by, find_by,
}
use symphony_go.Domain.{Issue, RetryEntry}
use symphony_go.Backoff.{RetryReason, retry_delay, add_delay}
use symphony_go.Orchestrator.State.{Orchestrator, Timer, stop_timer, without_timer, bare_issue}

abbrev pub retry_key : RetryEntry → Text
retry_key entry = entry.issue_id

unfoldable pub is_retrying : Text → List RetryEntry → Bool
is_retrying = has_by retry_key

-- removeRetryLocked
unfoldable pub remove_retry : Text → Orchestrator → Orchestrator
remove_retry id o = record o { retrying = drop_by retry_key id o.retrying }

-- addRetry: an attempt that does not grow is raised above the one that is there.
unfoldable pub add_retry : RetryEntry → Orchestrator → Orchestrator
add_retry entry o = record o {
  retrying =
      put_by retry_key
        (λ existing.
          if leb entry.attempt existing.attempt
          then record entry { attempt = existing.attempt + 1 }
          else entry)
        entry o.retrying;
}

abbrev pub error_text : Option Text → Text
error_text none = []
error_text (some message) = message

-- `o.newTimer(delay, …)` under a number that is not in use. A delay that is negative as an int64
-- fires at once.
arm_timer : Text → ℕ → Orchestrator → Orchestrator
arm_timer id due_at o = record o {
  armed = record { id = o.next_id; issue_id = id; due_at = due_at } ∷ o.armed;
  retry_timers = insert id o.next_id o.retry_timers;
  next_id = o.next_id + 1;
}

unfoldable pub retry_entry : ℕ → Issue → ℕ → Option Text → RetryEntry
retry_entry due_at issue attempt err = record {
  issue_id = issue.id;
  issue_identifier = issue.identifier;
  attempt = attempt;
  due_at = due_at;
  error = error_text err;
}

unfoldable pub schedule_retry :
    ℕ → Issue → ℕ → RetryReason → Option Text → Orchestrator → Orchestrator
unfolding arm_timer retry_entry stop_timer
schedule_retry now issue attempt reason err o =
    let due_at = add_delay now (retry_delay (some o.config) reason attempt) in
    let stopped = stop_timer (lookup issue.id o.retry_timers) o in
    let entry = retry_entry due_at issue attempt err in
    arm_timer issue.id due_at (record stopped {
      retry_attempts = insert issue.id attempt o.retry_attempts;
      retrying = put_by retry_key (λ _. entry) entry o.retrying;
    })

-- The part that clearRetry and a dispatch have in common.
unfoldable pub drop_retry : Text → Orchestrator → Orchestrator
unfolding stop_timer remove_retry
drop_retry id o =
    let stopped = stop_timer (lookup id o.retry_timers) o in
    remove_retry id (record stopped {
      retry_timers = delete id o.retry_timers;
      retry_attempts = delete id o.retry_attempts;
    })

unfoldable pub clear_retry : Text → Orchestrator → Orchestrator
unfolding drop_retry
clear_retry = drop_retry

unfoldable pub without_timers : Map ℕ → List Timer → List Timer
unfolding without_timer
without_timers [] timers = timers
without_timers ((id, timer) ∷ rest) timers = without_timers rest (without_timer (some timer) timers)

-- Every timer is stopped and its entry deleted.
unfoldable pub stop_retry_timers : Orchestrator → Orchestrator
unfolding without_timers
stop_retry_timers o = record o { armed = without_timers o.retry_timers o.armed; retry_timers = [] }

unfoldable pub retry_queued : Text → Orchestrator → Bool
retry_queued id o = has_key id o.retry_attempts

-- `o.retryAttempts[id]`: a missing key reads as 0.
unfoldable pub attempt_of : Text → Orchestrator → ℕ
attempt_of id o = elim (lookup id o.retry_attempts) [ none ↦ 0 | some attempt ↦ attempt ]

unfoldable pub retry_issue : Text → Orchestrator → Option (Issue × ℕ)
unfolding attempt_of
retry_issue id o = elim (find_by retry_key id o.retrying) [
  | none ↦ none
  | some entry ↦ some (
    bare_issue entry.issue_id entry.issue_identifier [],
    if ltb (attempt_of id o) 1 then entry.attempt else attempt_of id o,
  )
]
