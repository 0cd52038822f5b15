-- ===== src/Orchestrator/Exit/Retries.antt =====
-- What becomes of an issue whose worker ends: workerExited of
-- internal/service/orchestrator/orchestrator.go against a table of the outcomes.
use symphony_go.Prelude.{
  ℕ, ◌+◌, ◌≡◌, refl, false, Text, text_eq_refl, Option, none, some, lookup, lookup-insert,
  lookup-delete, has_key, arith, ◌∙◌,
}
use symphony_go.Domain.{Issue, Config}
use symphony_go.Backoff.{RetryReason, continuation, failure}
use symphony_go.Eligibility.{state_name_in}
use symphony_go.Outcomes.{
  Outcome, RunError, unset, done, wait_human, retry_failure, retry_continuation, stopped, canceled,
  failed,
}
use symphony_go.Orchestrator.State.{Orchestrator, cancel_context}
use symphony_go.Orchestrator.Env.{Env, Fetch, fetched, fetch_failed}
use symphony_go.Orchestrator.Running.{remove_running}
use symphony_go.Orchestrator.Retrying.{schedule_retry, retry_queued}
use symphony_go.Orchestrator.Dispatch.{service_done, release_issue}
use symphony_go.Orchestrator.Exit.{
  signal_poll_now, retire_worker, leave_running, forget_cancel, cleanup_terminal_issue_after_exit,
  terminal_check, follow_outcome, after_error, settle_exit, finish_exit, worker_exited,
}

-- The attempt that is scheduled after a run of number `attempt`; none where the issue is released.
abbrev pub next_attempt : ℕ → Outcome → Option RunError → Option ℕ
next_attempt attempt outcome (some canceled) = none
next_attempt attempt done err = none
next_attempt attempt wait_human err = none
next_attempt attempt stopped err = none
next_attempt attempt outcome (some (failed message)) = some (attempt + 1)
next_attempt attempt retry_failure none = some (attempt + 1)
next_attempt attempt retry_continuation none = some 1
next_attempt attempt unset none = none

-- The retry queue and the claim of an issue after its worker ended: retried and still claimed, or
-- neither.
abbrev pub Follows : Text → Option ℕ → Orchestrator → Orchestrator → Type 0
Follows id none o r = (lookup id r.retry_attempts ≡ none) × (lookup id r.claimed ≡ none)
Follows id (some attempt) o r =
    (lookup id r.retry_attempts ≡ some attempt) × (lookup id r.claimed ≡ lookup id o.claimed)

-- The tracker does not say that the issue is terminal.
abbrev pub Alive : Config → Fetch Issue → Type 0
Alive c (fetch_failed message) = Unit
Alive c (fetched refreshed) = state_name_in refreshed.state c.tracker.terminal_states ≡ false

release-Follows :
    (id : Text) (o : Orchestrator)
    → lookup id o.retry_attempts ≡ none
    → Follows id none o (release_issue id o)
unfolding release_issue
release-Follows id o quiet = (quiet, ground (arith, lookup-delete id id o.claimed, text_eq_refl id))

signal-Follows :
    (id : Text) (o : Orchestrator)
    → lookup id o.retry_attempts ≡ none
    → Follows id none o (signal_poll_now (release_issue id o))
unfolding release_issue signal_poll_now
signal-Follows id o quiet = (quiet, ground (arith, lookup-delete id id o.claimed, text_eq_refl id))

schedule-Follows :
    (now : ℕ) (issue : Issue) (attempt : ℕ) (reason : RetryReason) (err : Option Text)
    (o : Orchestrator)
    → Follows issue.id (some attempt) o (schedule_retry now issue attempt reason err o)
unfolding schedule_retry
schedule-Follows now issue attempt reason err o = (
  ground (arith, lookup-insert issue.id issue.id attempt o.retry_attempts, text_eq_refl issue.id),
  ground arith,
)

follow_outcome-Follows :
    (now : ℕ) (issue : Issue) (attempt : ℕ) (outcome : Outcome) (o : Orchestrator)
    → lookup issue.id o.retry_attempts ≡ none
    → Follows issue.id
        (next_attempt attempt outcome none)
        o
        (follow_outcome now issue attempt outcome o)
unfolding follow_outcome
follow_outcome-Follows now issue attempt retry_continuation o quiet =
    schedule-Follows now issue 1 continuation none o
follow_outcome-Follows now issue attempt retry_failure o quiet =
    schedule-Follows now issue (attempt + 1) failure _ o
follow_outcome-Follows now issue attempt unset o quiet = signal-Follows issue.id o quiet
follow_outcome-Follows now issue attempt done o quiet = signal-Follows issue.id o quiet
follow_outcome-Follows now issue attempt wait_human o quiet = signal-Follows issue.id o quiet
follow_outcome-Follows now issue attempt stopped o quiet = signal-Follows issue.id o quiet

not_queued :
    (id : Text) (o : Orchestrator) → lookup id o.retry_attempts ≡ none → retry_queued id o ≡ false
unfolding retry_queued has_key
not_queued id o quiet = ground (arith)

settle_exit-Follows :
    (now : ℕ) (issue : Issue) (attempt : ℕ) (outcome : Outcome) (err : Option RunError)
    (o : Orchestrator)
    → lookup issue.id o.retry_attempts ≡ none
    → service_done o.service ≡ false
    → Follows issue.id
        (next_attempt attempt outcome err)
        o
        (settle_exit now issue attempt outcome err o)
unfolding settle_exit after_error
settle_exit-Follows now issue attempt outcome (some canceled) o quiet served =
    rw (not_queued issue.id o quiet) (release-Follows issue.id o quiet)
settle_exit-Follows now issue attempt done (some (failed m)) o quiet served =
    signal-Follows issue.id o quiet
settle_exit-Follows now issue attempt wait_human (some (failed m)) o quiet served =
    signal-Follows issue.id o quiet
settle_exit-Follows now issue attempt stopped (some (failed m)) o quiet served =
    signal-Follows issue.id o quiet
settle_exit-Follows now issue attempt unset (some (failed m)) o quiet served =
    rw served (schedule-Follows now issue (attempt + 1) failure _ o)
settle_exit-Follows now issue attempt retry_failure (some (failed m)) o quiet served =
    rw served (schedule-Follows now issue (attempt + 1) failure _ o)
settle_exit-Follows now issue attempt retry_continuation (some (failed m)) o quiet served =
    rw served (schedule-Follows now issue (attempt + 1) failure _ o)
settle_exit-Follows now issue attempt done none o quiet served = signal-Follows issue.id o quiet
settle_exit-Follows now issue attempt wait_human none o quiet served =
    signal-Follows issue.id o quiet
settle_exit-Follows now issue attempt stopped none o quiet served = signal-Follows issue.id o quiet
settle_exit-Follows now issue attempt unset none o quiet served =
    rw served (follow_outcome-Follows now issue attempt unset o quiet)
settle_exit-Follows now issue attempt retry_failure none o quiet served =
    rw served (follow_outcome-Follows now issue attempt retry_failure o quiet)
settle_exit-Follows now issue attempt retry_continuation none o quiet served =
    rw served (follow_outcome-Follows now issue attempt retry_continuation o quiet)

terminal_check-Alive :
    (env : Env) (issue : Issue) (fetch : Fetch Issue) (o : Orchestrator)
    → Alive o.config fetch
    → terminal_check env issue fetch o ≡ (o, false)
unfolding terminal_check
terminal_check-Alive env issue (fetch_failed message) o alive = refl
terminal_check-Alive env issue (fetched refreshed) o alive = rw alive refl

finish_exit-Follows :
    (env : Env) (now : ℕ) (issue : Issue) (attempt : ℕ) (outcome : Outcome) (err : Option RunError)
    (o : Orchestrator)
    → lookup issue.id o.retry_attempts ≡ none
    → service_done o.service ≡ false
    → Alive o.config (env.fetch_issue issue.id)
    → Follows issue.id
        (next_attempt attempt outcome err)
        o
        (finish_exit env now issue attempt outcome err o)
unfolding finish_exit cleanup_terminal_issue_after_exit
finish_exit-Follows env now issue attempt outcome err o quiet served alive =
    rw (terminal_check-Alive env issue (env.fetch_issue issue.id) o alive, finish_exit)
      (settle_exit-Follows now issue attempt outcome err o quiet served)

Follows-before :
    (id : Text) (attempt : Option ℕ) (o left r : Orchestrator)
    → lookup id left.claimed ≡ lookup id o.claimed
    → Follows id attempt left r
    → Follows id attempt o r
Follows-before id none o left r same follows = follows
Follows-before id (some attempt) o left r same (queued, claimed) = (queued, claimed ∙ same)

-- Take a worker that ends while the service runs, no cleanup of its issue is pending, no retry of it is
-- queued, and the tracker does not say that it is terminal. A run that was canceled, or whose outcome
-- is done, wait_human or stopped, releases the issue and queues no retry. Otherwise the issue stays
-- claimed as it was and is retried: after an error or the outcome retry_failure with the next attempt,
-- after retry_continuation with attempt 1. An outcome that is not set, without an error, releases it.
pub worker_exited-Follows :
    (env : Env) (now : ℕ) (issue : Issue) (attempt : ℕ) (outcome : Outcome) (err : Option RunError)
    (o : Orchestrator)
    → lookup issue.id o.pending_terminal_cleanup ≡ none
    → lookup issue.id o.retry_attempts ≡ none
    → service_done o.service ≡ false
    → Alive o.config (env.fetch_issue issue.id)
    → Follows issue.id
        (next_attempt attempt outcome err)
        o
        (worker_exited env now issue attempt outcome err o)
unfolding worker_exited leave_running forget_cancel retire_worker remove_running cancel_context
worker_exited-Follows env now issue attempt outcome err o free quiet served alive =
    let left = leave_running now issue.id o in
    let unmarked : lookup issue.id left.pending_terminal_cleanup ≡ none = free in
    rw (unmarked, worker_exited)
      (Follows-before issue.id (next_attempt attempt outcome err) o left _ refl
        (finish_exit-Follows env now issue attempt outcome err left quiet served alive))
