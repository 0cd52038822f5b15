-- ===== src/Orchestrator/Claims/Handlers.antt =====
-- The handlers keep every claim backed: workerExited and handleRetry.
use symphony_go.Prelude.{
  ℕ, ◌+◌, ◌≡◌, ◌≢◌, refl, Bool, true, false, Text, text_eq, text_eq_iff, if◌then◌else◌, Option,
  none, some, lookup, has_by-drop_by, arith, Bool-cases, Option-cases, inl, inr,
}
use symphony_go.Domain.{Issue, RunningEntry}
use symphony_go.Backoff.{continuation, failure}
use symphony_go.Eligibility.{state_name_in}
use symphony_go.Orchestrator.State.{
  Orchestrator, TerminalCleanup, worker_key, cancel_context, empty_entry,
}
use symphony_go.Orchestrator.Env.{Env, Fetch, fetched, fetch_failed}
use symphony_go.Orchestrator.Running.{remove_running}
use symphony_go.Orchestrator.Retrying.{retry_queued}
use symphony_go.Orchestrator.Dispatch.{dispatch_issue_done, release_issue, service_done}
use symphony_go.Orchestrator.Dispatch.Slots.{accepted_checks, refused_unchanged}
use symphony_go.Outcomes.{Outcome, RunError, retry_failure, retry_continuation, canceled, failed}
use symphony_go.Orchestrator.Exit.{
  is_canceled, is_settled, retire_worker, forget_cancel, leave_running, cleanup_then_delete,
  follow_outcome, after_error, settle_exit, terminal_check, name_after,
  cleanup_terminal_issue_after_exit, finish_exit, finish_pending, pop_pending_terminal_cleanup,
  signal_poll_now, worker_exited,
}
use symphony_go.Orchestrator.Safety.Handlers.{cleanup_effects}
use symphony_go.Orchestrator.Claims.{Synced, Armed, Backed, Sound, SoundBut}
use symphony_go.Orchestrator.Claims.Locked.{
  Sound-but, schedule_retry-Sound, release_issue-Sound, start_worker-Sound, Sound-same,
}

pub Sound-if : (b : Bool) {p q : Orchestrator} → Sound p → Sound q → Sound (if b then p else q)
Sound-if true s t = s
Sound-if false s t = t

pub signal_poll_now-Sound : (o : Orchestrator) → Sound o → Sound (signal_poll_now o)
unfolding signal_poll_now
signal_poll_now-Sound o s = Sound-same o _ refl refl refl refl refl refl refl s

-- A dispatch of the issue that a handler works on: accepted, it backs the claim.
pub dispatch_accepted-Sound :
    (now : ℕ) (issue : Issue) (attempt : ℕ) (o : Orchestrator)
    → (dispatch_issue_done now issue attempt o).1 ≡ true
    → SoundBut issue.id o
    → Sound (dispatch_issue_done now issue attempt o).0
dispatch_accepted-Sound now issue attempt o accepted s =
    let (_, _, _, e) = accepted_checks now issue attempt o accepted in
    rw e (start_worker-Sound now issue attempt o s)

pub dispatch_issue_done-Sound :
    (now : ℕ) (issue : Issue) (attempt : ℕ) (o : Orchestrator)
    → Sound o
    → Sound (dispatch_issue_done now issue attempt o).0
dispatch_issue_done-Sound now issue attempt o s =
    elim (Bool-cases (dispatch_issue_done now issue attempt o).1) [
      | inl accepted ↦ dispatch_accepted-Sound now issue attempt o accepted (Sound-but issue.id s)
      | inr declined ↦ rw (refused_unchanged now issue attempt o declined) s
    ]

-- A worker has left: the retry queue is in order, and its issue's claim may be bare.
record Left (id : Text) (o : Orchestrator) : Type 0 where
  synced : Synced o
  armed : (j : Text) → Armed o j
  backed : (j : Text) → id ≢ j → Backed o j

Left-but : (id : Text) {o : Orchestrator} → Left id o → SoundBut id o
Left-but id l = record { synced = l.synced; armed = λ j _. l.armed j; backed = l.backed }

Left-release : (id : Text) (o : Orchestrator) → Left id o → Sound (release_issue id o)
Left-release id o l = release_issue-Sound id o l.synced l.armed l.backed

Left-release_signal :
    (id : Text) (o : Orchestrator) → Left id o → Sound (signal_poll_now (release_issue id o))
Left-release_signal id o l = signal_poll_now-Sound (release_issue id o) (Left-release id o l)

-- `Left` looks at the same parts as `Sound`.
Left-same :
    (id : Text) (o p : Orchestrator)
    → p.retry_timers ≡ o.retry_timers
    → p.retry_attempts ≡ o.retry_attempts
    → p.retrying ≡ o.retrying
    → p.armed ≡ o.armed
    → p.next_id ≡ o.next_id
    → p.claimed ≡ o.claimed
    → p.workers ≡ o.workers
    → Left id o
    → Left id p
Left-same id o p t a r m n c w s = record {
  synced = record {
    registered = rw (t, m) s.synced.registered;
    injective = rw t s.synced.injective;
    below = rw (t, n) s.synced.below;
    attempts = rw (t, a) s.synced.attempts;
    entries = rw (t, r) s.synced.entries;
  };
  armed = rw (t, m) s.armed;
  backed = rw (c, w, m) s.backed;
}

leave_running-Left :
    (now : ℕ) (id : Text) (o : Orchestrator) → Sound o → Left id (leave_running now id o)
unfolding leave_running forget_cancel retire_worker remove_running cancel_context
leave_running-Left now id o s = record {
  synced = record {
    registered = s.synced.registered;
    injective = s.synced.injective;
    below = s.synced.below;
    attempts = s.synced.attempts;
    entries = s.synced.entries;
  };
  armed = s.armed;
  backed = λ j ne c.
      ground (arith, has_by-drop_by worker_key id j o.workers, s.backed j c, text_eq_iff id j);
}

cleanup-Left :
    (env : Env) (id : Text) (issue : Issue) (entry : RunningEntry) (o : Orchestrator)
    → Left id o
    → Left id (cleanup_then_delete env issue entry o).0
cleanup-Left env id issue entry o l =
    rw (cleanup_effects env issue entry o) (Left-same id o _ refl refl refl refl refl refl refl l)

follow_outcome-Sound :
    (now : ℕ) (issue : Issue) (attempt : ℕ) (outcome : Outcome) (o : Orchestrator)
    → Left issue.id o
    → Sound (follow_outcome now issue attempt outcome o)
unfolding follow_outcome
follow_outcome-Sound now issue attempt retry_continuation o l =
    schedule_retry-Sound now issue 1 continuation none o (Left-but issue.id l)
follow_outcome-Sound now issue attempt retry_failure o l =
    schedule_retry-Sound now issue (attempt + 1) failure _ o (Left-but issue.id l)
follow_outcome-Sound now issue attempt _ o l = Left-release_signal issue.id o l

after_error-Sound :
    (now : ℕ) (issue : Issue) (attempt : ℕ) (outcome : Outcome) (err : Option RunError)
    (o : Orchestrator)
    → Left issue.id o
    → Sound (after_error now issue attempt outcome err o)
unfolding after_error
after_error-Sound now issue attempt outcome none o l =
    follow_outcome-Sound now issue attempt outcome o l
after_error-Sound now issue attempt outcome (some canceled) o l =
    schedule_retry-Sound now issue (attempt + 1) failure _ o (Left-but issue.id l)
after_error-Sound now issue attempt outcome (some (failed message)) o l =
    schedule_retry-Sound now issue (attempt + 1) failure _ o (Left-but issue.id l)

-- An issue that is in the retry queue keeps its claim, which its timer backs.
queued-Sound : (id : Text) (o : Orchestrator) → retry_queued id o ≡ true → Left id o → Sound o
unfolding retry_queued
queued-Sound id o q l = record {
  synced = l.synced;
  armed = l.armed;
  backed = λ j c. ground (
    arith,
    l.backed j,
    l.armed j,
    l.synced.attempts j,
    text_eq_iff id j,
    Bool-cases (text_eq id j),
  );
}

settle_exit-Sound :
    (now : ℕ) (issue : Issue) (attempt : ℕ) (outcome : Outcome) (err : Option RunError)
    (o : Orchestrator)
    → Left issue.id o
    → Sound (settle_exit now issue attempt outcome err o)
unfolding settle_exit
settle_exit-Sound now issue attempt outcome err o l =
    Sound-if (is_canceled err)
      (elim (Bool-cases (retry_queued issue.id o)) [
        | inl q ↦ rw q (queued-Sound issue.id o q l)
        | inr n ↦ rw n (Left-release issue.id o l)
      ])
      (Sound-if (is_settled outcome) (Left-release_signal issue.id o l) (
        Sound-if (service_done o.service) (Left-release issue.id o l)
          (after_error-Sound now issue attempt outcome err o l)))

terminal_check-Left :
    (env : Env) (id : Text) (issue : Issue) (answer : Fetch Issue) (o : Orchestrator)
    → Left id o
    → Left id (terminal_check env issue answer o).0
unfolding terminal_check
terminal_check-Left env id issue (fetch_failed message) o l = l
terminal_check-Left env id issue (fetched refreshed) o l =
    elim (Bool-cases (state_name_in refreshed.state o.config.tracker.terminal_states)) [
      | inl terminal ↦
          rw terminal (cleanup-Left env id (name_after issue refreshed) empty_entry o l)
      | inr open_state ↦ rw open_state l
    ]

finish_exit-Sound :
    (env : Env) (now : ℕ) (issue : Issue) (attempt : ℕ) (outcome : Outcome) (err : Option RunError)
    (o : Orchestrator)
    → Left issue.id o
    → Sound (finish_exit env now issue attempt outcome err o)
unfolding finish_exit cleanup_terminal_issue_after_exit
finish_exit-Sound env now issue attempt outcome err o l =
    let answer = env.fetch_issue issue.id in
    let checked = (terminal_check env issue answer o).0 in
    let l' = terminal_check-Left env issue.id issue answer o l in
    Sound-if (terminal_check env issue answer o).1 (Left-release_signal issue.id checked l')
      (settle_exit-Sound now issue attempt outcome err checked l')

finish_pending-Sound :
    (env : Env) (id : Text) (cleanup : TerminalCleanup) (o : Orchestrator)
    → Left id o
    → Sound (finish_pending env id cleanup o)
unfolding finish_pending pop_pending_terminal_cleanup
finish_pending-Sound env id cleanup o l = Left-release id _ (
    cleanup-Left env id cleanup.issue cleanup.entry _
      (Left-same id o _ refl refl refl refl refl refl refl l))

pub worker_exited-Sound :
    (env : Env) (now : ℕ) (issue : Issue) (attempt : ℕ) (outcome : Outcome) (err : Option RunError)
    (o : Orchestrator)
    → Sound o
    → Sound (worker_exited env now issue attempt outcome err o)
unfolding worker_exited
worker_exited-Sound env now issue attempt outcome err o s =
    let left = leave_running now issue.id o in
    let l = leave_running-Left now issue.id o s in
    elim (Option-cases (lookup issue.id left.pending_terminal_cleanup)) [
      | inl e ↦ rw (e, worker_exited) (finish_exit-Sound env now issue attempt outcome err left l)
      | inr (cleanup, e) ↦ rw (e, worker_exited) (finish_pending-Sound env issue.id cleanup left l)
    ]
