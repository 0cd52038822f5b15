-- ===== src/Orchestrator/Exit.antt =====
-- The end of a worker: workerExited and what it calls, of orchestrator.go. Logging is not modelled.
pub mod Retries
use symphony_go.Prelude.{
  ℕ, ◌+◌, Bool, true, false, ◌||◌, not, Text, codes, text_eq, if◌then◌else◌, lookup, insert, delete,
  drop_by, Option, none, some, ◌∷◌,
}
use symphony_go.Outcomes.{
  Outcome, RunError, done, wait_human, retry_failure, retry_continuation, stopped, canceled, failed,
}
use symphony_go.Domain.{Issue, RunningEntry}
use symphony_go.Backoff.{continuation, failure}
use symphony_go.Eligibility.{state_name_in}
use symphony_go.Orchestrator.State.{
  Orchestrator, TerminalCleanup, workspace_removed, session_deleted, empty_entry, cancel_context,
  worker_key,
}
use symphony_go.Orchestrator.Env.{Env, Fetch, fetched, fetch_failed}
use symphony_go.Orchestrator.Running.{remove_running}
use symphony_go.Orchestrator.Retrying.{schedule_retry, retry_queued}
use symphony_go.Orchestrator.Dispatch.{release_issue, service_done}

-- RequestRefresh with a context that is not done; it reports whether the channel had room.
unfoldable pub request_refresh : Orchestrator → Orchestrator × Bool
request_refresh o = (record o { poll_now = true }, not o.poll_now)

unfoldable pub signal_poll_now : Orchestrator → Orchestrator
unfolding request_refresh
signal_poll_now o = (request_refresh o).0

unfoldable pub mark_pending_terminal_cleanup : Issue → RunningEntry → Orchestrator → Orchestrator
mark_pending_terminal_cleanup issue entry o = record o {
  pending_terminal_cleanup =
      insert issue.id (record { issue = issue; entry = entry }) o.pending_terminal_cleanup;
}

-- popPendingTerminalCleanup without its result, which is the lookup.
unfoldable pub pop_pending_terminal_cleanup : Text → Orchestrator → Orchestrator
pop_pending_terminal_cleanup id o = record o {
  pending_terminal_cleanup = delete id o.pending_terminal_cleanup;
}

-- The path that cleanupWorkspace removes; none where the manager refuses the issue.
unfoldable pub cleanup_path : Env → Issue → RunningEntry → Option Text
cleanup_path env issue entry =
    if text_eq entry.workspace_path (codes "")
    then env.path_for_issue issue
    else some entry.workspace_path

-- A static working directory is retained.
unfoldable pub remove_at : Env → Option Text → Orchestrator → Orchestrator × Bool
remove_at env none o = (o, false)
remove_at env (some path) o =
    if not (env.remove_workspace path)
    then (o, false)
    else if env.static_cwd
    then (o, true)
    else (record o { effects = workspace_removed path ∷ o.effects }, true)

-- cleanupWorkspace; true stands for a nil error.
unfoldable pub cleanup_workspace : Env → Issue → RunningEntry → Orchestrator → Orchestrator × Bool
unfolding remove_at
cleanup_workspace env issue entry o = remove_at env (cleanup_path env issue entry) o

unfoldable pub delete_stored_session : Env → Issue → Orchestrator → Orchestrator
delete_stored_session env issue o =
    if not env.has_sessions || text_eq issue.id (codes "")
    then o
    else if env.delete_session issue.id
    then record o { effects = session_deleted issue.id ∷ o.effects }
    else o

-- A workspace is cleaned, and then the stored session goes.
unfoldable pub cleanup_then_delete : Env → Issue → RunningEntry → Orchestrator → Orchestrator × Bool
unfolding cleanup_workspace delete_stored_session
cleanup_then_delete env issue entry o =
    let (cleaned, succeeded) = cleanup_workspace env issue entry o in
    (if succeeded then delete_stored_session env issue cleaned else cleaned, succeeded)

unfoldable pub name_after : Issue → Issue → Issue
name_after issue refreshed =
    if text_eq refreshed.identifier (codes "")
    then record refreshed { identifier = issue.identifier }
    else refreshed

unfoldable pub terminal_check : Env → Issue → Fetch Issue → Orchestrator → Orchestrator × Bool
unfolding name_after cleanup_then_delete
terminal_check env issue (fetch_failed message) o = (o, false)
terminal_check env issue (fetched refreshed) o =
    if not (state_name_in refreshed.state o.config.tracker.terminal_states)
    then (o, false)
    else cleanup_then_delete env (name_after issue refreshed) empty_entry o

-- cleanupTerminalIssueAfterExit. The worker's configuration is the one it was started with; here it
-- is the current one, so a reload between the two is not modelled.
unfoldable pub cleanup_terminal_issue_after_exit : Env → Issue → Orchestrator → Orchestrator × Bool
unfolding terminal_check
cleanup_terminal_issue_after_exit env issue o =
    terminal_check env issue (env.fetch_issue issue.id) o

-- removeRunning, when RunIssueTrunk has returned.
unfoldable pub retire_worker : ℕ → Text → Orchestrator → Orchestrator
retire_worker now id o =
    let removed = remove_running now id o in
    record removed { workers = drop_by worker_key id removed.workers }

-- The section that calls the cancel function and deletes it.
unfoldable pub forget_cancel : Text → Orchestrator → Orchestrator
forget_cancel id o =
    let cancelled = cancel_context (lookup id o.running_cancel) o in
    record cancelled { running_cancel = delete id cancelled.running_cancel }

unfoldable pub leave_running : ℕ → Text → Orchestrator → Orchestrator
leave_running now id o = forget_cancel id (retire_worker now id o)

-- The `if result.Outcome == WaitHuman || Done || Stopped` test.
abbrev pub is_settled : Outcome → Bool
is_settled wait_human = true
is_settled done = true
is_settled stopped = true
is_settled _ = false

-- The last part, by outcome, for a worker that ended without an error.
unfoldable pub follow_outcome : ℕ → Issue → ℕ → Outcome → Orchestrator → Orchestrator
follow_outcome now issue attempt retry_continuation o =
    schedule_retry now issue 1 continuation none o
follow_outcome now issue attempt retry_failure o =
    schedule_retry now issue (attempt + 1) failure
      (some (codes "issue flow requested failure retry")) o
follow_outcome now issue attempt _ o = signal_poll_now (release_issue issue.id o)

unfoldable pub after_error : ℕ → Issue → ℕ → Outcome → Option RunError → Orchestrator → Orchestrator
unfolding follow_outcome
after_error now issue attempt outcome none o = follow_outcome now issue attempt outcome o
after_error now issue attempt outcome (some canceled) o =
    schedule_retry now issue (attempt + 1) failure (some (codes "context canceled")) o
after_error now issue attempt outcome (some (failed message)) o =
    schedule_retry now issue (attempt + 1) failure (some message) o

abbrev pub is_canceled : Option RunError → Bool
is_canceled (some canceled) = true
is_canceled _ = false

-- What becomes of an issue that is not terminal.
unfoldable pub settle_exit : ℕ → Issue → ℕ → Outcome → Option RunError → Orchestrator → Orchestrator
unfolding after_error
settle_exit now issue attempt outcome err o =
    if is_canceled err
    then (if retry_queued issue.id o then o else release_issue issue.id o)
    else if is_settled outcome
    then signal_poll_now (release_issue issue.id o)
    else if service_done o.service
    then release_issue issue.id o
    else after_error now issue attempt outcome err o

unfoldable pub finish_pending : Env → Text → TerminalCleanup → Orchestrator → Orchestrator
unfolding cleanup_then_delete
finish_pending env id cleanup o =
    release_issue id
      (cleanup_then_delete env cleanup.issue cleanup.entry (pop_pending_terminal_cleanup id o)).0

unfoldable pub finish_exit :
    Env → ℕ → Issue → ℕ → Outcome → Option RunError → Orchestrator → Orchestrator
unfolding settle_exit
finish_exit env now issue attempt outcome err o =
    let (checked, cleaned) = cleanup_terminal_issue_after_exit env issue o in
    if cleaned
    then signal_poll_now (release_issue issue.id checked)
    else settle_exit now issue attempt outcome err checked

unfoldable pub worker_exited :
    Env → ℕ → Issue → ℕ → Outcome → Option RunError → Orchestrator → Orchestrator
unfolding finish_pending finish_exit
worker_exited env now issue attempt outcome err o =
    let left = leave_running now issue.id o in
    elim (lookup issue.id left.pending_terminal_cleanup) [
      | some cleanup ↦ finish_pending env issue.id cleanup left
      | none ↦ finish_exit env now issue attempt outcome err left
    ]
