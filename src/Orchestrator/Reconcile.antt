-- ===== src/Orchestrator/Reconcile.antt =====
-- reconcileRunning and detectStalledRunning of orchestrator.go, and StartupCleanup: running issues
-- against the tracker and the clock. Logging is not modelled.
use symphony_go.Prelude.{
  ℕ, ◌-◌, Bool, true, false, not, ◌&&◌, ◌||◌, ◌==◌, is_positive, word_gt, Text, codes, trim_space,
  equal_fold, if◌then◌else◌, Map, lookup, insert, none, some, List, [], ◌∷◌, ◌++◌, map,
}
use symphony_go.Domain.{Issue, RunningEntry}
use symphony_go.Backoff.{failure, from_millis}
use symphony_go.Eligibility.{state_name_in, routed_elsewhere}
use symphony_go.Orchestrator.State.{Orchestrator, bare_issue, empty_entry, cancel_context}
use symphony_go.Orchestrator.Env.{Env, Fetch, fetched, fetch_failed}
use symphony_go.Orchestrator.Running.{update_running_state}
use symphony_go.Orchestrator.Retrying.{schedule_retry, retry_queued}
use symphony_go.Orchestrator.Exit.{mark_pending_terminal_cleanup, cleanup_then_delete}

unfoldable pub cancel_running : Text → Orchestrator → Orchestrator
cancel_running id o = cancel_context (lookup id o.running_cancel) o

unfoldable pub should_cancel_for_terminal_state : Text → Bool
should_cancel_for_terminal_state state = not (equal_fold (trim_space state) (codes "Done"))

-- `last.IsZero() || now.Sub(last) <= timeout` is false.
unfoldable pub is_stalled : ℕ → ℕ → RunningEntry → Bool
is_stalled now timeout entry =
    let last = if entry.last_event_at == 0 then entry.started_at else entry.last_event_at in
    not (last == 0) && word_gt (now - last) timeout

unfoldable pub stall_entry : Env → ℕ → ℕ → RunningEntry → Orchestrator → Orchestrator
unfolding is_stalled
stall_entry env now timeout entry o =
    let issue = bare_issue entry.issue_id entry.issue_identifier entry.state in
    let message = codes "stalled after " ++ env.duration_text timeout in
    let stalled =
      cancel_running entry.issue_id (schedule_retry now issue 1 failure (some message) o) in
    if retry_queued entry.issue_id o then o else if is_stalled now timeout entry then stalled else o

unfoldable pub stall_entries : Env → ℕ → ℕ → List RunningEntry → Orchestrator → Orchestrator
unfolding stall_entry
stall_entries env now timeout [] o = o
stall_entries env now timeout (entry ∷ entries) o =
    stall_entries env now timeout entries (stall_entry env now timeout entry o)

unfoldable pub detect_stalled_running : Env → ℕ → Orchestrator → Orchestrator
unfolding stall_entries
detect_stalled_running env now o =
    if not (is_positive o.config.stall_timeout_ms)
    then o
    else stall_entries env now (from_millis o.config.stall_timeout_ms) o.running o

-- The map `byID` of the entries as they were before the fetch.
unfoldable pub by_id : Map RunningEntry → List RunningEntry → Map RunningEntry
by_id acc [] = acc
by_id acc (entry ∷ entries) = by_id (insert entry.issue_id entry acc) entries

unfoldable pub reconcile_terminal : Issue → RunningEntry → Orchestrator → Orchestrator
reconcile_terminal issue entry o =
    let marked = mark_pending_terminal_cleanup issue entry o in
    if should_cancel_for_terminal_state issue.state
    then cancel_running issue.id marked
    else update_running_state issue.id issue.state marked

-- The body of the loop for an issue that is running.
unfoldable pub reconcile_entry : Issue → RunningEntry → Orchestrator → Orchestrator
unfolding reconcile_terminal
reconcile_entry issue entry o =
    if state_name_in issue.state o.config.tracker.terminal_states
    then reconcile_terminal issue entry o
    else if routed_elsewhere issue.assigned_to_worker
    then cancel_running issue.id o
    else if state_name_in issue.state o.config.tracker.active_states
    then update_running_state issue.id issue.state o
    else cancel_running issue.id o

unfoldable pub reconcile_issue : Map RunningEntry → Issue → Orchestrator → Orchestrator
unfolding reconcile_entry
reconcile_issue entries issue o = elim (lookup issue.id entries) [
  | none ↦ o
  | some entry ↦ reconcile_entry issue entry o
]

unfoldable pub reconcile_issues : Map RunningEntry → List Issue → Orchestrator → Orchestrator
unfolding reconcile_issue
reconcile_issues entries [] o = o
reconcile_issues entries (issue ∷ issues) o =
    reconcile_issues entries issues (reconcile_issue entries issue o)

unfoldable pub reconcile_fetched :
    Map RunningEntry → Fetch (List Issue) → Orchestrator → Orchestrator
unfolding reconcile_issues
reconcile_fetched entries (fetched issues) o = reconcile_issues entries issues o
reconcile_fetched entries (fetch_failed message) o = o

abbrev pub is_nil : List RunningEntry → Bool
is_nil [] = true
is_nil (entry ∷ entries) = false

unfoldable pub reconcile_running : Env → ℕ → Orchestrator → Orchestrator
unfolding reconcile_fetched detect_stalled_running by_id
reconcile_running env now o =
    let checked = detect_stalled_running env now o in
    if is_nil checked.running
    then checked
    else reconcile_fetched (by_id [] checked.running)
        (env.fetch_issue_states_by_ids (map (λ entry. entry.issue_id) checked.running)) checked

-- StartupCleanup, once for each terminal issue.
unfoldable pub cleanup_issues : Env → List Issue → Orchestrator → Orchestrator
cleanup_issues env [] o = o
cleanup_issues env (issue ∷ issues) o =
    cleanup_issues env issues (cleanup_then_delete env issue empty_entry o).0

unfoldable pub cleanup_fetched : Env → Fetch (List Issue) → Orchestrator → Orchestrator
unfolding cleanup_issues
cleanup_fetched env (fetched issues) o = cleanup_issues env issues o
cleanup_fetched env (fetch_failed message) o = o

abbrev pub has_states : List Text → Bool
has_states [] = false
has_states (state ∷ states) = true

unfoldable pub startup_cleanup : Env → Orchestrator → Orchestrator
unfolding cleanup_fetched
startup_cleanup env o =
    let states = o.config.tracker.terminal_states in
    if env.static_cwd || not (has_states states)
    then o
    else cleanup_fetched env (env.fetch_issues_by_states states) o
