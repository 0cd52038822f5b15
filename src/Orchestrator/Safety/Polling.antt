-- ===== src/Orchestrator/Safety/Polling.antt =====
-- A poll is made of a few locked sections: whatever these keep, the poll keeps.
use symphony_go.Prelude.{
  ℕ, ◌≤◌, ◌≡◌, refl, Bool, true, false, not, Text, codes, if◌then◌else◌, is_positive, Map, Option,
  some, List, [], ◌∷◌, map, lookup, Option-cases, inl, inr, ◌⊎◌,
}
use symphony_go.Domain.{Config, Issue, RunningEntry}
use symphony_go.Backoff.{RetryReason, failure, from_millis}
use symphony_go.Candidates.{sort_candidates}
use symphony_go.Eligibility.{state_name_in, routed_elsewhere}
use symphony_go.Orchestrator.State.{Orchestrator, bare_issue}
use symphony_go.Orchestrator.Env.{Env, Fetch, fetched, fetch_failed}
use symphony_go.Orchestrator.Running.{update_running_state}
use symphony_go.Orchestrator.Retrying.{schedule_retry, retry_queued}
use symphony_go.Orchestrator.Dispatch.{dispatch_issue_done, max_concurrent_agents}
use symphony_go.Orchestrator.Exit.{mark_pending_terminal_cleanup}
use symphony_go.Orchestrator.RetryHandler.{set_last_error}
use symphony_go.Orchestrator.Reconcile.{
  cancel_running, should_cancel_for_terminal_state, is_stalled, stall_entry, stall_entries,
  detect_stalled_running, by_id, reconcile_entry, reconcile_issue, reconcile_issues,
  reconcile_fetched, reconcile_running, is_nil,
}
use symphony_go.Orchestrator.Poll.{
  Reload, unchanged, reload_failed, reloaded, refresh_workflow, Choice, choose, skip, stop, try,
  dispatch_candidates, poll_fetched, poll_dispatched,
}
use symphony_go.Orchestrator.Safety.Interleavings.{Step, Reach, here, next}

-- What a poll is made of.
pub record PollRules (P : Orchestrator → Type 0) : Type 0 where
  pub dispatching :
      (now : ℕ) (issue : Issue) (attempt : ℕ) (o : Orchestrator)
      → P o
      → P (dispatch_issue_done now issue attempt o).0
  pub scheduling :
      (now : ℕ) (issue : Issue) (attempt : ℕ) (reason : RetryReason) (err : Option Text)
      (o : Orchestrator)
      → P o
      → P (schedule_retry now issue attempt reason err o)
  pub moving : (id state : Text) (o : Orchestrator) → P o → P (update_running_state id state o)
  pub cancelling : (id : Text) (o : Orchestrator) → P o → P (cancel_running id o)
  pub marking :
      (issue : Issue) (entry : RunningEntry) (o : Orchestrator)
      → P o
      → P (mark_pending_terminal_cleanup issue entry o)
  pub failing : (message : Text) (o : Orchestrator) → P o → P (set_last_error message o)
  pub reloading :
      (config : Config) (o : Orchestrator)
      → max_concurrent_agents (some o.config) ≤ max_concurrent_agents (some config)
      → P o
      → P (record o { config = config })

-- The reload does not lower the limit on running agents.
abbrev pub KeepsLimit : Reload → Orchestrator → Type 0
KeepsLimit unchanged o = Unit
KeepsLimit (reload_failed message) o = Unit
KeepsLimit (reloaded config) o =
    max_concurrent_agents (some o.config) ≤ max_concurrent_agents (some config)

Choice-cases : (c : Choice) → (c ≡ skip) ⊎ ((c ≡ stop) ⊎ ((issue : Issue) × (c ≡ try issue)))
Choice-cases skip = inl refl
Choice-cases stop = inr (inl refl)
Choice-cases (try issue) = inr (inr (issue, refl))

module _ (P : Orchestrator → Type 0) (rules : PollRules P) where
  kept_if : (b : Bool) {p q : Orchestrator} → P p → P q → P (if b then p else q)
  kept_if true h k = h
  kept_if false h k = k

  stall_entry_keeps :
      (env : Env) (now timeout : ℕ) (entry : RunningEntry) (o : Orchestrator)
      → P o
      → P (stall_entry env now timeout entry o)
  unfolding stall_entry
  stall_entry_keeps env now timeout entry o h = kept_if (retry_queued entry.issue_id o) h (
      kept_if (is_stalled now timeout entry)
        (rules.cancelling entry.issue_id _ (
          rules.scheduling now (bare_issue entry.issue_id entry.issue_identifier entry.state) 1
            failure _ o h))
        h)

  stall_entries_keep :
      (env : Env) (now timeout : ℕ) (entries : List RunningEntry) (o : Orchestrator)
      → P o
      → P (stall_entries env now timeout entries o)
  unfolding stall_entries
  stall_entries_keep env now timeout [] o h = h
  stall_entries_keep env now timeout (entry ∷ entries) o h =
      stall_entries_keep env now timeout entries (stall_entry env now timeout entry o)
        (stall_entry_keeps env now timeout entry o h)

  detect_stalled_keeps :
      (env : Env) (now : ℕ) (o : Orchestrator) → P o → P (detect_stalled_running env now o)
  unfolding detect_stalled_running
  detect_stalled_keeps env now o h =
      kept_if (not (is_positive o.config.stall_timeout_ms)) h
        (stall_entries_keep env now (from_millis o.config.stall_timeout_ms) o.running o h)

  reconcile_entry_keeps :
      (issue : Issue) (entry : RunningEntry) (o : Orchestrator)
      → P o
      → P (reconcile_entry issue entry o)
  unfolding reconcile_entry
  reconcile_entry_keeps issue entry o h =
      let marked = rules.marking issue entry o h in
      kept_if (state_name_in issue.state o.config.tracker.terminal_states)
        (kept_if (should_cancel_for_terminal_state issue.state) (rules.cancelling issue.id _ marked)
          (rules.moving issue.id issue.state _ marked))
        (kept_if (routed_elsewhere issue.assigned_to_worker) (rules.cancelling issue.id o h) (
          kept_if (state_name_in issue.state o.config.tracker.active_states)
            (rules.moving issue.id issue.state o h) (rules.cancelling issue.id o h)))

  reconcile_issue_keeps :
      (entries : Map RunningEntry) (issue : Issue) (o : Orchestrator)
      → P o
      → P (reconcile_issue entries issue o)
  unfolding reconcile_issue
  reconcile_issue_keeps entries issue o h = elim (Option-cases (lookup issue.id entries)) [
    | inl e ↦ rw (e, reconcile_issue) h
    | inr (entry, e) ↦ rw (e, reconcile_issue) (reconcile_entry_keeps issue entry o h)
  ]

  reconcile_issues_keep :
      (entries : Map RunningEntry) (issues : List Issue) (o : Orchestrator)
      → P o
      → P (reconcile_issues entries issues o)
  unfolding reconcile_issues
  reconcile_issues_keep entries [] o h = h
  reconcile_issues_keep entries (issue ∷ issues) o h =
      reconcile_issues_keep entries issues (reconcile_issue entries issue o)
        (reconcile_issue_keeps entries issue o h)

  reconcile_fetched_keeps :
      (entries : Map RunningEntry) (answer : Fetch (List Issue)) (o : Orchestrator)
      → P o
      → P (reconcile_fetched entries answer o)
  unfolding reconcile_fetched
  reconcile_fetched_keeps entries (fetched issues) o h = reconcile_issues_keep entries issues o h
  reconcile_fetched_keeps entries (fetch_failed message) o h = h

  reconcile_running_keeps :
      (env : Env) (now : ℕ) (o : Orchestrator) → P o → P (reconcile_running env now o)
  unfolding reconcile_running
  reconcile_running_keeps env now o h =
      let checked = detect_stalled_running env now o in
      let k = detect_stalled_keeps env now o h in
      kept_if (is_nil checked.running) k (
        reconcile_fetched_keeps (by_id [] checked.running)
          (env.fetch_issue_states_by_ids (map (λ entry. entry.issue_id) checked.running)) checked k)

  dispatch_candidates_keep :
      (env : Env) (now : ℕ) (issues : List Issue) (o : Orchestrator)
      → P o
      → P (dispatch_candidates env now issues o).0
  unfolding dispatch_candidates
  dispatch_candidates_keep env now [] o h = h
  dispatch_candidates_keep env now (issue ∷ issues) o h = elim (Choice-cases (choose env issue o)) [
    | inl e ↦ rw (e, dispatch_candidates) (dispatch_candidates_keep env now issues o h)
    | inr (inl e) ↦ rw (e, dispatch_candidates) h
    | inr (inr (refreshed, e)) ↦
        rw (e, dispatch_candidates)
          (dispatch_candidates_keep env now issues (dispatch_issue_done now refreshed 0 o).0
            (rules.dispatching now refreshed 0 o h))
  ]

  poll_fetched_keeps :
      (env : Env) (now : ℕ) (answer : Fetch (List Issue)) (o : Orchestrator)
      → P o
      → P (poll_fetched env now answer o).0
  unfolding poll_fetched
  poll_fetched_keeps env now (fetch_failed message) o h = rules.failing message o h
  poll_fetched_keeps env now (fetched issues) o h =
      dispatch_candidates_keep env now (sort_candidates env.slice_stable issues)
        (set_last_error (codes "") o) (rules.failing (codes "") o h)

  refresh_workflow_keeps :
      (reload : Reload) (o : Orchestrator)
      → KeepsLimit reload o
      → P o
      → P (refresh_workflow reload o).0
  unfolding refresh_workflow
  refresh_workflow_keeps unchanged o l h = h
  refresh_workflow_keeps (reload_failed message) o l h = rules.failing message o h
  refresh_workflow_keeps (reloaded config) o l h =
      rules.failing (codes "") (record o { config = config }) (rules.reloading config o l h)

  first_if :
      (b : Bool) (p : Orchestrator) (polled : Orchestrator × List Issue)
      → P p
      → P polled.0
      → P (if b then (p, []) else polled).0
  first_if true p polled h k = h
  first_if false p polled h k = k

  -- Whatever the sections keep, pollDispatched keeps, unless a reload lowers the limit.
  pub poll_dispatched_keeps :
      (env : Env) (now : ℕ) (reload : Reload) (o : Orchestrator)
      → KeepsLimit reload o
      → P o
      → P (poll_dispatched env now reload o).0
  unfolding poll_dispatched
  poll_dispatched_keeps env now reload o l h =
      let refreshed = (refresh_workflow reload o).0 in
      let reconciled = reconcile_running env now refreshed in
      let k = reconcile_running_keeps env now refreshed (refresh_workflow_keeps reload o l h) in
      first_if (refresh_workflow reload o).1 reconciled _ k (
        poll_fetched_keeps env now (env.fetch_active_issues refreshed.config.tracker.active_states)
          reconciled k)

Reach-rules : (o : Orchestrator) → PollRules (Reach o)
Reach-rules o = record {
  dispatching = λ now issue attempt p r. next r (Step.dispatching now issue attempt);
  scheduling =
      λ now issue attempt reason err p r. next r (Step.scheduling now issue attempt reason err);
  moving = λ id state p r. next r (Step.moving id state);
  cancelling = λ id p r. next r (Step.cancelling id);
  marking = λ issue entry p r. next r (Step.marking issue entry);
  failing = λ message p r. next r (Step.failing message);
  reloading = λ config p l r. next r (Step.reloading config l);
}

-- pollDispatched is a sequence of locked sections.
pub poll_dispatched-Reach :
    (env : Env) (now : ℕ) (reload : Reload) (o : Orchestrator)
    → KeepsLimit reload o
    → Reach o (poll_dispatched env now reload o).0
poll_dispatched-Reach env now reload o l =
    poll_dispatched_keeps (Reach o) (Reach-rules o) env now reload o l here
