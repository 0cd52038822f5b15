-- ===== src/Orchestrator/Safety/Handlers.antt =====
-- The handlers are made of the locked sections: each is a sequence of steps, so what holds of every
-- interleaving holds of every run of them.
use symphony_go.Prelude.{
  ℕ, ◌+◌, ◌≡◌, sym, subst, Bool, true, false, Text, codes, text_eq_refl, if◌then◌else◌, Option,
  none, some, List, ◌++◌, lookup, has_by, has_by-drop_by, arith, Bool-cases, Option-cases, inl, inr,
}
use symphony_go.Domain.{Issue, RunningEntry}
use symphony_go.Backoff.{continuation, failure}
use symphony_go.Eligibility.{
  Verdict, eligible, refused, no_available_orchestrator_slots, state_name_in,
}
use symphony_go.Orchestrator.State.{Orchestrator, TerminalCleanup, empty_entry}
use symphony_go.Orchestrator.Env.{Env, Fetch, fetched, fetch_failed}
use symphony_go.Orchestrator.Running.{running_key, remove_running}
use symphony_go.Orchestrator.Retrying.{retry_queued, retry_issue, attempt_of}
use symphony_go.Orchestrator.Dispatch.{dispatch_issue_done, service_done, release_issue}
use symphony_go.Outcomes.{Outcome, RunError, retry_failure, retry_continuation, canceled, failed}
use symphony_go.Orchestrator.Exit.{
  retire_worker, leave_running, cleanup_then_delete, follow_outcome, settle_exit,
  cleanup_terminal_issue_after_exit, worker_exited, terminal_check, finish_exit, finish_pending,
  after_error, is_canceled, is_settled, signal_poll_now, name_after,
}
use symphony_go.Orchestrator.RetryHandler.{
  give_up_retry, schedule_next, handle_retry, retry_dispatch, retry_by_verdict, retry_found,
  retry_verdict, retry_after_failure, retry_fetched, find_issue, set_last_error, no_slots_error,
}
use symphony_go.Orchestrator.Safety.Interleavings.{
  Reach, here, next, one, Reach-trans, dispatching, scheduling, clearing, retiring, forgetting,
  releasing, popping, signalling, failing, acting,
}

pub Reach-if :
    (b : Bool) {o p q : Orchestrator} → Reach o p → Reach o q → Reach o (if b then p else q)
Reach-if true r t = r
Reach-if false r t = t

pub cleanup_effects :
    (env : Env) (issue : Issue) (entry : RunningEntry) (o : Orchestrator)
    → (cleanup_then_delete env issue entry o).0
      ≡ record o { effects = (cleanup_then_delete env issue entry o).0.effects }
unfolding cleanup_then_delete
cleanup_effects env issue entry o = ground arith

cleanup_Reach :
    (env : Env) (issue : Issue) (entry : RunningEntry) (o : Orchestrator)
    → Reach o (cleanup_then_delete env issue entry o).0
cleanup_Reach env issue entry o =
    subst (Reach o) (sym (cleanup_effects env issue entry o)) (one (acting _))

gone_after_retiring :
    (now : ℕ) (id : Text) (o : Orchestrator)
    → has_by running_key id (retire_worker now id o).running ≡ false
unfolding retire_worker remove_running
gone_after_retiring now id o =
    ground (arith, has_by-drop_by running_key id id o.running, text_eq_refl id)

leave_running-Reach : (now : ℕ) (id : Text) (o : Orchestrator) → Reach o (leave_running now id o)
unfolding leave_running
leave_running-Reach now id o =
    next (one (retiring now id)) (forgetting id (gone_after_retiring now id o))

-- A retry is scheduled and the poll loop is woken.
schedule_next-Reach :
    (now : ℕ) (issue : Issue) (attempt : ℕ) (err : Option Text) (o : Orchestrator)
    → Reach o (schedule_next now issue attempt err o)
unfolding schedule_next
schedule_next-Reach now issue attempt err o =
    next (one (scheduling now issue (attempt + 1) failure err)) signalling

give_up_retry-Reach : (id : Text) (o : Orchestrator) → Reach o (give_up_retry id o)
unfolding give_up_retry
give_up_retry-Reach id o = next (next (one (clearing id)) (releasing id)) signalling

released : (id : Text) (o : Orchestrator) → Reach o (signal_poll_now (release_issue id o))
released id o = next (one (releasing id)) signalling

follow_outcome-Reach :
    (now : ℕ) (issue : Issue) (attempt : ℕ) (outcome : Outcome) (o : Orchestrator)
    → Reach o (follow_outcome now issue attempt outcome o)
unfolding follow_outcome
follow_outcome-Reach now issue attempt retry_continuation o =
    one (scheduling now issue 1 continuation none)
follow_outcome-Reach now issue attempt retry_failure o =
    one (scheduling now issue (attempt + 1) failure _)
follow_outcome-Reach now issue attempt _ o = released issue.id o

after_error-Reach :
    (now : ℕ) (issue : Issue) (attempt : ℕ) (outcome : Outcome) (err : Option RunError)
    (o : Orchestrator)
    → Reach o (after_error now issue attempt outcome err o)
unfolding after_error
after_error-Reach now issue attempt outcome none o =
    follow_outcome-Reach now issue attempt outcome o
after_error-Reach now issue attempt outcome (some canceled) o =
    one (scheduling now issue (attempt + 1) failure _)
after_error-Reach now issue attempt outcome (some (failed message)) o =
    one (scheduling now issue (attempt + 1) failure _)

settle_exit-Reach :
    (now : ℕ) (issue : Issue) (attempt : ℕ) (outcome : Outcome) (err : Option RunError)
    (o : Orchestrator)
    → Reach o (settle_exit now issue attempt outcome err o)
unfolding settle_exit
settle_exit-Reach now issue attempt outcome err o =
    Reach-if (is_canceled err) (Reach-if (retry_queued issue.id o) here (one (releasing issue.id)))
      (Reach-if (is_settled outcome) (released issue.id o) (
        Reach-if (service_done o.service) (one (releasing issue.id))
          (after_error-Reach now issue attempt outcome err o)))

terminal_check-Reach :
    (env : Env) (issue : Issue) (answer : Fetch Issue) (o : Orchestrator)
    → Reach o (terminal_check env issue answer o).0
unfolding terminal_check
terminal_check-Reach env issue (fetch_failed message) o = here
terminal_check-Reach env issue (fetched refreshed) o =
    elim (Bool-cases (state_name_in refreshed.state o.config.tracker.terminal_states)) [
      | inl terminal ↦ rw terminal (cleanup_Reach env (name_after issue refreshed) empty_entry o)
      | inr open_state ↦ rw open_state here
    ]

finish_exit-Reach :
    (env : Env) (now : ℕ) (issue : Issue) (attempt : ℕ) (outcome : Outcome) (err : Option RunError)
    (o : Orchestrator)
    → Reach o (finish_exit env now issue attempt outcome err o)
unfolding finish_exit cleanup_terminal_issue_after_exit
finish_exit-Reach env now issue attempt outcome err o =
    let answer = env.fetch_issue issue.id in
    Reach-trans (terminal_check-Reach env issue answer o) (
      Reach-if (terminal_check env issue answer o).1
        (released issue.id (terminal_check env issue answer o).0)
        (settle_exit-Reach now issue attempt outcome err (terminal_check env issue answer o).0))

finish_pending-Reach :
    (env : Env) (id : Text) (cleanup : TerminalCleanup) (o : Orchestrator)
    → Reach o (finish_pending env id cleanup o)
unfolding finish_pending
finish_pending-Reach env id cleanup o =
    next (Reach-trans (one (popping id)) (cleanup_Reach env cleanup.issue cleanup.entry _))
      (releasing id)

-- workerExited is a sequence of locked sections.
pub worker_exited-Reach :
    (env : Env) (now : ℕ) (issue : Issue) (attempt : ℕ) (outcome : Outcome) (err : Option RunError)
    (o : Orchestrator)
    → Reach o (worker_exited env now issue attempt outcome err o)
unfolding worker_exited
worker_exited-Reach env now issue attempt outcome err o =
    let left = leave_running now issue.id o in
    Reach-trans (leave_running-Reach now issue.id o)
      (elim (Option-cases (lookup issue.id left.pending_terminal_cleanup)) [
        | inl e ↦ rw (e, worker_exited) (finish_exit-Reach env now issue attempt outcome err left)
        | inr (cleanup, e) ↦ rw (e, worker_exited) (finish_pending-Reach env issue.id cleanup left)
      ])

retry_dispatch-Reach :
    (now : ℕ) (issue : Issue) (attempt : ℕ) (o : Orchestrator)
    → Reach o (retry_dispatch now issue attempt o)
unfolding retry_dispatch
retry_dispatch-Reach now issue attempt o =
    let after = (dispatch_issue_done now issue attempt o).0 in
    Reach-trans (one (dispatching now issue attempt)) (
      Reach-if (dispatch_issue_done now issue attempt o).1 (one signalling)
        (schedule_next-Reach now issue attempt no_slots_error after))

retry_by_verdict-Reach :
    (now : ℕ) (issue : Issue) (id : Text) (verdict : Verdict) (o : Orchestrator)
    → Reach o (retry_by_verdict now issue id verdict o)
unfolding retry_by_verdict
retry_by_verdict-Reach now issue id eligible o = retry_dispatch-Reach now issue (attempt_of id o) o
retry_by_verdict-Reach now issue id (refused no_available_orchestrator_slots) o =
    schedule_next-Reach now issue (attempt_of id o) no_slots_error o
retry_by_verdict-Reach now issue id (refused _) o = give_up_retry-Reach id o

retry_found-Reach :
    (now : ℕ) (id : Text) (found : Option Issue) (o : Orchestrator)
    → Reach o (retry_found now id found o)
unfolding retry_found
retry_found-Reach now id none o = give_up_retry-Reach id o
retry_found-Reach now id (some issue) o =
    retry_by_verdict-Reach now issue id (retry_verdict issue id o) o

retry_after_failure-Reach :
    (now : ℕ) (id message : Text) (o : Orchestrator)
    → Reach o (retry_after_failure now id message o)
unfolding retry_after_failure
retry_after_failure-Reach now id message o =
    let wrapped = codes "retry poll failed: " ++ message in
    let recorded = set_last_error wrapped o in
    Reach-trans (one (failing wrapped)) (elim (Option-cases (retry_issue id recorded)) [
      | inl e ↦ rw (e, retry_after_failure) (one signalling)
      | inr ((issue, attempt), e) ↦
          rw (e, retry_after_failure)
            (schedule_next-Reach now issue attempt (some wrapped) recorded)
    ])

retry_fetched-Reach :
    (now : ℕ) (id : Text) (answer : Fetch (List Issue)) (o : Orchestrator)
    → Reach o (retry_fetched now id answer o)
unfolding retry_fetched
retry_fetched-Reach now id (fetched issues) o = retry_found-Reach now id (find_issue id issues) o
retry_fetched-Reach now id (fetch_failed message) o = retry_after_failure-Reach now id message o

-- handleRetry is a sequence of locked sections.
pub handle_retry-Reach :
    (env : Env) (now : ℕ) (id : Text) (o : Orchestrator) → Reach o (handle_retry env now id o)
unfolding handle_retry
handle_retry-Reach env now id o =
    Reach-if (service_done o.service) (give_up_retry-Reach id o)
      (retry_fetched-Reach now id (env.fetch_active_issues o.config.tracker.active_states) o)
