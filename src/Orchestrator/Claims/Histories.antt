-- ===== src/Orchestrator/Claims/Histories.antt =====
-- Histories of handlers, each run to its end before the next, and the claims after them.
use symphony_go.Prelude.{
  ℕ, ◌≡◌, refl, true, Text, Option, some, lookup, has_key, has_by, find_by, Option-cases, inl, inr,
}
use symphony_go.Domain.{Config, Issue}
use symphony_go.Observability.{Event}
use symphony_go.Orchestrator.State.{Orchestrator, Service, worker_key, cancel_context}
use symphony_go.Orchestrator.Env.{Env}
use symphony_go.Orchestrator.Running.{
  running_key, set_running_stage, update_running_state, update_running_from_event,
}
use symphony_go.Outcomes.{Outcome, RunError}
use symphony_go.Orchestrator.Exit.{worker_exited, signal_poll_now, mark_pending_terminal_cleanup}
use symphony_go.Orchestrator.RetryHandler.{set_last_error, fire_timer}
use symphony_go.Orchestrator.Reconcile.{cancel_running}
use symphony_go.Orchestrator.Poll.{Reload, poll_dispatched}
use symphony_go.Orchestrator.Safety.Interleavings.{new_orchestrator}
use symphony_go.Orchestrator.Safety.Polling.{PollRules, KeepsLimit, poll_dispatched_keeps}
use symphony_go.Orchestrator.Claims.{timer_key, Sound}
use symphony_go.Orchestrator.Claims.Locked.{Sound-but, Sound-same, schedule_retry-Sound}
use symphony_go.Orchestrator.Claims.Handlers.{
  dispatch_issue_done-Sound, worker_exited-Sound, signal_poll_now-Sound,
}
use symphony_go.Orchestrator.Claims.RetryTimers.{fire_timer-Sound}

-- One handler, on an event of the environment: a poll, the end of a worker, a retry timer that
-- fires, a report of a worker, a refresh request, a change of the service context.
pub data Turn (o : Orchestrator) : Orchestrator → Type 0 where
  polls :
      (env : Env) (now : ℕ) (reload : Reload)
      → KeepsLimit reload o
      → Turn o (poll_dispatched env now reload o).0
  exits :
      (env : Env) (now : ℕ) (issue : Issue) (attempt : ℕ) (outcome : Outcome)
      (err : Option RunError)
      → has_by worker_key issue.id o.workers ≡ true
      → Turn o (worker_exited env now issue attempt outcome err o)
  fires :
      (env : Env) (now timer : ℕ) (id : Text)
      → lookup id o.retry_timers ≡ some timer
      → has_by timer_key id o.armed ≡ true
      → Turn o (fire_timer env now timer id o)
  reports :
      (now : ℕ) (issue : Issue) (attempt : ℕ) (phase stage message path : Text) (turn : ℕ)
      → has_by worker_key issue.id o.workers ≡ true
      → Turn o (set_running_stage now issue attempt phase stage message path turn o)
  receives :
      (now : ℕ) (id : Text) (event : Event) → Turn o (update_running_from_event now id event o)
  refreshes : Turn o (signal_poll_now o)
  serves : (service : Service) → Turn o (record o { service = service })

pub data History (o : Orchestrator) : Orchestrator → Type 0 where
  start : History o o
  then : {p q : Orchestrator} → History o p → Turn p q → History o q

Sound-rules : PollRules Sound
unfolding update_running_state cancel_running cancel_context mark_pending_terminal_cleanup
    set_last_error
Sound-rules = record {
  dispatching = dispatch_issue_done-Sound;
  scheduling = λ now issue attempt reason err o s.
      schedule_retry-Sound now issue attempt reason err o (Sound-but issue.id s);
  moving = λ id state o s. Sound-same o _ refl refl refl refl refl refl refl s;
  cancelling = λ id o s. Sound-same o _ refl refl refl refl refl refl refl s;
  marking = λ issue entry o s. Sound-same o _ refl refl refl refl refl refl refl s;
  failing = λ message o s. Sound-same o _ refl refl refl refl refl refl refl s;
  reloading = λ config o l s. Sound-same o _ refl refl refl refl refl refl refl s;
}

received-Sound :
    (now : ℕ) (id : Text) (event : Event) (o : Orchestrator)
    → Sound o
    → Sound (update_running_from_event now id event o)
unfolding update_running_from_event
received-Sound now id event o s = elim (Option-cases (find_by running_key id o.running)) [
  | inl e ↦ rw (e, update_running_from_event) s
  | inr (entry, e) ↦
      rw (e, update_running_from_event) (Sound-same o _ refl refl refl refl refl refl refl s)
]

Turn-Sound : {o p : Orchestrator} → Turn o p → Sound o → Sound p
unfolding set_running_stage
Turn-Sound {o} (polls env now reload l) s =
    poll_dispatched_keeps Sound Sound-rules env now reload o l s
Turn-Sound {o} (exits env now issue attempt outcome err w) s =
    worker_exited-Sound env now issue attempt outcome err o s
Turn-Sound {o} (fires env now timer id e a) s = fire_timer-Sound env now timer id o e s
Turn-Sound {o} (reports now issue attempt phase stage message path turn w) s =
    Sound-same o _ refl refl refl refl refl refl refl s
Turn-Sound {o} (receives now id event) s = received-Sound now id event o s
Turn-Sound {o} refreshes s = signal_poll_now-Sound o s
Turn-Sound {o} (serves service) s = Sound-same o _ refl refl refl refl refl refl refl s

History-Sound-from : {o p : Orchestrator} → History o p → Sound o → Sound p
History-Sound-from start s = s
History-Sound-from (then h t) s = Turn-Sound t (History-Sound-from h s)

new_orchestrator-Sound :
    (config : Config) (issue_filter : Text) → Sound (new_orchestrator config issue_filter)
unfolding new_orchestrator has_by has_key lookup
new_orchestrator-Sound config issue_filter = record {
  synced = record {
    registered = tt;
    injective = λ j k x e f. cc;
    below = λ j x e. cc;
    attempts = λ j. refl;
    entries = λ j. refl;
  };
  armed = λ j. refl;
  backed = λ j c. cc;
}

-- After any history of handlers from a new orchestrator, each run to its end before the next and
-- with no reload that lowers the limit: a claimed issue has a worker or an armed retry timer; the
-- retry timers, the retry attempts and the retry entries are of the same issues; an issue has a timer
-- armed exactly if it is in the retry queue; and an armed timer is the one registered for its issue.
pub History-Sound :
    (config : Config) (issue_filter : Text) {o : Orchestrator}
    → History (new_orchestrator config issue_filter) o
    → Sound o
History-Sound config issue_filter h =
    History-Sound-from h (new_orchestrator-Sound config issue_filter)
