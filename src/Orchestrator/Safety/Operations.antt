-- ===== src/Orchestrator/Safety/Operations.antt =====
-- Each locked operation keeps `Safe`.
use symphony_go.Prelude.{
  ℕ, ◌≤◌, ◌<◌, ◌≡◌, refl, true, false, ◌||◌, Text, codes, text_eq, text_eq_iff, Option, some,
  length, has_key, has_key-insert, has_key-delete, has_by, has_by-put_by, put_by-Distinct,
  length-put_by, has_by-change_by, change_by-Distinct, length-change_by, change_by, has_by-cons,
  has_by-drop_by, drop_by-Distinct, length-drop_by-le, Distinct, put_by, find_by, Option-cases,
  arith, Bool-cases, inl, inr,
}
use symphony_go.Domain.{Issue, RunningEntry}
use symphony_go.Backoff.{RetryReason}
use symphony_go.Eligibility.{eligible, candidate_eligible}
use symphony_go.Eligibility.Spec.{candidate_eligible_iff}
use symphony_go.Observability.{Event}
use symphony_go.Orchestrator.State.{Orchestrator, worker_key, cancel_context}
use symphony_go.Orchestrator.Running.{
  running_key, set_running_stage, update_running_state, update_running_from_event, remove_running,
  stage_entry, merge_stage, entry_from_event,
}
use symphony_go.Orchestrator.Retrying.{
  retry_key, schedule_retry, clear_retry, drop_retry, remove_retry,
}
use symphony_go.Orchestrator.Dispatch.{
  max_concurrent_agents, dispatch_issue_done, start_worker, eligibility_state,
}
use symphony_go.Orchestrator.Dispatch.Slots.{length-running_map, accepted_checks, refused_unchanged}
use symphony_go.Orchestrator.Exit.{retire_worker, forget_cancel}
use symphony_go.Orchestrator.Safety.{Safe}

-- `Safe` looks at five fields only.
pub Safe-same :
    (o p : Orchestrator)
    → p.running ≡ o.running
    → p.retrying ≡ o.retrying
    → p.workers ≡ o.workers
    → p.config ≡ o.config
    → p.running_cancel ≡ o.running_cancel
    → Safe o
    → Safe p
Safe-same o p r q w c k s = record {
  running_distinct = rw r s.running_distinct;
  retrying_distinct = rw q s.retrying_distinct;
  workers_distinct = rw w s.workers_distinct;
  within_limit = rw (r, c) s.within_limit;
  worker_shown = rw (r, w) s.worker_shown;
  shown_cancel = rw (r, k) s.shown_cancel;
}

pub drop_retry-Safe : (id : Text) (o : Orchestrator) → Safe o → Safe (drop_retry id o)
unfolding drop_retry
drop_retry-Safe id o s = record {
  running_distinct = s.running_distinct;
  retrying_distinct = drop_by-Distinct retry_key id o.retrying s.retrying_distinct;
  workers_distinct = s.workers_distinct;
  within_limit = s.within_limit;
  worker_shown = s.worker_shown;
  shown_cancel = s.shown_cancel;
}

pub clear_retry-Safe : (id : Text) (o : Orchestrator) → Safe o → Safe (clear_retry id o)
unfolding clear_retry
clear_retry-Safe id o s = drop_retry-Safe id o s

pub schedule_retry-Safe :
    (now : ℕ) (issue : Issue) (attempt : ℕ) (reason : RetryReason) (err : Option Text)
    (o : Orchestrator)
    → Safe o
    → Safe (schedule_retry now issue attempt reason err o)
unfolding schedule_retry
schedule_retry-Safe now issue attempt reason err o s = record {
  running_distinct = s.running_distinct;
  retrying_distinct = put_by-Distinct retry_key _ _ o.retrying (λ _. refl) s.retrying_distinct;
  workers_distinct = s.workers_distinct;
  within_limit = s.within_limit;
  worker_shown = s.worker_shown;
  shown_cancel = s.shown_cancel;
}

pub remove_retry-Safe : (id : Text) (o : Orchestrator) → Safe o → Safe (remove_retry id o)
unfolding remove_retry
remove_retry-Safe id o s = record {
  running_distinct = s.running_distinct;
  retrying_distinct = drop_by-Distinct retry_key id o.retrying s.retrying_distinct;
  workers_distinct = s.workers_distinct;
  within_limit = s.within_limit;
  worker_shown = s.worker_shown;
  shown_cancel = s.shown_cancel;
}

-- A change of entries that keeps their issues.
changed-Safe :
    (id : Text) (change : RunningEntry → RunningEntry) (o p : Orchestrator)
    → ((entry : RunningEntry) → running_key (change entry) ≡ running_key entry)
    → p.running ≡ change_by running_key id change o.running
    → p.retrying ≡ o.retrying
    → p.workers ≡ o.workers
    → p.config ≡ o.config
    → p.running_cancel ≡ o.running_cancel
    → Safe o
    → Safe p
changed-Safe id change o p h r q w c k s = record {
  running_distinct = rw r (change_by-Distinct running_key id change o.running h s.running_distinct);
  retrying_distinct = rw q s.retrying_distinct;
  workers_distinct = rw w s.workers_distinct;
  within_limit = rw (r, c, length-change_by running_key id change o.running) s.within_limit;
  worker_shown =
      λ j. rw (r, w, has_by-change_by running_key id change j o.running h) (s.worker_shown j);
  shown_cancel =
      λ j. rw (r, k, has_by-change_by running_key id change j o.running h) (s.shown_cancel j);
}

pub update_running_state-Safe :
    (id state : Text) (o : Orchestrator) → Safe o → Safe (update_running_state id state o)
unfolding update_running_state
update_running_state-Safe id state o s =
    changed-Safe id _ o _ (λ _. refl) refl refl refl refl refl s

entry_from_event-key :
    (now : ℕ) (event : Event) (entry : RunningEntry)
    → running_key (entry_from_event now event entry) ≡ running_key entry
unfolding entry_from_event
entry_from_event-key now event entry = refl

pub update_running_from_event-Safe :
    (now : ℕ) (id : Text) (event : Event) (o : Orchestrator)
    → Safe o
    → Safe (update_running_from_event now id event o)
unfolding update_running_from_event
update_running_from_event-Safe now id event o s =
    elim (Option-cases (find_by running_key id o.running)) [
      | inl e ↦ rw (e, update_running_from_event) s
      | inr (entry, e) ↦
          rw (e, update_running_from_event)
            (changed-Safe id (entry_from_event now event) o _ (entry_from_event-key now event) refl
              refl refl refl refl s)
    ]

-- An entry that is put among the running ones, with its worker and its cancel function.
put-Safe :
    (merge : RunningEntry → RunningEntry) (entry : RunningEntry) (o p : Orchestrator)
    → ((x : RunningEntry) → running_key (merge x) ≡ running_key entry)
    → p.running ≡ put_by running_key merge entry o.running
    → Distinct retry_key p.retrying
    → Distinct worker_key p.workers
    → length p.running ≤ max_concurrent_agents (some p.config)
    → ((j : Text)
        → has_by worker_key j p.workers ≡ true
        → (text_eq entry.issue_id j || has_by worker_key j o.workers) ≡ true)
    → ((j : Text)
        → (text_eq entry.issue_id j || has_key j o.running_cancel) ≡ true
        → has_key j p.running_cancel ≡ true)
    → Safe o
    → Safe p
put-Safe merge entry o p h r q w l workers cancels s = record {
  running_distinct = rw r (put_by-Distinct running_key merge entry o.running h s.running_distinct);
  retrying_distinct = q;
  workers_distinct = w;
  within_limit = l;
  worker_shown = λ j g.
      rw (r, has_by-put_by running_key merge entry j o.running h)
        (ground (arith, workers j g, s.worker_shown j));
  shown_cancel = λ j g.
      let shown : (text_eq entry.issue_id j || has_by running_key j o.running) ≡ true =
        rw (r, has_by-put_by running_key merge entry j o.running h) at g in
      cancels j (ground (arith, shown, s.shown_cancel j));
}

-- A worker reports a stage: its issue is shown, so no entry is added.
pub set_running_stage-Safe :
    (now : ℕ) (issue : Issue) (attempt : ℕ) (phase stage message path : Text) (turn : ℕ)
    (o : Orchestrator)
    → has_by worker_key issue.id o.workers ≡ true
    → Safe o
    → Safe (set_running_stage now issue attempt phase stage message path turn o)
unfolding set_running_stage
set_running_stage-Safe now issue attempt phase stage message path turn o w s =
    let entry = stage_entry now issue attempt phase stage message path turn in
    put-Safe (merge_stage entry) entry o _ (λ _. refl) refl s.retrying_distinct s.workers_distinct
      (rw (length-put_by running_key (merge_stage entry) entry o.running, s.worker_shown issue.id w)
        s.within_limit)
      (λ j g. ground (arith, g))
      (λ j g.
        ground
          (arith, g, text_eq_iff issue.id j, s.shown_cancel issue.id (s.worker_shown issue.id w)))
      s

pub retire_worker-Safe :
    (now : ℕ) (id : Text) (o : Orchestrator) → Safe o → Safe (retire_worker now id o)
unfolding retire_worker remove_running
retire_worker-Safe now id o s = record {
  running_distinct = drop_by-Distinct running_key id o.running s.running_distinct;
  retrying_distinct = s.retrying_distinct;
  workers_distinct = drop_by-Distinct worker_key id o.workers s.workers_distinct;
  within_limit = omega (arith, length-drop_by-le running_key id o.running, s.within_limit);
  worker_shown = λ j h. ground (
    arith,
    has_by-drop_by running_key id j o.running,
    has_by-drop_by worker_key id j o.workers,
    s.worker_shown j,
  );
  shown_cancel = λ j h. ground (arith, has_by-drop_by running_key id j o.running, s.shown_cancel j);
}

pub forget_cancel-Safe :
    (id : Text) (o : Orchestrator)
    → has_by running_key id o.running ≡ false
    → Safe o
    → Safe (forget_cancel id o)
unfolding forget_cancel cancel_context
forget_cancel-Safe id o gone s = record {
  running_distinct = s.running_distinct;
  retrying_distinct = s.retrying_distinct;
  workers_distinct = s.workers_distinct;
  within_limit = s.within_limit;
  worker_shown = s.worker_shown;
  shown_cancel = λ j h.
      ground (arith, has_key-delete id j o.running_cancel, s.shown_cancel j, text_eq_iff id j);
}

-- An issue without a cancel function is not shown and has no worker.
not_shown :
    (id : Text) (o : Orchestrator)
    → has_key id o.running_cancel ≡ false
    → Safe o
    → (has_by running_key id o.running ≡ false) × (has_by worker_key id o.workers ≡ false)
not_shown id o free s = ground (arith, s.shown_cancel id, s.worker_shown id)

free_slot :
    (issue : Issue) (o : Orchestrator)
    → candidate_eligible issue (eligibility_state issue.id o) ≡ eligible
    → Safe o
    → length o.running < max_concurrent_agents (some o.config)
unfolding eligibility_state
free_slot issue o ok s =
    rw (length-running_map o.running s.running_distinct) at
      (((candidate_eligible_iff issue (eligibility_state issue.id o)).0 ok).global_slot)

start_worker-Safe :
    (now : ℕ) (issue : Issue) (attempt : ℕ) (o : Orchestrator)
    → has_key issue.id o.running_cancel ≡ false
    → candidate_eligible issue (eligibility_state issue.id o) ≡ eligible
    → Safe o
    → Safe (start_worker now issue attempt o)
unfolding start_worker set_running_stage drop_retry
start_worker-Safe now issue attempt o free ok s =
    let entry =
      stage_entry now issue attempt (codes "") (codes "queued") (codes "queued for worker")
        (codes "") 1 in
    let (hidden, idle) = not_shown issue.id o free s in
    put-Safe (merge_stage entry) entry o _ (λ _. refl) refl
      (drop_by-Distinct retry_key issue.id o.retrying s.retrying_distinct)
      (idle, s.workers_distinct)
      (rw (length-put_by running_key (merge_stage entry) entry o.running, hidden)
        (free_slot issue o ok s))
      (λ j g. has_by-cons worker_key issue.id j o.workers g)
      (λ j g. ground (arith, g, has_key-insert issue.id j o.next_id o.running_cancel)) s

-- A dispatch keeps `Safe`, accepted or refused.
pub dispatch_issue_done-Safe :
    (now : ℕ) (issue : Issue) (attempt : ℕ) (o : Orchestrator)
    → Safe o
    → Safe (dispatch_issue_done now issue attempt o).0
dispatch_issue_done-Safe now issue attempt o s =
    elim (Bool-cases (dispatch_issue_done now issue attempt o).1) [
      | inl accepted ↦
          let (_, free, ok, e) = accepted_checks now issue attempt o accepted in
          rw e (start_worker-Safe now issue attempt o free ok s)
      | inr refused ↦ rw (refused_unchanged now issue attempt o refused) s
    ]
