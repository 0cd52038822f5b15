-- ===== src/Orchestrator/Claims/RetryTimers.antt =====
-- handleRetry keeps every claim backed when an armed timer fires.
use symphony_go.Prelude.{
  ℕ, ◌+◌, ◌≡◌, true, not, ◌&&◌, Text, codes, text_eq, text_eq_iff, if◌then◌else◌, ltb, Map, Option,
  some, lookup, has_key, List, [], ◌∷◌, ◌++◌, has_by, has_by-drop_by, find_by-has_by, arith,
  Bool-cases, Option-cases, inl, inr, ◌∙◌,
}
use symphony_go.Domain.{Issue}
use symphony_go.Backoff.{failure}
use symphony_go.Eligibility.{Verdict, eligible, refused, no_available_orchestrator_slots}
use symphony_go.Orchestrator.State.{Orchestrator, without_timer, bare_issue}
use symphony_go.Orchestrator.Env.{Env, Fetch, fetched, fetch_failed}
use symphony_go.Orchestrator.Retrying.{retry_key, retry_issue, attempt_of, clear_retry}
use symphony_go.Orchestrator.Dispatch.{dispatch_issue_done, service_done}
use symphony_go.Orchestrator.Dispatch.Slots.{refused_unchanged}
use symphony_go.Orchestrator.RetryHandler.{
  find_issue, set_last_error, give_up_retry, schedule_next, no_slots_error, retry_verdict,
  retry_dispatch, retry_by_verdict, retry_found, retry_after_failure, retry_fetched, handle_retry,
  fire_timer,
}
use symphony_go.Orchestrator.Claims.{timer_key, Synced, Sound, SoundBut}
use symphony_go.Orchestrator.Claims.Timers.{stop-drop, Registered-drop}
use symphony_go.Orchestrator.Claims.Locked.{schedule_retry-Sound, release_dropped-Sound}
use symphony_go.Orchestrator.Claims.Handlers.{
  Sound-if, signal_poll_now-Sound, dispatch_accepted-Sound,
}

give_up_retry-Sound : (id : Text) (o : Orchestrator) → SoundBut id o → Sound (give_up_retry id o)
unfolding give_up_retry clear_retry
give_up_retry-Sound id o s = signal_poll_now-Sound _ (release_dropped-Sound id o s)

schedule_next-Sound :
    (now : ℕ) (issue : Issue) (attempt : ℕ) (err : Option Text) (o : Orchestrator)
    → SoundBut issue.id o
    → Sound (schedule_next now issue attempt err o)
unfolding schedule_next
schedule_next-Sound now issue attempt err o s =
    signal_poll_now-Sound _ (schedule_retry-Sound now issue (attempt + 1) failure err o s)

retry_dispatch-Sound :
    (now : ℕ) (issue : Issue) (attempt : ℕ) (o : Orchestrator)
    → SoundBut issue.id o
    → Sound (retry_dispatch now issue attempt o)
unfolding retry_dispatch
retry_dispatch-Sound now issue attempt o s =
    elim (Bool-cases (dispatch_issue_done now issue attempt o).1) [
      | inl accepted ↦
          rw accepted
            (signal_poll_now-Sound _ (dispatch_accepted-Sound now issue attempt o accepted s))
      | inr declined ↦
          rw (declined, refused_unchanged now issue attempt o declined)
            (schedule_next-Sound now issue attempt no_slots_error o s)
    ]

retry_by_verdict-Sound :
    (now : ℕ) (issue : Issue) (verdict : Verdict) (o : Orchestrator)
    → SoundBut issue.id o
    → Sound (retry_by_verdict now issue issue.id verdict o)
unfolding retry_by_verdict
retry_by_verdict-Sound now issue eligible o s =
    retry_dispatch-Sound now issue (attempt_of issue.id o) o s
retry_by_verdict-Sound now issue (refused no_available_orchestrator_slots) o s =
    schedule_next-Sound now issue (attempt_of issue.id o) no_slots_error o s
retry_by_verdict-Sound now issue (refused _) o s = give_up_retry-Sound issue.id o s

find_issue-id :
    (id : Text) (issues : List Issue) (issue : Issue)
    → find_issue id issues ≡ some issue
    → issue.id ≡ id
unfolding find_issue
find_issue-id id [] issue e = cc
find_issue-id id (x ∷ issues) issue e =
    ground (arith, find_issue-id id issues issue, text_eq_iff x.id id)

retry_some-Sound :
    (now : ℕ) (id : Text) (issue : Issue) (o : Orchestrator)
    → issue.id ≡ id
    → SoundBut id o
    → Sound (retry_found now id (some issue) o)
unfolding retry_found
retry_some-Sound now id issue o e s =
    rw (← e) (retry_by_verdict-Sound now issue (retry_verdict issue issue.id o) o (rw e s))

retry_fetched-Sound :
    (now : ℕ) (id : Text) (issues : List Issue) (o : Orchestrator)
    → SoundBut id o
    → Sound (retry_found now id (find_issue id issues) o)
unfolding retry_found
retry_fetched-Sound now id issues o s = elim (Option-cases (find_issue id issues)) [
  | inl e ↦ rw e (give_up_retry-Sound id o s)
  | inr (issue, e) ↦ rw e (retry_some-Sound now id issue o (find_issue-id id issues issue e) s)
]

set_last_error-SoundBut :
    (id message : Text) (o : Orchestrator) → SoundBut id o → SoundBut id (set_last_error message o)
unfolding set_last_error
set_last_error-SoundBut id message o s = record {
  synced = record {
    registered = s.synced.registered;
    injective = s.synced.injective;
    below = s.synced.below;
    attempts = s.synced.attempts;
    entries = s.synced.entries;
  };
  armed = s.armed;
  backed = s.backed;
}

-- The issue whose timer fired is in the retry queue, so its next attempt is scheduled.
retry_issue-found :
    (id : Text) (o : Orchestrator)
    → has_by retry_key id o.retrying ≡ true
    → (issue : Issue) × (attempt : ℕ) × (retry_issue id o ≡ some (issue, attempt)) × (issue.id ≡ id)
unfolding retry_issue
retry_issue-found id o h =
    let (entry, found, same) = find_by-has_by retry_key id o.retrying h in
    let attempt = if ltb (attempt_of id o) 1 then entry.attempt else attempt_of id o in
    (bare_issue entry.issue_id entry.issue_identifier [], attempt, rw (found, retry_issue), same)

retry_after_failure-Sound :
    (now : ℕ) (id message : Text) (o : Orchestrator)
    → has_key id o.retry_timers ≡ true
    → SoundBut id o
    → Sound (retry_after_failure now id message o)
unfolding retry_after_failure set_last_error
retry_after_failure-Sound now id message o h s =
    let wrapped = codes "retry poll failed: " ++ message in
    let recorded = set_last_error wrapped o in
    let t = set_last_error-SoundBut id wrapped o s in
    let queued : has_by retry_key id o.retrying ≡ true = s.synced.entries id ∙ h in
    let (issue, attempt, e, same) = retry_issue-found id recorded queued in
    rw (e, retry_after_failure)
      (schedule_next-Sound now issue attempt (some wrapped) recorded (rw same t))

retry_answer-Sound :
    (now : ℕ) (id : Text) (answer : Fetch (List Issue)) (o : Orchestrator)
    → has_key id o.retry_timers ≡ true
    → SoundBut id o
    → Sound (retry_fetched now id answer o)
unfolding retry_fetched
retry_answer-Sound now id (fetched issues) o h s = retry_fetched-Sound now id issues o s
retry_answer-Sound now id (fetch_failed message) o h s =
    retry_after_failure-Sound now id message o h s

handle_retry-Sound :
    (env : Env) (now : ℕ) (id : Text) (o : Orchestrator)
    → has_key id o.retry_timers ≡ true
    → SoundBut id o
    → Sound (handle_retry env now id o)
unfolding handle_retry
handle_retry-Sound env now id o h s =
    Sound-if (service_done o.service) (give_up_retry-Sound id o s)
      (retry_answer-Sound now id (env.fetch_active_issues o.config.tracker.active_states) o h s)

other_armed :
    (timer : ℕ) (id : Text) (o : Orchestrator) (j : Text)
    → lookup id o.retry_timers ≡ some timer
    → Synced o
    → has_by timer_key j (without_timer (some timer) o.armed)
      ≡ (not (text_eq id j) && has_by timer_key j o.armed)
other_armed timer id o j e y =
    rw (← e, stop-drop id o.retry_timers o.armed y.injective y.registered)
      (has_by-drop_by timer_key id j o.armed)

fired-SoundBut :
    (timer : ℕ) (id : Text) (o : Orchestrator)
    → lookup id o.retry_timers ≡ some timer
    → Sound o
    → SoundBut id (record o { armed = without_timer (some timer) o.armed })
fired-SoundBut timer id o e s = record {
  synced = record {
    registered =
        rw (← e, stop-drop id o.retry_timers o.armed s.synced.injective s.synced.registered)
          (Registered-drop id o.retry_timers o.armed s.synced.registered);
    injective = s.synced.injective;
    below = s.synced.below;
    attempts = s.synced.attempts;
    entries = s.synced.entries;
  };
  armed = λ j ne. other_armed timer id o j e s.synced ∙ ground (arith, s.armed j, text_eq_iff id j);
  backed = λ j ne c.
      rw (other_armed timer id o j e s.synced) (ground (arith, s.backed j c, text_eq_iff id j));
}

key_of_lookup : (id : Text) (timer : ℕ) (m : Map ℕ) → lookup id m ≡ some timer → has_key id m ≡ true
unfolding has_key
key_of_lookup id timer m e = rw (e, has_key)

-- An armed timer fires, and handleRetry runs: every claim is still backed.
pub fire_timer-Sound :
    (env : Env) (now timer : ℕ) (id : Text) (o : Orchestrator)
    → lookup id o.retry_timers ≡ some timer
    → Sound o
    → Sound (fire_timer env now timer id o)
unfolding fire_timer without_timer
fire_timer-Sound env now timer id o e s =
    handle_retry-Sound env now id _ (key_of_lookup id timer o.retry_timers e)
      (fired-SoundBut timer id o e s)
