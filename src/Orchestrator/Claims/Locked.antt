-- ===== src/Orchestrator/Claims/Locked.antt =====
-- What the locked sections of the retry queue do to the agreement of its containers, and to the
-- backing of claims.
use symphony_go.Prelude.{
  ℕ, ◌+◌, ◌<◌, ◌≡◌, ◌≢◌, refl, ◌∙◌, true, not, ◌&&◌, ◌||◌, Text, text_eq, text_eq_iff, text_eq_refl,
  Option, some, lookup, lookup-delete, lookup-insert, insert, delete, has_key-insert,
  has_key-delete, has_by, has_by-put_by, has_by-drop_by, drop_by, arith,
}
use symphony_go.Domain.{Issue}
use symphony_go.Backoff.{RetryReason, retry_delay, add_delay}
use symphony_go.Orchestrator.State.{Orchestrator, without_timer}
use symphony_go.Orchestrator.Running.{set_running_stage}
use symphony_go.Orchestrator.Retrying.{retry_key, retry_entry, schedule_retry, drop_retry}
use symphony_go.Orchestrator.Dispatch.{release_issue, start_worker}
use symphony_go.Orchestrator.Claims.{timer_key, Synced, Armed, Backed, Sound, SoundBut}
use symphony_go.Orchestrator.Claims.Timers.{stop-drop, Registered-insert, Registered-delete}

pub Sound-but : (id : Text) {o : Orchestrator} → Sound o → SoundBut id o
Sound-but id s = record { synced = s.synced; armed = λ j _. s.armed j; backed = λ j _. s.backed j }

module _ (id : Text) (o : Orchestrator) (y : Synced o) where
  insert-injective :
      (j k : Text) (x : ℕ)
      → lookup j (insert id o.next_id o.retry_timers) ≡ some x
      → lookup k (insert id o.next_id o.retry_timers) ≡ some x
      → j ≡ k
  insert-injective j k x e f = ground (
    arith,
    lookup-insert id j o.next_id o.retry_timers,
    lookup-insert id k o.next_id o.retry_timers,
    text_eq_iff id j,
    text_eq_iff id k,
    y.injective j k x,
    y.below j x,
    y.below k x,
  )

  insert-below :
      (j : Text) (x : ℕ)
      → lookup j (insert id o.next_id o.retry_timers) ≡ some x
      → x < o.next_id + 1
  insert-below j x e = ground (arith, lookup-insert id j o.next_id o.retry_timers, y.below j x)

  delete-injective :
      (j k : Text) (x : ℕ)
      → lookup j (delete id o.retry_timers) ≡ some x
      → lookup k (delete id o.retry_timers) ≡ some x
      → j ≡ k
  delete-injective j k x e f = ground (
    arith,
    lookup-delete id j o.retry_timers,
    lookup-delete id k o.retry_timers,
    y.injective j k x,
  )

  delete-below : (j : Text) (x : ℕ) → lookup j (delete id o.retry_timers) ≡ some x → x < o.next_id
  delete-below j x e = ground (arith, lookup-delete id j o.retry_timers, y.below j x)

  stopped : without_timer (lookup id o.retry_timers) o.armed ≡ drop_by timer_key id o.armed
  stopped = stop-drop id o.retry_timers o.armed y.injective y.registered

schedule_retry-Synced :
    (now : ℕ) (issue : Issue) (attempt : ℕ) (reason : RetryReason) (err : Option Text)
    (o : Orchestrator)
    → Synced o
    → Synced (schedule_retry now issue attempt reason err o)
unfolding schedule_retry
schedule_retry-Synced now issue attempt reason err o y = record {
  registered = (
    ground (arith, lookup-insert issue.id issue.id o.next_id o.retry_timers, text_eq_refl issue.id),
    rw (stopped issue.id o y)
        (Registered-insert issue.id o.next_id o.retry_timers o.armed y.registered),
  );
  injective = insert-injective issue.id o y;
  below = insert-below issue.id o y;
  attempts = λ j. ground (
    arith,
    has_key-insert issue.id j attempt o.retry_attempts,
    has_key-insert issue.id j o.next_id o.retry_timers,
    y.attempts j,
  );
  entries = λ j.
      let due_at = add_delay now (retry_delay (some o.config) reason attempt) in
      let entry = retry_entry due_at issue attempt err in
      has_by-put_by retry_key (λ _. entry) entry j o.retrying (λ _. refl)
      ∙ ground (arith, has_key-insert issue.id j o.next_id o.retry_timers, y.entries j);
}

scheduled_armed :
    (now : ℕ) (issue : Issue) (attempt : ℕ) (reason : RetryReason) (err : Option Text)
    (o : Orchestrator) (j : Text)
    → Synced o
    → has_by timer_key j (schedule_retry now issue attempt reason err o).armed
      ≡ (text_eq issue.id j || has_by timer_key j o.armed)
unfolding schedule_retry has_by
scheduled_armed now issue attempt reason err o j y =
    rw (stopped issue.id o y) (ground (arith, has_by-drop_by timer_key issue.id j o.armed))

-- A scheduled retry backs the claim of its issue.
pub schedule_retry-Sound :
    (now : ℕ) (issue : Issue) (attempt : ℕ) (reason : RetryReason) (err : Option Text)
    (o : Orchestrator)
    → SoundBut issue.id o
    → Sound (schedule_retry now issue attempt reason err o)
unfolding schedule_retry
schedule_retry-Sound now issue attempt reason err o s = record {
  synced = schedule_retry-Synced now issue attempt reason err o s.synced;
  armed = λ j.
      scheduled_armed now issue attempt reason err o j s.synced
      ∙ ground (
        arith,
        has_key-insert issue.id j o.next_id o.retry_timers,
        s.armed j,
        text_eq_iff issue.id j,
      );
  backed = λ j c.
      rw (scheduled_armed now issue attempt reason err o j s.synced)
        (ground (arith, s.backed j, text_eq_iff issue.id j));
}

drop_retry-Synced : (id : Text) (o : Orchestrator) → Synced o → Synced (drop_retry id o)
unfolding drop_retry
drop_retry-Synced id o y = record {
  registered = rw (stopped id o y) (Registered-delete id o.retry_timers o.armed y.registered);
  injective = delete-injective id o y;
  below = delete-below id o y;
  attempts = λ j. ground (
    arith,
    has_key-delete id j o.retry_attempts,
    has_key-delete id j o.retry_timers,
    y.attempts j,
  );
  entries = λ j. ground (
    arith,
    has_by-drop_by retry_key id j o.retrying,
    has_key-delete id j o.retry_timers,
    y.entries j,
  );
}

dropped_armed :
    (id : Text) (o : Orchestrator) (j : Text)
    → Synced o
    → has_by timer_key j (drop_retry id o).armed
      ≡ (not (text_eq id j) && has_by timer_key j o.armed)
unfolding drop_retry
dropped_armed id o j y = rw (stopped id o y) (has_by-drop_by timer_key id j o.armed)

drop_retry-Armed :
    (id : Text) (o : Orchestrator) (j : Text) → SoundBut id o → Armed (drop_retry id o) j
unfolding drop_retry
drop_retry-Armed id o j s =
    dropped_armed id o j s.synced
    ∙ ground (arith, has_key-delete id j o.retry_timers, s.armed j, text_eq_iff id j)

-- A retry that is given up takes the claim along.
pub release_dropped-Sound :
    (id : Text) (o : Orchestrator) → SoundBut id o → Sound (release_issue id (drop_retry id o))
unfolding release_issue drop_retry
release_dropped-Sound id o s =
    let y = drop_retry-Synced id o s.synced in
    record {
      synced = record {
        registered = y.registered;
        injective = y.injective;
        below = y.below;
        attempts = y.attempts;
        entries = y.entries;
      };
      armed = λ j. drop_retry-Armed id o j s;
      backed = λ j c.
          rw (dropped_armed id o j s.synced)
            (ground (arith, has_key-delete id j o.claimed, s.backed j, text_eq_iff id j));
    }

-- A released claim needs no backing.
pub release_issue-Sound :
    (id : Text) (o : Orchestrator)
    → Synced o
    → ((j : Text) → Armed o j)
    → ((j : Text) → id ≢ j → Backed o j)
    → Sound (release_issue id o)
unfolding release_issue
release_issue-Sound id o y a b = record {
  synced = record {
    registered = y.registered;
    injective = y.injective;
    below = y.below;
    attempts = y.attempts;
    entries = y.entries;
  };
  armed = a;
  backed = λ j c.
      b j (ground (arith, has_key-delete id j o.claimed, text_eq_iff id j))
        (ground (arith, has_key-delete id j o.claimed));
}

-- A dispatch backs the claim by its worker.
pub start_worker-Sound :
    (now : ℕ) (issue : Issue) (attempt : ℕ) (o : Orchestrator)
    → SoundBut issue.id o
    → Sound (start_worker now issue attempt o)
unfolding start_worker drop_retry set_running_stage has_by
start_worker-Sound now issue attempt o s =
    let y = drop_retry-Synced issue.id o s.synced in
    record {
      synced = record {
        registered = y.registered;
        injective = y.injective;
        below = λ j x e. omega (arith, y.below j x e);
        attempts = y.attempts;
        entries = y.entries;
      };
      armed = λ j. drop_retry-Armed issue.id o j s;
      backed = λ j c. rw (dropped_armed issue.id o j s.synced) (
          ground
            (arith, has_key-insert issue.id j true o.claimed, s.backed j, text_eq_iff issue.id j));
    }

-- `Sound` looks at the retry queue, the claims and the workers only.
pub Sound-same :
    (o p : Orchestrator)
    → p.retry_timers ≡ o.retry_timers
    → p.retry_attempts ≡ o.retry_attempts
    → p.retrying ≡ o.retrying
    → p.armed ≡ o.armed
    → p.next_id ≡ o.next_id
    → p.claimed ≡ o.claimed
    → p.workers ≡ o.workers
    → Sound o
    → Sound p
Sound-same o p t a r m n c w s = record {
  synced = record {
    registered = rw (t, m) s.synced.registered;
    injective = rw t s.synced.injective;
    below = rw (t, n) s.synced.below;
    attempts = rw (t, a) s.synced.attempts;
    entries = rw (t, r) s.synced.entries;
  };
  armed = rw (t, m) s.armed;
  backed = rw (c, w, m) s.backed;
}
