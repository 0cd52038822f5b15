-- ===== src/Flow/Turns/Finished.antt =====
-- When a session reports the outcome done: internal/service/issueflow/agent_session.go. The
-- orchestrator removes the workspace of such an issue.
use symphony_go.Prelude.{
  ℕ, zero, suc, ◌+◌, ◌≤◌, ◌<◌, leb, ◌≡◌, ◌≢◌, refl, subst, ◌&&◌, ◌||◌, not, true, false, if_case,
  text_eq, ◌⊎◌, inl, inr, Option, none, some, List, [], ◌∷◌,
}
use symphony_go.Domain.{Issue}
use symphony_go.Eligibility.{state_name_in}
use symphony_go.Outcomes.{Outcome, RunError, done, retry_continuation}
use symphony_go.Flow.{
  Ending, state_ai_review, state_pushing, state_done, in_state, state_write_extension_enabled,
  max_turns, review_state_passes, merging_state_passes, pushing_state_passes, decide_by_state,
  decide_after_turn, is_active, waits_for_human_review,
}
use symphony_go.Flow.Turns.{
  StateWrite, Setting, Turn, Session, AfterTurn, halt, proceed, SessionEnd, new_session,
  upsert_session_record, apply_pass, apply_review_pass, apply_push_pass, apply_merge_pass, end_with,
  go_on, review_applied, final_applied, if_enabled, after_passes, after_decision, after_fetch,
  after_turn, follow, after_await, after_start, run_turns, run_session,
}
use symphony_go.Flow.Turns.Sessions.{run_session-EndsWithin}

-- The last write moved the issue to Done, and succeeded.
abbrev pub WroteDone : Session → Type 0
WroteDone s =
    (w : StateWrite) × (rest : List StateWrite) × (s.writes ≡ w ∷ rest)
    × (w.to_state ≡ state_done)
    × (w.err ≡ none)

module _ (setting : Setting) (turns : ℕ → Turn) where
  -- The tracker gave the issue in a terminal state after some turn.
  abbrev pub SawTerminal : Type 0
  SawTerminal =
      (n : ℕ) × (state_name_in (turns n).refreshed.state setting.config.tracker.terminal_states
        ≡ true)

  -- Where the outcome is done, the issue is.
  abbrev pub Settled : Session → Type 0
  Settled s = (s.attempt_outcome ≢ done) ⊎ (SawTerminal ⊎ WroteDone s)

  abbrev Pending : Session → Type 0
  Pending s = s.attempt_outcome ≡ retry_continuation

  abbrev Fine : Session × AfterTurn → Type 0
  Fine (s, halt err) = Settled s
  Fine (s, proceed prompt issue) = Pending s

  settled_by :
      (outcome : Outcome)
      → outcome ≢ done
      → (err : Option RunError) (s : Session) → Fine (end_with outcome err s)
  unfolding end_with
  settled_by outcome other err s = inl other

  if_enabled-Fine :
      (s : Session) (next : Session × AfterTurn)
      → Fine next
      → Fine (if_enabled setting.config s next)
  unfolding if_enabled
  if_enabled-Fine s next fine =
      if_case Fine (state_write_extension_enabled setting.config) (λ _. fine)
        (λ _. settled_by _ (λ h. cc) none s)

  review-Fine :
      (count : ℕ) (err : Option RunError) (s : Session)
      → Pending s
      → Fine (review_applied count err (apply_review_pass err s))
  unfolding review_applied apply_review_pass apply_pass go_on end_with
  review-Fine count none s pending = pending
  review-Fine count (some err) s pending = inl (λ h. cc)

  push-Fine :
      (err : Option RunError) (s : Session) → Fine (final_applied err (apply_push_pass err s))
  unfolding final_applied apply_push_pass apply_pass end_with
  push-Fine none s = inr (inr (_, _, refl, refl, refl))
  push-Fine (some err) s = inl (λ h. cc)

  merge-Fine :
      (err : Option RunError) (s : Session) → Fine (final_applied err (apply_merge_pass err s))
  unfolding final_applied apply_merge_pass apply_pass end_with
  merge-Fine none s = inr (inr (_, _, refl, refl, refl))
  merge-Fine (some err) s = inl (λ h. cc)

  after_passes-Fine :
      (start : Issue) (turn : Turn) (count : ℕ) (s : Session)
      → Pending s
      → Fine (after_passes setting.config start turn count s)
  unfolding after_passes go_on
  after_passes-Fine start turn count s pending =
      if_case Fine (review_state_passes s.current_issue s.last_agent_message)
        (λ _. if_enabled-Fine s _ (review-Fine count turn.update_error s pending))
        (λ _.
          if_case Fine
            (in_state start state_pushing
              && pushing_state_passes s.current_issue s.last_agent_message)
            (λ _. if_enabled-Fine s _ (push-Fine turn.update_error s))
            (λ _.
              if_case Fine (merging_state_passes s.current_issue s.last_agent_message)
                (λ _. if_enabled-Fine s _ (merge-Fine turn.update_error s))
                (λ _.
                  if_case Fine (leb (max_turns setting.config) count)
                    (λ _. settled_by _ (λ h. cc) none s) (λ _. pending))))

  -- A decision on the state after a turn is done for a terminal state only.
  abbrev Decided : Option Ending → Type 0
  Decided none = Unit
  Decided (some e) = (e.outcome ≢ done) ⊎ SawTerminal

  decide_after_turn-Decided :
      (n : ℕ) (err : Option RunError)
      → Decided (decide_after_turn setting.config err (turns n).refreshed)
  unfolding decide_after_turn decide_by_state
  decide_after_turn-Decided n (some err) = inl (λ h. cc)
  decide_after_turn-Decided n none =
      let issue = (turns n).refreshed in
      if_case Decided (state_name_in issue.state setting.config.tracker.terminal_states)
        (λ terminal. inr (n, terminal))
        (λ _.
          if_case Decided (waits_for_human_review issue) (λ _. inl (λ h. cc))
            (λ _.
              if_case Decided (not (is_active issue.state setting.config.tracker.active_states))
                (λ _. inl (λ h. cc)) (λ _. tt)))

  after_decision-Fine :
      (start : Issue) (turn : Turn) (count : ℕ) (s : Session) (decision : Option Ending)
      → Pending s
      → Decided decision
      → Fine (after_decision setting.config start turn count s decision)
  unfolding after_decision end_with
  after_decision-Fine start turn count s none pending decided =
      after_passes-Fine start turn count s pending
  after_decision-Fine start turn count s (some e) pending (inl other) = inl other
  after_decision-Fine start turn count s (some e) pending (inr terminal) = inr (inl terminal)

  upsert_session_record-Pending :
      (turn : Turn) (s : Session) → Pending s → Pending (upsert_session_record setting turn s)
  unfolding upsert_session_record
  upsert_session_record-Pending turn s pending =
      if_case Pending (not setting.has_sessions || text_eq setting.thread_id []) (λ _. pending)
        (λ _. pending)

  after_fetch-Fine :
      (n count : ℕ) (s : Session) (err : Option RunError)
      → Pending s
      → Fine (after_fetch setting (turns n) count s err)
  unfolding after_fetch
  after_fetch-Fine n count s (some err) pending = settled_by _ (λ h. cc) (some err) s
  after_fetch-Fine n count s none pending =
      after_decision-Fine s.current_issue (turns n) count _ _
        (upsert_session_record-Pending (turns n) (record s { current_issue = (turns n).refreshed })
          pending)
        (decide_after_turn-Decided n (turns n).context_error)

  abbrev EndSettled : Option SessionEnd → Type 0
  EndSettled none = Unit
  EndSettled (some e) = Settled e.session

  Pending-Settled : (s : Session) → Pending s → Settled s
  Pending-Settled s pending = inl (λ h. cc)

  follow-Settled :
      (count : ℕ) (next : Session × AfterTurn) (rest : Session → Option SessionEnd)
      → Fine next
      → ((s : Session) → Pending s → EndSettled (rest s))
      → EndSettled (follow count next rest)
  unfolding follow
  follow-Settled count (s, halt err) rest fine later = fine
  follow-Settled count (s, proceed prompt issue) rest fine later = later s fine

  after_await-Settled :
      (n count : ℕ) (s : Session) (err : Option RunError) (rest : Session → Option SessionEnd)
      → Pending s
      → ((t : Session) → Pending t → EndSettled (rest t))
      → EndSettled (after_await setting (turns n) count s err rest)
  unfolding after_await after_turn
  after_await-Settled n count s (some err) rest pending later = Pending-Settled s pending
  after_await-Settled n count s none rest pending later =
      follow-Settled count _ rest (after_fetch-Fine n count s (turns n).fetch_error pending) later

  after_start-Settled :
      (n before : ℕ) (s : Session) (err : Option RunError) (rest : Session → Option SessionEnd)
      → Pending s
      → ((t : Session) → Pending t → EndSettled (rest t))
      → EndSettled (after_start setting (turns n) before s err rest)
  unfolding after_start
  after_start-Settled n before s (some err) rest pending later = Pending-Settled s pending
  after_start-Settled n before s none rest pending later =
      after_await-Settled n (before + 1) _ (turns n).await_error rest pending later

  run_turns-Settled :
      (fuel before : ℕ) (s : Session)
      → Pending s
      → EndSettled (run_turns setting turns fuel before s)
  unfolding run_turns
  run_turns-Settled zero before s pending = tt
  run_turns-Settled (suc fuel) before s pending =
      after_start-Settled before before s (turns before).start_error _ pending
        (λ t kept. run_turns-Settled fuel (before + 1) t kept)

  run_session-EndSettled :
      (fuel : ℕ) (issue : Issue) (err : Option RunError)
      → EndSettled (run_session setting turns fuel issue err)
  unfolding run_session new_session
  run_session-EndSettled fuel issue none = run_turns-Settled fuel 0 (new_session issue) refl
  run_session-EndSettled fuel issue (some err) = Pending-Settled (new_session issue) refl

-- Take any turn from number max_turns on, of index `last`, after which the tracker gives the issue in
-- a state other than AI Review. With fuel for the turns up to it the session ends, and if its outcome
-- is done, then the tracker gave the issue in a terminal state after some turn, or the last state
-- that the session wrote is Done, written without an error.
pub run_session-Settled :
    (setting : Setting) (turns : ℕ → Turn) (last fuel : ℕ) (issue : Issue) (err : Option RunError)
    → max_turns setting.config ≤ last + 1
    → in_state (turns last).refreshed state_ai_review ≡ false
    → last < fuel
    → (e : SessionEnd) × (run_session setting turns fuel issue err ≡ some e)
      × Settled setting turns e.session
run_session-Settled setting turns last fuel issue err late quiet enough =
    let (e, same, few) =
      run_session-EndsWithin setting turns last fuel issue err late quiet enough in
    (
      e,
      same,
      subst (EndSettled setting turns) same (run_session-EndSettled setting turns fuel issue err),
    )
