-- ===== src/Flow/Turns/Ends.antt =====
-- When the loop of RunSession in internal/service/codex/runner.go ends under the AfterTurn of
-- internal/service/issueflow/agent_session.go: `max_turns` bounds it, but for passed reviews.
use symphony_go.Prelude.{
  ℕ, zero, suc, ◌+◌, ◌≤◌, ◌<◌, leb, ltb, ◌≡◌, refl, sym, subst, true, false, ◌&&◌, if_case,
  Bool-cases, ◌⊎◌, inl, inr, Option, none, some, arith, Text,
}
use symphony_go.Domain.{Config, Issue}
use symphony_go.Outcomes.{RunError}
use symphony_go.Flow.{
  Ending, state_ai_review, state_pushing, in_state, state_write_extension_enabled, max_turns,
  review_state_passes, merging_state_passes, pushing_state_passes,
}
use symphony_go.Flow.Turns.{
  Setting, Turn, Session, AfterTurn, halt, proceed, SessionEnd, upsert_session_record, end_with,
  final_applied, if_enabled, after_passes, after_decision, after_fetch, after_turn, follow,
  after_await, after_start, run_turns,
}

abbrev Halts : Session × AfterTurn → Type 0
Halts (s, halt err) = Unit
Halts (s, proceed prompt issue) = ⊥

not_review :
    (issue : Issue) (message : Text)
    → in_state issue state_ai_review ≡ false
    → review_state_passes issue message ≡ true
    → ⊥
unfolding review_state_passes
not_review issue message quiet h = ground arith

final_applied-Halts : (err : Option RunError) (s : Session) → Halts (final_applied err s)
unfolding final_applied end_with
final_applied-Halts none s = tt
final_applied-Halts (some err) s = tt

if_enabled-Halts :
    (c : Config) (s : Session) (next : Session × AfterTurn)
    → Halts next
    → Halts (if_enabled c s next)
unfolding if_enabled end_with
if_enabled-Halts c s next h = if_case Halts (state_write_extension_enabled c) (λ _. h) (λ _. tt)

-- Past the limit only a passed review goes on.
after_passes-Halts :
    (c : Config) (start : Issue) (turn : Turn) (count : ℕ) (s : Session)
    → max_turns c ≤ count
    → in_state s.current_issue state_ai_review ≡ false
    → Halts (after_passes c start turn count s)
unfolding after_passes end_with
after_passes-Halts c start turn count s late quiet =
    if_case Halts (review_state_passes s.current_issue s.last_agent_message)
      (λ h. absurd (not_review s.current_issue s.last_agent_message quiet h))
      (λ _.
        if_case Halts
          (in_state start state_pushing
            && pushing_state_passes s.current_issue s.last_agent_message)
          (λ _. if_enabled-Halts c s _ (final_applied-Halts turn.update_error _))
          (λ _.
            if_case Halts (merging_state_passes s.current_issue s.last_agent_message)
              (λ _. if_enabled-Halts c s _ (final_applied-Halts turn.update_error _))
              (λ _.
                if_case Halts (leb (max_turns c) count) (λ _. tt)
                  (λ early. let wrong : true ≡ false = ground arith in cc))))

upsert_session_record-issue :
    (setting : Setting) (turn : Turn) (s : Session)
    → (upsert_session_record setting turn s).current_issue ≡ s.current_issue
unfolding upsert_session_record
upsert_session_record-issue setting turn s = ground arith

after_decision-Halts :
    (c : Config) (start : Issue) (turn : Turn) (count : ℕ) (s : Session) (decision : Option Ending)
    → max_turns c ≤ count
    → in_state s.current_issue state_ai_review ≡ false
    → Halts (after_decision c start turn count s decision)
unfolding after_decision end_with
after_decision-Halts c start turn count s none late quiet =
    after_passes-Halts c start turn count s late quiet
after_decision-Halts c start turn count s (some e) late quiet = tt

after_fetch-Halts :
    (setting : Setting) (turn : Turn) (count : ℕ) (s : Session) (err : Option RunError)
    → max_turns setting.config ≤ count
    → in_state turn.refreshed state_ai_review ≡ false
    → Halts (after_fetch setting turn count s err)
unfolding after_fetch end_with
after_fetch-Halts setting turn count s (some err) late quiet = tt
after_fetch-Halts setting turn count s none late quiet =
    after_decision-Halts setting.config s.current_issue turn count _ _ late (
      subst (λ i. in_state i state_ai_review ≡ false)
        (sym
          (upsert_session_record-issue setting turn (record s { current_issue = turn.refreshed })))
        quiet)

-- A session ends after at most so many turns.
abbrev pub EndsWithin : ℕ → Option SessionEnd → Type 0
EndsWithin bound run = (e : SessionEnd) × (run ≡ some e) × (e.turns ≤ bound)

module _ (bound : ℕ) where
  follow-EndsWithin :
      (count : ℕ) (next : Session × AfterTurn) (rest : Session → Option SessionEnd)
      → count ≤ bound
      → Halts next ⊎ ((s : Session) → EndsWithin bound (rest s))
      → EndsWithin bound (follow count next rest)
  unfolding follow
  follow-EndsWithin count (s, halt err) rest fits later = (_, refl, fits)
  follow-EndsWithin count (s, proceed prompt issue) rest fits (inl never) = absurd never
  follow-EndsWithin count (s, proceed prompt issue) rest fits (inr later) = later s

  after_await-EndsWithin :
      (setting : Setting) (turn : Turn) (count : ℕ) (s : Session) (err : Option RunError)
      (rest : Session → Option SessionEnd)
      → count ≤ bound
      → ((t : Session) → Halts (after_turn setting turn count t))
        ⊎ ((t : Session) → EndsWithin bound (rest t))
      → EndsWithin bound (after_await setting turn count s err rest)
  unfolding after_await
  after_await-EndsWithin setting turn count s (some err) rest fits later = (_, refl, fits)
  after_await-EndsWithin setting turn count s none rest fits (inl stops) =
      follow-EndsWithin count _ rest fits (inl (stops s))
  after_await-EndsWithin setting turn count s none rest fits (inr later) =
      follow-EndsWithin count _ rest fits (inr later)

  after_start-EndsWithin :
      (setting : Setting) (turn : Turn) (before : ℕ) (s : Session) (err : Option RunError)
      (rest : Session → Option SessionEnd)
      → before + 1 ≤ bound
      → ((t : Session) → Halts (after_turn setting turn (before + 1) t))
        ⊎ ((t : Session) → EndsWithin bound (rest t))
      → EndsWithin bound (after_start setting turn before s err rest)
  unfolding after_start
  after_start-EndsWithin setting turn before s (some err) rest fits later = (_, refl, omega arith)
  after_start-EndsWithin setting turn before s none rest fits later =
      after_await-EndsWithin setting turn (before + 1) _ turn.await_error rest fits later

after_turn-Halts :
    (setting : Setting) (turns : ℕ → Turn) (last before : ℕ)
    → max_turns setting.config ≤ last + 1
    → in_state (turns last).refreshed state_ai_review ≡ false
    → before ≡ last
    → (t : Session) → Halts (after_turn setting (turns before) (before + 1) t)
unfolding after_turn
after_turn-Halts setting turns last before late quiet at t =
    after_fetch-Halts setting (turns before) (before + 1) t (turns before).fetch_error (omega arith)
      (subst (λ n. in_state (turns n).refreshed state_ai_review ≡ false) (sym at) quiet)

pub run_turns-EndsWithin :
    (setting : Setting) (turns : ℕ → Turn) (last fuel before : ℕ) (s : Session)
    → max_turns setting.config ≤ last + 1
    → in_state (turns last).refreshed state_ai_review ≡ false
    → before ≤ last
    → last < before + fuel
    → EndsWithin (last + 1) (run_turns setting turns fuel before s)
unfolding run_turns
run_turns-EndsWithin setting turns last zero before s late quiet reached enough =
    absurd (omega arith)
run_turns-EndsWithin setting turns last (suc fuel) before s late quiet reached enough =
    after_start-EndsWithin (last + 1) setting (turns before) before s (turns before).start_error _
      (omega arith)
      (elim (Bool-cases (ltb before last)) [
        | inl early ↦ inr (λ t.
            run_turns-EndsWithin setting turns last fuel (before + 1) t late quiet (ground arith)
              (omega arith))
        | inr here ↦ inl (after_turn-Halts setting turns last before late quiet (ground arith))
      ])
