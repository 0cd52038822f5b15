-- ===== src/Flow/Turns/Sessions.antt =====
-- A whole session of internal/service/issueflow/agent_session.go: it ends, and its writes are
-- justified.
use symphony_go.Prelude.{
  ℕ, ◌+◌, ◌≤◌, ◌<◌, ◌≡◌, refl, subst, false, Option, none, some, All, inl, arith,
}
use symphony_go.Domain.{Issue}
use symphony_go.Outcomes.{RunError}
use symphony_go.Flow.{state_ai_review, in_state, max_turns}
use symphony_go.Flow.Turns.{Setting, Turn, SessionEnd, new_session, run_session}
use symphony_go.Flow.Turns.Writes.{Justified}
use symphony_go.Flow.Turns.Writes.Loop.{Always, GoodEnd, run_turns-Good}
use symphony_go.Flow.Turns.Ends.{EndsWithin, run_turns-EndsWithin}

-- Whatever the answers are, a session that ends has made justified writes only.
pub run_session-Good :
    (setting : Setting) (turns : ℕ → Turn) (fuel : ℕ) (issue : Issue) (err : Option RunError)
    → Always setting turns (GoodEnd setting turns) (run_session setting turns fuel issue err)
unfolding run_session new_session
run_session-Good setting turns fuel issue none =
    run_turns-Good setting turns fuel 0 (new_session issue) (tt, inl refl)
run_session-Good setting turns fuel issue (some err) = (tt, inl refl)

pub run_session-EndsWithin :
    (setting : Setting) (turns : ℕ → Turn) (last fuel : ℕ) (issue : Issue) (err : Option RunError)
    → max_turns setting.config ≤ last + 1
    → in_state (turns last).refreshed state_ai_review ≡ false
    → last < fuel
    → EndsWithin (last + 1) (run_session setting turns fuel issue err)
unfolding run_session
run_session-EndsWithin setting turns last fuel issue none late quiet enough =
    run_turns-EndsWithin setting turns last fuel 0 (new_session issue) late quiet (omega arith)
      (omega arith)
run_session-EndsWithin setting turns last fuel issue (some err) late quiet enough =
    (_, refl, omega arith)

-- Take any turn from number max_turns on, of index `last`, after which the tracker gives the issue in
-- a state other than AI Review. With fuel for the turns up to it the session ends, after at most
-- these turns. Every state it wrote to the tracker, or tried to, it wrote under the review policy
-- `auto`, to an issue as the tracker gave it after some turn, and only so: AI Review to Merging,
-- Pushing to Done or Merging to Done, where an agent message of the session starts with the words
-- for that pass.
pub run_session-Justified :
    (setting : Setting) (turns : ℕ → Turn) (last fuel : ℕ) (issue : Issue) (err : Option RunError)
    → max_turns setting.config ≤ last + 1
    → in_state (turns last).refreshed state_ai_review ≡ false
    → last < fuel
    → (e : SessionEnd) × (run_session setting turns fuel issue err ≡ some e)
      × (e.turns ≤ last + 1)
      × All (Justified setting turns) e.session.writes
run_session-Justified setting turns last fuel issue err late quiet enough =
    let (e, same, few) =
      run_session-EndsWithin setting turns last fuel issue err late quiet enough in
    let good =
      subst (Always setting turns (GoodEnd setting turns)) same
        (run_session-Good setting turns fuel issue err) in
    (e, same, few, good.0)
