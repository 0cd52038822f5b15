-- ===== src/Scenarios/Runs.antt =====
-- A reviewed issue that the agent passes and merges, under the review policy `auto`.
use symphony_go.Prelude.{
  ℕ, text_eq, trim_space, equal_fold, zero, suc, ◌+◌, ◌≤◌, ◌≡◌, refl, pos, true, false, Text, codes,
  any, none, some, [], ◌∷◌, All, arith,
}
use symphony_go.Domain.{Issue, Config}
use symphony_go.Eligibility.{state_name_in}
use symphony_go.Flow.{max_turns, in_state, state_ai_review}
use symphony_go.Flow.Turns.{Setting, Turn, SessionEnd, run_session}
use symphony_go.Flow.Turns.Writes.{Justified}
use symphony_go.Flow.Turns.Sessions.{run_session-Justified}
use symphony_go.Flow.Turns.Finished.{Settled, run_session-Settled}
use symphony_go.Flow.Trunk.{CodexRun, Worker, Runtime, RunEnd, run_issue_trunk, run_worker_attempt}
use symphony_go.Flow.Trunk.Effects.{Sound, Quiet, run_issue_trunk-Sound}
use symphony_go.Flow.Trunk.Hooks.{Bracketed, run_worker_attempt-hooks}
use symphony_go.Scenarios.{config, issue_named}

abbrev auto_config : Config
auto_config = record config {
  tracker = record {
    active_states = codes "AI Review" ∷ codes "Merging" ∷ [];
    terminal_states = codes "Done" ∷ [];
  };
  agent = record config.agent {
    max_turns = pos 2;
    review_policy = record { mode = codes "auto"; allow_manual_ai_review = false };
  };
}

abbrev issue_in : Text → Issue
issue_in state = record (issue_named (codes "SYM-1") none) { state = state }

abbrev said_in : Text → Text → Turn
said_in state message = record {
  start_error = none;
  turn_id = codes "turn";
  messages = message ∷ [];
  await_error = none;
  fetch_error = none;
  refreshed = issue_in state;
  context_error = none;
  update_error = none;
  completed_at = 7;
}

abbrev turns : ℕ → Turn
turns zero = said_in (codes "AI Review") (codes "Review: PASS, well done")
turns (suc n) = said_in (codes "Merging") (codes "Merge: PASS")

abbrev codex : CodexRun
codex = record { start_error = none; thread_id = codes "thread"; worker_host = []; turns = turns }

abbrev setting : Setting
setting = record {
  config = auto_config;
  has_sessions = true;
  workspace_path = codes "/work/SYM-1";
  thread_id = codes "thread";
  worker_host = [];
}

abbrev runtime : Runtime
runtime = record { config = auto_config; has_sessions = true; fuel = 2 }

abbrev worker : Worker
worker = record {
  ensure_error = none;
  workspace_path = codes "/work/SYM-1";
  before_run_error = none;
  render_error = none;
  stored = none;
  context_error = none;
  first_run = codex;
  second_run = codex;
}

late : max_turns auto_config ≤ 1 + 1
unfolding max_turns
late = omega arith

quiet : in_state (turns 1).refreshed state_ai_review ≡ false
unfolding in_state state_name_in any state_ai_review text_eq trim_space equal_fold
quiet = refl

covered : Quiet runtime codex
covered = (1, late, quiet, omega arith)

run_session-Justified_example :
    (e : SessionEnd) × (run_session setting turns 2 (issue_in (codes "AI Review")) none ≡ some e)
    × (e.turns ≤ 1 + 1)
    × All (Justified setting turns) e.session.writes
run_session-Justified_example =
    run_session-Justified setting turns 1 2 (issue_in (codes "AI Review")) none late quiet
      (omega arith)

run_issue_trunk-Sound_example :
    Sound runtime worker
      (issue_in (codes "AI Review"))
      (run_issue_trunk runtime (issue_in (codes "AI Review")) worker none none)
run_issue_trunk-Sound_example =
    run_issue_trunk-Sound runtime worker (issue_in (codes "AI Review")) none none covered covered

run_worker_attempt-hooks_example :
    (e : RunEnd) × (run_worker_attempt runtime (issue_in (codes "AI Review")) worker ≡ some e)
    × Bracketed none e.effects
run_worker_attempt-hooks_example =
    run_worker_attempt-hooks runtime (issue_in (codes "AI Review")) worker covered covered

run_session-Settled_example :
    (e : SessionEnd) × (run_session setting turns 2 (issue_in (codes "AI Review")) none ≡ some e)
    × Settled setting turns e.session
run_session-Settled_example =
    run_session-Settled setting turns 1 2 (issue_in (codes "AI Review")) none late quiet
      (omega arith)
