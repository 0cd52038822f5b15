-- ===== src/Flow/Turns/Writes/Loop.antt =====
-- The loop of RunSession over the turns: what each of them keeps, a session keeps.
use symphony_go.Prelude.{
  ℕ, if_case, ◌+◌, text_eq, not, ◌||◌, refl, Option, none, some, [], zero, suc,
}
use symphony_go.Domain.{Issue}
use symphony_go.Outcomes.{RunError}
use symphony_go.Flow.{Ending}
use symphony_go.Flow.Turns.{
  Setting, Turn, Session, AfterTurn, halt, proceed, SessionEnd, upsert_session_record, end_with,
  after_decision, after_fetch, after_turn, follow, after_await, after_start, run_turns,
}
use symphony_go.Flow.Turns.Writes.{Good, Seen, after_passes-Good, hear-Heard}

module _ (setting : Setting) (turns : ℕ → Turn) where
  module _ (n : ℕ) where
    upsert_session_record-same :
        (s : Session)
        → Seen setting turns n s
        → Seen setting turns n (upsert_session_record setting (turns n) s)
    unfolding upsert_session_record
    upsert_session_record-same s seen =
        if_case (Seen setting turns n) (not setting.has_sessions || text_eq setting.thread_id [])
          (λ _. seen) (λ _. seen)

    after_decision-Good :
        (start : Issue) (count : ℕ) (s : Session) (decision : Option Ending)
        → Seen setting turns n s
        → Good setting turns (after_decision setting.config start (turns n) count s decision).0
    unfolding after_decision end_with
    after_decision-Good start count s none seen =
        after_passes-Good setting turns n start count s seen
    after_decision-Good start count s (some e) seen = seen.1

    after_fetch-Good :
        (count : ℕ) (s : Session) (err : Option RunError)
        → Good setting turns s
        → Good setting turns (after_fetch setting (turns n) count s err).0
    unfolding after_fetch end_with
    after_fetch-Good count s (some err) good = good
    after_fetch-Good count s none good =
        after_decision-Good s.current_issue count _ _ (
          upsert_session_record-same (record s { current_issue = (turns n).refreshed })
            (refl, good))

  -- Every end of a session satisfies it.
  abbrev pub Always : (SessionEnd → Type 0) → Option SessionEnd → Type 0
  Always P none = Unit
  Always P (some e) = P e

  abbrev pub GoodEnd : SessionEnd → Type 0
  GoodEnd e = Good setting turns e.session

  follow-Good :
      (count : ℕ) (next : Session × AfterTurn) (rest : Session → Option SessionEnd)
      → Good setting turns next.0
      → ((s : Session) → Good setting turns s → Always GoodEnd (rest s))
      → Always GoodEnd (follow count next rest)
  unfolding follow
  follow-Good count (s, halt err) rest good later = good
  follow-Good count (s, proceed prompt issue) rest good later = later s good

  after_await-Good :
      (n count : ℕ) (s : Session) (err : Option RunError) (rest : Session → Option SessionEnd)
      → Good setting turns s
      → ((t : Session) → Good setting turns t → Always GoodEnd (rest t))
      → Always GoodEnd (after_await setting (turns n) count s err rest)
  unfolding after_await after_turn
  after_await-Good n count s (some err) rest good later = good
  after_await-Good n count s none rest good later =
      follow-Good count _ rest (after_fetch-Good n count s (turns n).fetch_error good) later

  after_start-Good :
      (n before : ℕ) (s : Session) (err : Option RunError) (rest : Session → Option SessionEnd)
      → Good setting turns s
      → ((t : Session) → Good setting turns t → Always GoodEnd (rest t))
      → Always GoodEnd (after_start setting (turns n) before s err rest)
  unfolding after_start
  after_start-Good n before s (some err) rest good later = good
  after_start-Good n before s none rest (writes, heard) later =
      after_await-Good n (before + 1) _ (turns n).await_error rest
        (
          writes,
          hear-Heard setting turns n (turns n).messages s.last_agent_message (λ t m. (n, m)) heard,
        )
        later

  pub run_turns-Good :
      (fuel before : ℕ) (s : Session)
      → Good setting turns s
      → Always GoodEnd (run_turns setting turns fuel before s)
  unfolding run_turns
  run_turns-Good zero before s good = tt
  run_turns-Good (suc fuel) before s good =
      after_start-Good before before s (turns before).start_error _ good
        (λ t kept. run_turns-Good fuel (before + 1) t kept)
