-- ===== src/Flow/Trunk/Effects.antt =====
-- What a run of an issue does outside: internal/service/issueflow/flow.go and agent_session.go.
use symphony_go.Prelude.{
  ℕ, any, subst, equal_fold, trim_space, ◌+◌, ◌≤◌, ◌<◌, ◌≡◌, refl, sym, true, false, ◌||◌, not,
  Text, text_eq, text_eq→eq, if_case, Option, none, some, List, [], ◌∷◌, All, All-append, ◌⊎◌, inl,
  inr, arith,
}
use symphony_go.Domain.{Issue}
use symphony_go.Eligibility.{state_name_in}
use symphony_go.Outcomes.{RunError}
use symphony_go.Flow.{
  state_todo, state_in_progress, state_rework, state_ai_review, in_state, max_turns, is_active,
  waits_for_human_review, waits_if_blocked,
}
use symphony_go.Flow.Turns.{SessionRecord, SessionEnd}
use symphony_go.Flow.Turns.Writes.{Justified}
use symphony_go.Flow.Turns.Sessions.{run_session-Justified}
use symphony_go.Flow.Trunk.{
  CodexRun, Worker, FirstPrompt, rendered_prompt, Effect, promoted, ensured_workspace,
  ran_before_run, rendered_workflow, ran_session, deleted_record, ran_after_run, RunEnd, Runtime,
  setting_of, resumable, resume_thread_id_for_rework, first_prompt, run_codex_session_attempt,
  falls_back, ended_by, deletions, after_first_session, run_sessions, with_effects, after_render,
  after_before_run, after_ensure, run_worker_attempt, is_todo, promotion, run_promoted,
  promote_todo_to_in_progress, run_issue, run_issue_trunk,
}

-- The fuel covers a turn from number max_turns on after which the issue is not in AI Review.
abbrev pub Quiet : Runtime → CodexRun → Type 0
Quiet rt run =
    (last : ℕ) × (max_turns rt.config ≤ last + 1)
    × (in_state (run.turns last).refreshed state_ai_review ≡ false)
    × (last < rt.fuel)

-- An issue in Rework whose stored record names this thread and this workspace.
abbrev pub Resumes : Runtime → Worker → Issue → Text → Type 0
Resumes rt w issue thread =
    (rt.has_sessions ≡ true)
    × (in_state issue state_rework ≡ true)
    × (r : SessionRecord) × (w.stored ≡ some r)
    × (r.thread_id ≡ thread)
    × (r.workspace_path ≡ w.workspace_path)

abbrev pub JustifiedSession : Runtime → Worker → SessionEnd → Type 0
JustifiedSession rt w e =
    (run : CodexRun) × ((run ≡ w.first_run) ⊎ (run ≡ w.second_run))
    × All (Justified (setting_of rt w.workspace_path run) run.turns) e.session.writes

-- A call that a run of the issue may make.
abbrev pub Allowed : Runtime → Worker → Issue → Effect → Type 0
Allowed rt w issue (promoted write) =
    (is_todo issue ≡ true)
    × (write.issue_id ≡ issue.id)
    × (write.from_state ≡ state_todo)
    × (write.to_state ≡ state_in_progress)
Allowed rt w issue (ran_session prompt thread e) =
    ((thread ≡ []) ⊎ Resumes rt w issue thread) × JustifiedSession rt w e
Allowed rt w issue ensured_workspace = Unit
Allowed rt w issue ran_before_run = Unit
Allowed rt w issue rendered_workflow = Unit
Allowed rt w issue deleted_record = Unit
Allowed rt w issue ran_after_run = Unit

promoted_is_not_todo :
    (issue : Issue) → is_todo (record issue { state = state_in_progress }) ≡ true → ⊥
unfolding is_todo state_in_progress state_todo equal_fold trim_space
promoted_is_not_todo issue h = cc

in_progress_is_not_rework :
    (issue : Issue) → in_state (record issue { state = state_in_progress }) state_rework ≡ false
unfolding in_state state_in_progress state_rework equal_fold trim_space state_name_in any
in_progress_is_not_rework issue = refl

promoted_is_not_rework :
    (issue : Issue) → in_state (record issue { state = state_in_progress }) state_rework ≡ true → ⊥
promoted_is_not_rework issue h = ground (arith, in_progress_is_not_rework issue)

module _ (rt : Runtime) (w : Worker) (issue : Issue) where
  -- The run ends, and its calls are allowed.
  abbrev pub Sound : Option RunEnd → Type 0
  Sound run = (e : RunEnd) × (run ≡ some e) × All (Allowed rt w issue) e.effects

  abbrev SessionEnds : Option SessionEnd → Type 0
  SessionEnds run = (e : SessionEnd) × (run ≡ some e) × JustifiedSession rt w e

  attempt_ends :
      (run : CodexRun)
      → (run ≡ w.first_run) ⊎ (run ≡ w.second_run)
      → Quiet rt run
      → SessionEnds (run_codex_session_attempt rt issue w.workspace_path run)
  unfolding run_codex_session_attempt setting_of
  attempt_ends run which (last, late, quiet, enough) =
      let (e, same, few, writes) =
        run_session-Justified (setting_of rt w.workspace_path run) run.turns last rt.fuel issue
          run.start_error late quiet enough in
      (e, same, (run, which, writes))

  resumable-Resumes :
      (stored : Option SessionRecord)
      → rt.has_sessions ≡ true
      → in_state issue state_rework ≡ true
      → w.stored ≡ stored
      → (resumable w.workspace_path stored ≡ [])
        ⊎ Resumes rt w issue (resumable w.workspace_path stored)
  unfolding resumable
  resumable-Resumes none has rework same = inl refl
  resumable-Resumes (some r) has rework same =
      if_case (λ t. (t ≡ []) ⊎ Resumes rt w issue t) (text_eq r.thread_id []) (λ _. inl refl)
        (λ _.
          if_case (λ t. (t ≡ []) ⊎ Resumes rt w issue t)
            (not (text_eq r.workspace_path w.workspace_path)) (λ _. inl refl)
            (λ h. inr (
              has,
              rework,
              r,
              same,
              refl,
              text_eq→eq r.workspace_path w.workspace_path (ground arith),
            )))

  resume_thread-Resumes :
      (resume_thread_id_for_rework rt issue w ≡ [])
      ⊎ Resumes rt w issue (resume_thread_id_for_rework rt issue w)
  unfolding resume_thread_id_for_rework
  resume_thread-Resumes =
      if_case (λ t. (t ≡ []) ⊎ Resumes rt w issue t)
        (not rt.has_sessions || not (in_state issue state_rework)) (λ _. inl refl)
        (λ h. resumable-Resumes w.stored (ground arith) (ground arith) refl)

  ended_by-Sound :
      (before : List Effect) (prompt : FirstPrompt) (resume : Text) (run : Option SessionEnd)
      → All (Allowed rt w issue) before
      → (resume ≡ []) ⊎ Resumes rt w issue resume
      → SessionEnds run
      → Sound (ended_by before prompt resume run)
  unfolding ended_by
  ended_by-Sound before prompt resume run allowed ok (e, same, justified) =
      subst (λ o. Sound (ended_by before prompt resume o)) (sym same)
        (_, refl, All-append _ before _ allowed ((ok, justified), tt))

  deletions-Allowed : All (Allowed rt w issue) (deletions rt)
  unfolding deletions
  deletions-Allowed = if_case (All (Allowed rt w issue)) rt.has_sessions (λ _. (tt, tt)) (λ _. tt)

  after_first_session-Sound :
      (resume : Text) (run : Option SessionEnd)
      → (resume ≡ []) ⊎ Resumes rt w issue resume
      → SessionEnds run
      → Quiet rt w.second_run
      → Sound (after_first_session rt issue w resume run)
  unfolding after_first_session ended_by
  after_first_session-Sound resume run ok (e, same, justified) quiet =
      subst (λ o. Sound (after_first_session rt issue w resume o)) (sym same)
        (if_case Sound (falls_back resume w e)
          (λ _.
            ended_by-Sound (ran_session (first_prompt resume) resume e ∷ deletions rt)
              rendered_prompt [] _ ((ok, justified), deletions-Allowed) (inl refl)
              (attempt_ends w.second_run (inr refl) quiet))
          (λ _. ended_by-Sound [] (first_prompt resume) resume (some e) tt ok (e, refl, justified)))

  run_sessions-Sound :
      Quiet rt w.first_run → Quiet rt w.second_run → Sound (run_sessions rt issue w)
  unfolding run_sessions
  run_sessions-Sound first second =
      after_first_session-Sound _ _ resume_thread-Resumes
        (attempt_ends w.first_run (inl refl) first) second

  with_effects-Sound :
      (before after : List Effect) (run : Option RunEnd)
      → All (Allowed rt w issue) before
      → All (Allowed rt w issue) after
      → Sound run
      → Sound (with_effects before after run)
  unfolding with_effects
  with_effects-Sound before after run allowed also (e, same, sound) =
      subst (λ o. Sound (with_effects before after o)) (sym same)
        (_, refl, All-append _ before _ allowed (All-append _ e.effects after sound also))

  after_render-Sound :
      (err : Option RunError)
      → Quiet rt w.first_run
      → Quiet rt w.second_run
      → Sound (after_render rt issue w err)
  unfolding after_render
  after_render-Sound (some err) first second = (_, refl, tt)
  after_render-Sound none first second = run_sessions-Sound first second

  after_before_run-Sound :
      (err : Option RunError)
      → Quiet rt w.first_run
      → Quiet rt w.second_run
      → Sound (after_before_run rt issue w err)
  unfolding after_before_run
  after_before_run-Sound (some err) first second = (_, refl, tt)
  after_before_run-Sound none first second =
      with_effects-Sound (rendered_workflow ∷ []) [] _ (tt, tt) tt
        (after_render-Sound w.render_error first second)

  after_ensure-Sound :
      (err : Option RunError)
      → Quiet rt w.first_run
      → Quiet rt w.second_run
      → Sound (after_ensure rt issue w err)
  unfolding after_ensure
  after_ensure-Sound (some err) first second = (_, refl, (tt, tt))
  after_ensure-Sound none first second =
      with_effects-Sound (ensured_workspace ∷ ran_before_run ∷ []) (ran_after_run ∷ []) _
        (tt, (tt, tt)) (tt, tt) (after_before_run-Sound w.before_run_error first second)

  pub run_worker_attempt-Sound :
      Quiet rt w.first_run → Quiet rt w.second_run → Sound (run_worker_attempt rt issue w)
  unfolding run_worker_attempt
  run_worker_attempt-Sound first second = after_ensure-Sound w.ensure_error first second

  pub run_promoted-Sound :
      Quiet rt w.first_run → Quiet rt w.second_run → Sound (run_promoted rt issue w)
  unfolding run_promoted
  run_promoted-Sound first second =
      if_case Sound (waits_for_human_review issue) (λ _. (_, refl, tt))
        (λ _.
          if_case Sound (not (is_active issue.state rt.config.tracker.active_states))
            (λ _. (_, refl, tt)) (λ _. run_worker_attempt-Sound first second))

module _ (rt : Runtime) (w : Worker) (issue : Issue) where
  -- What is allowed for the promoted issue is allowed for the issue: it neither is in Todo nor resumes.
  from_promoted :
      (effect : Effect)
      → Allowed rt w (record issue { state = state_in_progress }) effect
      → Allowed rt w issue effect
  from_promoted (promoted write) (todo, named, from, to) = absurd (promoted_is_not_todo issue todo)
  from_promoted (ran_session prompt thread e) (inl fresh, justified) = (inl fresh, justified)
  from_promoted (ran_session prompt thread e)
        (inr (has, rework, r, same, thread_same, path_same), justified) =
      absurd (promoted_is_not_rework issue rework)
  from_promoted ensured_workspace h = tt
  from_promoted ran_before_run h = tt
  from_promoted rendered_workflow h = tt
  from_promoted deleted_record h = tt
  from_promoted ran_after_run h = tt

  All-from_promoted :
      (effects : List Effect)
      → All (Allowed rt w (record issue { state = state_in_progress })) effects
      → All (Allowed rt w issue) effects
  All-from_promoted [] h = tt
  All-from_promoted (x ∷ xs) (h, hs) = (from_promoted x h, All-from_promoted xs hs)

  promote-Sound :
      (err : Option RunError)
      → is_todo issue ≡ true
      → Quiet rt w.first_run
      → Quiet rt w.second_run
      → Sound rt w issue (promote_todo_to_in_progress rt issue w err)
  unfolding promote_todo_to_in_progress promotion
  promote-Sound (some err) todo first second = (_, refl, ((todo, refl, refl, refl), tt))
  promote-Sound none todo first second =
      let (e, same, sound) =
        run_promoted-Sound rt w (record issue { state = state_in_progress }) first second in
      with_effects-Sound rt w issue (promotion issue none ∷ []) [] _ ((todo, refl, refl, refl), tt)
        tt (e, same, All-from_promoted e.effects sound)

  -- Let the fuel cover, in both Codex sessions that an attempt may hold, some turn from number
  -- max_turns on after which the tracker gives the issue in a state other than AI Review. Then
  -- RunIssueTrunk ends, and of its calls: only an issue in Todo is promoted, to In Progress; a session
  -- resumes a thread only for an issue in Rework, and then the thread of its stored record, whose
  -- workspace is the current one; and every state that a session writes is one that the review
  -- policy `auto` and the words of the agent justify.
  pub run_issue_trunk-Sound :
      (context_error update_error : Option RunError)
      → Quiet rt w.first_run
      → Quiet rt w.second_run
      → Sound rt w issue (run_issue_trunk rt issue w context_error update_error)
  unfolding run_issue_trunk run_issue
  run_issue_trunk-Sound (some err) update_error first second = (_, refl, tt)
  run_issue_trunk-Sound none update_error first second =
      if_case (Sound rt w issue) (state_name_in issue.state rt.config.tracker.terminal_states)
        (λ _. (_, refl, tt))
        (λ _.
          if_case (Sound rt w issue) (waits_if_blocked issue) (λ _. (_, refl, tt))
            (λ _.
              if_case (Sound rt w issue) (is_todo issue)
                (λ todo. promote-Sound update_error todo first second)
                (λ _. run_promoted-Sound rt w issue first second)))
