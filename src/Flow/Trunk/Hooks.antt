-- ===== src/Flow/Trunk/Hooks.antt =====
-- The order of the workspace hooks in runWorkerAttempt of internal/service/issueflow/agent_session.go.
use symphony_go.Prelude.{
  if_case, ◌≡◌, refl, subst, Text, Option, none, some, List, [], ◌∷◌, ◌++◌, All, All-append,
}
use symphony_go.Domain.{Issue}
use symphony_go.Outcomes.{RunError}
use symphony_go.Flow.Turns.{SessionEnd}
use symphony_go.Flow.Trunk.{
  Worker, FirstPrompt, rendered_prompt, Effect, promoted, ensured_workspace, ran_before_run,
  rendered_workflow, ran_session, deleted_record, ran_after_run, RunEnd, Runtime, first_prompt,
  falls_back, ended_by, deletions, after_first_session, run_sessions, with_effects, after_render,
  after_before_run, after_ensure, run_worker_attempt,
}
use symphony_go.Flow.Trunk.Effects.{Quiet, run_worker_attempt-Sound}

-- A call between the two hooks: the rendering, a session, or the deletion of a record.
abbrev pub Inner : Effect → Type 0
Inner rendered_workflow = Unit
Inner (ran_session prompt thread e) = Unit
Inner deleted_record = Unit
Inner (promoted write) = ⊥
Inner ensured_workspace = ⊥
Inner ran_before_run = ⊥
Inner ran_after_run = ⊥

-- What every end of a run satisfies; a run without fuel has none.
abbrev pub Whenever : (List Effect → Type 0) → Option RunEnd → Type 0
Whenever P none = Unit
Whenever P (some e) = P e.effects

deletions-Inner : (rt : Runtime) → All Inner (deletions rt)
unfolding deletions
deletions-Inner rt = if_case (All Inner) rt.has_sessions (λ _. (tt, tt)) (λ _. tt)

ended_by-Inner :
    (before : List Effect) (prompt : FirstPrompt) (resume : Text) (run : Option SessionEnd)
    → All Inner before
    → Whenever (All Inner) (ended_by before prompt resume run)
unfolding ended_by
ended_by-Inner before prompt resume none inner = tt
ended_by-Inner before prompt resume (some e) inner = All-append Inner before _ inner (tt, tt)

after_first_session-Inner :
    (rt : Runtime) (issue : Issue) (w : Worker) (resume : Text) (run : Option SessionEnd)
    → Whenever (All Inner) (after_first_session rt issue w resume run)
unfolding after_first_session
after_first_session-Inner rt issue w resume none = tt
after_first_session-Inner rt issue w resume (some e) =
    if_case (Whenever (All Inner)) (falls_back resume w e)
      (λ _.
        ended_by-Inner (ran_session (first_prompt resume) resume e ∷ deletions rt) rendered_prompt
          [] _ (tt, deletions-Inner rt))
      (λ _. ended_by-Inner [] (first_prompt resume) resume (some e) tt)

with_effects-Whenever :
    (P Q : List Effect → Type 0) (before after : List Effect) (run : Option RunEnd)
    → ((effects : List Effect) → P effects → Q (before ++ (effects ++ after)))
    → Whenever P run
    → Whenever Q (with_effects before after run)
unfolding with_effects
with_effects-Whenever P Q before after none step h = tt
with_effects-Whenever P Q before after (some e) step h = step e.effects h

after_render-Inner :
    (rt : Runtime) (issue : Issue) (w : Worker) (err : Option RunError)
    → Whenever (All Inner) (after_render rt issue w err)
unfolding after_render run_sessions
after_render-Inner rt issue w (some err) = tt
after_render-Inner rt issue w none = after_first_session-Inner rt issue w _ _

after_before_run-Inner :
    (rt : Runtime) (issue : Issue) (w : Worker) (err : Option RunError)
    → Whenever (All Inner) (after_before_run rt issue w err)
unfolding after_before_run
after_before_run-Inner rt issue w (some err) = tt
after_before_run-Inner rt issue w none =
    with_effects-Whenever (All Inner) (All Inner) (rendered_workflow ∷ []) [] _
      (λ effects h. (tt, All-append Inner effects [] h tt))
      (after_render-Inner rt issue w w.render_error)

-- The calls of an attempt: the workspace alone, where it is refused; else the workspace, the hook
-- before_run, calls that are none of the two hooks, and the hook after_run.
abbrev pub Bracketed : Option RunError → List Effect → Type 0
Bracketed (some err) effects = effects ≡ ensured_workspace ∷ []
Bracketed none effects =
    (inner : List Effect) × All Inner inner
    × (effects ≡ ensured_workspace ∷ ran_before_run ∷ (inner ++ (ran_after_run ∷ [])))

after_ensure-Bracketed :
    (rt : Runtime) (issue : Issue) (w : Worker) (err : Option RunError)
    → Whenever (Bracketed err) (after_ensure rt issue w err)
unfolding after_ensure
after_ensure-Bracketed rt issue w (some err) = refl
after_ensure-Bracketed rt issue w none =
    with_effects-Whenever (All Inner) (Bracketed none) (ensured_workspace ∷ ran_before_run ∷ [])
      (ran_after_run ∷ []) _ (λ effects h. (effects, h, refl))
      (after_before_run-Inner rt issue w w.before_run_error)

pub run_worker_attempt-Bracketed :
    (rt : Runtime) (issue : Issue) (w : Worker)
    → Whenever (Bracketed w.ensure_error) (run_worker_attempt rt issue w)
unfolding run_worker_attempt
run_worker_attempt-Bracketed rt issue w = after_ensure-Bracketed rt issue w w.ensure_error

-- Let the fuel cover, in both Codex sessions that an attempt may hold, some turn from number max_turns
-- on after which the tracker gives the issue in a state other than AI Review. Then runWorkerAttempt
-- ends, whatever fails in it. Where Ensure refuses the workspace, that is its only call. Otherwise its
-- calls are Ensure, the hook before_run, then the rendering, sessions and deletions of a session
-- record only, and last, once, the hook after_run.
pub run_worker_attempt-hooks :
    (rt : Runtime) (issue : Issue) (w : Worker)
    → Quiet rt w.first_run
    → Quiet rt w.second_run
    → (e : RunEnd) × (run_worker_attempt rt issue w ≡ some e) × Bracketed w.ensure_error e.effects
run_worker_attempt-hooks rt issue w first second =
    let (e, same, sound) = run_worker_attempt-Sound rt w issue first second in
    (
      e,
      same,
      subst (Whenever (Bracketed w.ensure_error)) same (run_worker_attempt-Bracketed rt issue w),
    )
