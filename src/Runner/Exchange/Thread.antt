-- ===== src/Runner/Exchange/Thread.antt =====
-- The threads and turns that internal/service/codex/runner.go starts: startThread, resumeThread,
-- startOrResumeThread and startTurn, and startSession without the process that it starts.
pub mod Opened
use symphony_go.Prelude.{ℕ, Text, codes, text_eq, trim_space, if◌then◌else◌, List, [], ◌∷◌, ◌++◌}
use symphony_go.Observability.{Json, str, arr, obj, Items, nil, cons, Fields, end, field}
use symphony_go.Domain.{Issue}
use symphony_go.Runner.Exchange.{
  Incoming, Exchange, Writes, call, and_then, request, initialize, identified,
}

-- The configuration of Codex that a session passes on, and the specifications of the dynamic tools.
pub record Policy : Type 0 where
  pub approval_policy : Json
  pub thread_sandbox : Text
  pub tool_specs : Items

abbrev pub start_request : Policy → Text → Fields
start_request p cwd = request (codes "thread/start") 2 (
    field (codes "approvalPolicy") p.approval_policy (
      field (codes "sandbox") (str p.thread_sandbox)
        (field (codes "cwd") (str cwd) (field (codes "dynamicTools") (arr p.tool_specs) end))))

abbrev pub resume_request : Policy → Text → Text → Fields
resume_request p cwd thread_id = request (codes "thread/resume") 2 (
    field (codes "threadId") (str thread_id) (
      field (codes "approvalPolicy") p.approval_policy
        (field (codes "sandbox") (str p.thread_sandbox) (field (codes "cwd") (str cwd) end))))

unfoldable pub start_thread : Writes → Policy → Text → List Incoming → Exchange Text
unfolding call identified
start_thread writes p cwd lines =
    and_then (call writes 2 (start_request p cwd) lines) (identified (codes "thread"))

unfoldable pub resume_thread : Writes → Policy → Text → Text → List Incoming → Exchange Text
unfolding call identified
resume_thread writes p cwd thread_id lines =
    and_then (call writes 2 (resume_request p cwd thread_id) lines) (identified (codes "thread"))

unfoldable pub start_or_resume_thread :
    Writes → Policy → Text → Text → List Incoming → Exchange Text
unfolding start_thread resume_thread
start_or_resume_thread writes p cwd resume_thread_id lines =
    if text_eq (trim_space resume_thread_id) []
    then start_thread writes p cwd lines
    else resume_thread writes p cwd (trim_space resume_thread_id) lines

-- startSession and startRemoteSession once their process runs: the identifier of the thread.
unfoldable pub open_session : Writes → Policy → Text → Text → List Incoming → Exchange Text
unfolding initialize start_or_resume_thread
open_session writes p cwd resume_thread_id lines =
    and_then (initialize writes lines)
      (λ _ more. start_or_resume_thread writes p cwd resume_thread_id more)

abbrev pub turn_request : ℕ → Text → Text → Text → Issue → Json → Fields → Fields
turn_request id thread_id cwd prompt issue approval_policy sandbox_policy =
    request (codes "turn/start") id (
      field (codes "threadId") (str thread_id) (
        field (codes "input")
          (arr (
            cons
              (obj
                (field (codes "type") (str (codes "text")) (field (codes "text") (str prompt) end)))
              nil))
          (field (codes "cwd") (str cwd) (
            field (codes "title") (str (issue.identifier ++ (codes ": " ++ issue.title))) (
              field (codes "approvalPolicy") approval_policy
                (field (codes "sandboxPolicy") (obj sandbox_policy) end))))))

unfoldable pub start_turn :
    Writes → ℕ → Text → Text → Text → Issue → Json → Fields → List Incoming → Exchange Text
unfolding call identified
start_turn writes id thread_id cwd prompt issue approval_policy sandbox_policy lines =
    and_then
      (call writes id (turn_request id thread_id cwd prompt issue approval_policy sandbox_policy)
        lines)
      (identified (codes "turn"))
