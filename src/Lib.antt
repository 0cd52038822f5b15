-- ===== src/Lib.antt =====
-- The orchestration core of symphony-go: a service that polls a tracker (Linear) for issues, starts
-- a coding agent (Codex) for each one that may run, follows it turn by turn, moves the issue along
-- its states, and retries what failed.
--
-- The parts and how they interact. The orchestrator (internal/service/orchestrator) keeps one mutable
-- state behind a mutex. Its poll loop fetches candidates, sorts them, and dispatches each that is
-- eligible; a dispatch claims the issue and starts a worker. A worker runs the issue flow
-- (internal/service/issueflow), which prepares the workspace, runs Codex sessions through
-- internal/service/codex, and writes states to the tracker. When a worker ends, the orchestrator
-- releases the issue, cleans up, or arms a retry timer, which later runs the retry handler.
--
-- Which file models which part:
-- - Prelude and its children: Go's int, int64, strings and maps over native numbers. A string is the
--   list of its code points. An `int` is an integer, which wraps around where token counts are added; an int64 of the backoff or of a turn's durations is
--   a word below 2 ^ 64 that is read as two's complement.
-- - Domain: the structs of internal/service/issue/types.go, internal/runtime/config/types.go and
--   internal/runtime/observability/snapshot.go.
-- - ReviewPolicy, Eligibility, Candidates, Backoff: review_policy.go and eligibility.go of the
--   orchestrator, its order of the candidates, and the delays of retry.go (candidateEligible,
--   availableSlotsForState, sortCandidates, retryDelay).
-- - Observability: token.go and ratelimit.go of internal/runtime/observability, the reading of Codex
--   events.
-- - Orchestrator.State: the fields of the struct Orchestrator under its mutex; the running workers and
--   the armed timers, which the source leaves to the Go runtime, are lists of their own. Effects on
--   the workspace manager and the session store are logged in order.
-- - Orchestrator.Env: the answers of the tracker, the workspace manager and the session store.
-- - Orchestrator.Running, Retrying, Dispatch, Exit: one function per locked section of orchestrator.go,
--   retry.go and run_stage.go.
-- - Orchestrator.RetryHandler, Reconcile, Poll: handleRetry, reconcileRunning, StartupCleanup,
--   refreshWorkflow and pollDispatched, composed of the locked sections as the code composes them.
-- - Orchestrator.Safety and Orchestrator.Claims: what the sections keep, over the interleavings of them in
--   which no reload lowers max_concurrent_agents, and over every history of handlers.
-- - Outcomes, Flow: the outcomes, stages and decisions of flow.go, result.go and review_merge.go of
--   internal/service/issueflow.
-- - Flow.Turns: the closure AfterTurn of agent_session.go under the loop of RunSession in
--   internal/service/codex/runner.go; Flow.Trunk: runWorkerAttempt and RunIssueTrunk.
-- - Paths: the functions of package path/filepath that the program calls, on Unix paths.
-- - Settings: internal/runtime/config/config.go, with the whole configuration of types.go; Settings.Checks
--   is validate with the table of its rules, Settings.Resolve is Resolve.
-- - Workspace: internal/service/workspace/workspace.go; Workspace.Lifecycle holds Ensure, Remove,
--   BeforeRun and AfterRun, which log the calls that change the file system.
-- - Workflow: internal/service/workflow/workflow.go, and Workflow.Reloader its reloader.go.
-- - Runner: internal/service/codex/runner.go; Runner.Stats is TurnStats, Runner.Commands CommandKind, and
--   Runner.Exchange the messages of a session (initialize, startThread, resumeThread, startTurn,
--   awaitResponse, awaitTurn) over a list of the lines that come in.
-- - Linear: internal/integration/linear/client.go: the loop over pages, normalizeIssue, the assignee filter;
--   Linear.Workpad is UpsertWorkpad over an interface of Linear's comments.
-- - Ssh: internal/service/ssh/ssh.go and remoteLaunchCommand of runner.go.
-- - Scenarios: concrete inputs.
--
-- Bounds and fuel. Times are nanoseconds as natural numbers. Sums and differences of token counts wrap
-- around as a 64-bit int does; a number in an event's JSON is one that an int holds. Folding of case
-- (strings.EqualFold, strings.ToLower) is that of ASCII letters and the two code points that fold to one,
-- so the names of states and labels are taken to be such texts. The loop of RunSession has no bound of
-- its own, since a passed review goes on past max_turns; it runs on fuel here, one unit for each turn,
-- and fuel for the turns up to any one from number max_turns on that leaves the issue outside AI
-- Review is enough. The loop over the pages of Linear runs on fuel for as many pages as the server has.
-- All other loops are recursions on lists.
--
-- Parameters. The answers of Linear, of the file system and the hooks, of the session store, of Codex
-- and of the contexts are arguments: the record Env of the orchestrator, the records Turn, CodexRun
-- and Worker of the flow, Os of the workspace manager, Surroundings of the configuration, Library of
-- the workflow file, Poll and CommentApi of Linear, and the list of the lines that Codex writes. Each
-- step takes any answers, but for the interface of Linear's comments, whose documented laws are the
-- record IsDocumented. sort.SliceStable of the Go library is a parameter too, a Sorter, with its documented
-- laws in the record IsStable of Candidates.Sorters; an insertion sort stands for it in examples only.
--
-- Not modelled: logging and telemetry; the processes of Codex and of ssh; the decoding and encoding of
-- JSON and YAML, and the rendering of prompts; the environment and output of hooks; HTTP and GraphQL;
-- the control service, the HTTP transports and the dashboard. The prompt of a turn is its kind and not its text, so the
-- number of the attempt, which only the prompt shows, is left out of the flow.
mod Prelude
pub mod Domain
pub mod Outcomes
pub mod ReviewPolicy
pub mod Eligibility
pub mod Candidates
pub mod Backoff
pub mod Settings
pub mod Paths
pub mod Workspace
pub mod Workflow
pub mod Runner
pub mod Ssh
pub mod Linear
pub mod Observability
pub mod Flow
pub mod Orchestrator
mod Scenarios
