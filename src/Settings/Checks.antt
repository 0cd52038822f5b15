-- ===== src/Settings/Checks.antt =====
-- validate of internal/runtime/config/config.go and its parts, against a table of rules: what must hold
-- of a configuration and the code of the error where it does not, in their order.
pub mod Verdict
use symphony_go.Prelude.{
  ℕ, ltb, ◌==◌, ℤ, pos, negsuc, is_positive, Bool, true, false, not, ◌&&◌, ◌||◌, Text, codes,
  text_eq, text_eq_iff, to_lower, trim_space, if◌then◌else◌, Bool-cases, List, [], ◌∷◌, ◌++◌, any,
  All, Result, ok, err, ◌>>◌, ensure, ◌≡◌, ◌≢◌, refl, sym, ◌⊎◌, inl, inr, ◌↔◌, ◌<◌, arith,
}
use symphony_go.Settings.{Settings, Places, Workers, Review, is_zero, is_below_zero}

abbrev bad_tracker : Text
bad_tracker = codes "unsupported_tracker_kind"

abbrev no_api_key : Text
no_api_key = codes "missing_tracker_api_key"

abbrev no_project : Text
no_project = codes "missing_tracker_project_slug"

abbrev no_command : Text
no_command = codes "missing_codex_command"

abbrev bad_interval : Text
bad_interval = codes "invalid_polling_interval"

abbrev bad_port : Text
bad_port = codes "invalid_server_port"

abbrev bad_workspace : Text
bad_workspace = codes "invalid_workspace_config"

abbrev bad_worker : Text
bad_worker = codes "invalid_worker_config"

abbrev bad_timeout : Text
bad_timeout = codes "invalid_hook_timeout"

abbrev bad_turns : Text
bad_turns = codes "invalid_max_turns"

abbrev bad_backoff : Text
bad_backoff = codes "invalid_max_retry_backoff"

abbrev bad_policy : Text
bad_policy = codes "invalid_review_policy"

abbrev setting : Text → Text
setting value = to_lower (trim_space value)

unfoldable pub validate_workspace : Places → Result (Unit {0})
validate_workspace w =
    if text_eq (setting w.mode) [] || text_eq (setting w.mode) (codes "per_issue")
    then ok tt
    else if text_eq (setting w.mode) (codes "static_cwd")
    then ensure (not (text_eq (trim_space w.cwd) [])) bad_workspace
    else err bad_workspace

unfoldable pub validate_worker : Workers → Result (Unit {0})
unfolding any
validate_worker w =
    ensure (not (any (λ host. text_eq host []) w.ssh_hosts)) bad_worker
    >> ensure
        (not (is_below_zero w.max_per_host || (w.max_per_host_is_set && is_zero w.max_per_host)))
        bad_worker

unfoldable pub validate_review_policy : Review → Result (Unit {0})
validate_review_policy r =
    ensure
      (text_eq (setting r.mode) []
        || text_eq (setting r.mode) (codes "human")
        || text_eq (setting r.mode) (codes "ai")
        || text_eq (setting r.mode) (codes "auto"))
      bad_policy
    >> ensure
        (text_eq (setting r.on_ai_fail) []
          || text_eq (setting r.on_ai_fail) (codes "rework")
          || text_eq (setting r.on_ai_fail) (codes "hold"))
        bad_policy

unfoldable pub validate : Settings → Result (Unit {0})
unfolding validate_workspace validate_worker validate_review_policy
validate c =
    ensure (text_eq c.tracker.kind (codes "linear")) bad_tracker
    >> ensure (not (text_eq c.tracker.api_key [])) no_api_key
    >> ensure (not (text_eq c.tracker.project_slug [])) no_project
    >> ensure (not (text_eq (trim_space c.codex.command) [])) no_command
    >> ensure (is_positive c.interval_ms) bad_interval
    >> ensure (not (c.server.port_set && is_below_zero c.server.port)) bad_port
    >> validate_workspace c.workspace
    >> validate_worker c.worker
    >> ensure (is_positive c.hooks.timeout_ms) bad_timeout
    >> ensure (is_positive c.agent.max_turns) bad_turns
    >> ensure (is_positive c.agent.max_retry_backoff_ms) bad_backoff
    >> validate_review_policy c.agent.review_policy

-- The rules: a proposition and the code of the error where it fails.
abbrev pub Rules : Type 1
Rules = List (Type 0 × Text)

abbrev pub AllHold : Rules → Type 0
AllHold [] = Unit
AllHold ((P, code) ∷ rules) = P × AllHold rules

-- The first rule that does not hold has this code.
abbrev pub FirstBroken : Rules → Text → Type 0
FirstBroken [] code = ⊥
FirstBroken ((P, broken) ∷ rules) code = (¬ P × (code ≡ broken)) ⊎ (P × FirstBroken rules code)

-- A check that follows the rules: it succeeds and all hold, or it returns the code of the first that
-- does not.
pub data Follows (m : Result (Unit {0})) (rules : Rules) : Type 0 where
  passes : m ≡ ok tt → AllHold rules → Follows m rules
  reports : (code : Text) → m ≡ err code → FirstBroken rules code → Follows m rules

abbrev pub Positive : ℤ → Type 0
Positive (pos n) = 0 < n
Positive (negsuc n) = ⊥

abbrev pub AtLeastZero : ℤ → Type 0
AtLeastZero (pos n) = Unit
AtLeastZero (negsuc n) = ⊥

abbrev pub WorkspaceMode : Places → Type 0
WorkspaceMode w =
    (setting w.mode ≡ [])
    ⊎ ((setting w.mode ≡ codes "per_issue")
        ⊎ ((setting w.mode ≡ codes "static_cwd") × (trim_space w.cwd ≢ [])))

abbrev pub HostLimit : Workers → Type 0
HostLimit w = AtLeastZero w.max_per_host × (w.max_per_host_is_set ≡ true → Positive w.max_per_host)

abbrev pub ReviewMode : Text → Type 0
ReviewMode mode =
    (((mode ≡ []) ⊎ (mode ≡ codes "human")) ⊎ (mode ≡ codes "ai")) ⊎ (mode ≡ codes "auto")

abbrev pub FailMode : Text → Type 0
FailMode mode = ((mode ≡ []) ⊎ (mode ≡ codes "rework")) ⊎ (mode ≡ codes "hold")

abbrev pub rules : Settings → Rules
rules c =
    ((c.tracker.kind ≡ codes "linear"), bad_tracker)
    ∷ ((c.tracker.api_key ≢ []), no_api_key)
    ∷ ((c.tracker.project_slug ≢ []), no_project)
    ∷ ((trim_space c.codex.command ≢ []), no_command)
    ∷ (Positive c.interval_ms, bad_interval)
    ∷ ((c.server.port_set ≡ true → AtLeastZero c.server.port), bad_port)
    ∷ (WorkspaceMode c.workspace, bad_workspace)
    ∷ (All (λ host. host ≢ []) c.worker.ssh_hosts, bad_worker)
    ∷ (HostLimit c.worker, bad_worker)
    ∷ (Positive c.hooks.timeout_ms, bad_timeout)
    ∷ (Positive c.agent.max_turns, bad_turns)
    ∷ (Positive c.agent.max_retry_backoff_ms, bad_backoff)
    ∷ (ReviewMode (setting c.agent.review_policy.mode), bad_policy)
    ∷ (FailMode (setting c.agent.review_policy.on_ai_fail), bad_policy)
    ∷ []
