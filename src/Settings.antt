-- ===== src/Settings.antt =====
-- internal/runtime/config/types.go and config.go: the configuration of a workflow file, its defaults
-- and its normalisation. The decoding of YAML is not modelled: its result is a parameter.
pub mod Checks
pub mod Resolve
use symphony_go.Prelude.{
  ℕ, ltb, ◌==◌, ℤ, pos, negsuc, is_positive, Bool, true, false, not, ◌&&◌, ◌||◌, Text, codes,
  text_eq, to_lower, trim_space, equal_fold, has_prefix, if◌then◌else◌, Option, none, some, List,
  [], ◌∷◌, ◌++◌, map, any, Map, insert, Result, ok, err, ◌>>=◌, ◌>>◌, ensure,
}
use symphony_go.Paths.{is_abs, clean, join_path, abs_path, dir_path}
use symphony_go.Domain.{AiReviewConfig}
use symphony_go.Observability.{Json, str, Fields}

pub record Tracker : Type 0 where
  pub kind : Text
  pub endpoint : Text
  pub api_key : Text
  pub project_slug : Text
  pub assignee : Text
  pub active_states : List Text
  pub terminal_states : List Text

pub record Server : Type 0 where
  pub port : ℤ
  pub port_set : Bool

pub record Places : Type 0 where
  pub mode : Text
  pub root : Text
  pub cwd : Text

pub record Workers : Type 0 where
  pub ssh_hosts : List Text
  pub max_per_host : ℤ
  pub max_per_host_is_set : Bool

pub record HookScripts : Type 0 where
  pub after_create : Text
  pub before_run : Text
  pub after_run : Text
  pub before_remove : Text
  pub timeout_ms : ℤ

pub record Review : Type 0 where
  pub mode : Text
  pub allow_manual_ai_review : Bool
  pub on_ai_fail : Text
  pub expected_changed_files : List Text

pub record Agents : Type 0 where
  pub max_concurrent_agents : ℤ
  pub max_turns : ℤ
  pub max_retry_backoff_ms : ℤ
  pub max_concurrent_agents_by_state : Map ℤ
  pub review_policy : Review
  pub ai_review : AiReviewConfig

pub record Codex : Type 0 where
  pub command : Text
  pub approval_policy : Option Json
  pub thread_sandbox : Text
  pub turn_sandbox_policy : Fields
  pub turn_timeout_ms : ℤ
  pub read_timeout_ms : ℤ
  pub stall_timeout_ms : ℤ
  pub stall_timeout_ms_set : Bool

-- Config; `interval_ms` is of PollingConfig and `merge_target` of MergeConfig. A warning is its code.
pub record Settings : Type 0 where
  pub tracker : Tracker
  pub server : Server
  pub interval_ms : ℤ
  pub workspace : Places
  pub worker : Workers
  pub hooks : HookScripts
  pub merge_target : Text
  pub agent : Agents
  pub codex : Codex
  pub warnings : List Text

-- What the operating system answers: the environment, directories, and git.merge_target of a file
-- read by viper, which is none where there is no such file.
pub record Surroundings : Type 0 where
  pub getenv : Text → Text
  pub temp_dir : Text
  pub working_dir : Option Text
  pub home_dir : Option Text
  pub read_app_config : Text → Result (Option Text)

abbrev pub is_zero : ℤ → Bool
is_zero (pos n) = n == 0
is_zero (negsuc n) = false

abbrev pub is_below_zero : ℤ → Bool
is_below_zero (pos n) = false
is_below_zero (negsuc n) = true

abbrev pub text_or : Text → Text → Text
text_or [] fallback = fallback
text_or (c ∷ text) fallback = c ∷ text

abbrev pub states_or : List Text → List Text → List Text
states_or [] fallback = fallback
states_or (state ∷ states) fallback = state ∷ states

abbrev number_or : ℤ → ℕ → ℤ
number_or n fallback = if is_zero n then pos fallback else n

abbrev warn_merge_target : Text
warn_merge_target = codes "workflow_merge_target_deprecated"

-- applyAppConfig
unfoldable pub apply_app_config : Settings → Option Text → Settings
apply_app_config c none = c
apply_app_config c (some loaded) =
    let target = trim_space loaded in
    let written = trim_space c.merge_target in
    let warned =
      if not (text_eq written []) && not (text_eq written target)
      then c.warnings ++ (warn_merge_target ∷ [])
      else c.warnings in
    if text_eq target [] then c else record c { merge_target = target; warnings = warned }

abbrev pub default_active : List Text
default_active = codes "Todo" ∷ codes "In Progress" ∷ []

abbrev pub default_terminal : List Text
default_terminal =
    codes "Closed" ∷ codes "Cancelled" ∷ codes "Canceled" ∷ codes "Duplicate" ∷ codes "Done" ∷ []

unfoldable pub default_tracker : Tracker → Tracker
default_tracker t = record t {
  endpoint = text_or t.endpoint (codes "https://api.linear.app/graphql");
  active_states = states_or t.active_states default_active;
  terminal_states = states_or t.terminal_states default_terminal;
}

unfoldable pub default_agent : Agents → Agents
default_agent a = record a {
  max_concurrent_agents = number_or a.max_concurrent_agents 10;
  max_turns = number_or a.max_turns 20;
  max_retry_backoff_ms = number_or a.max_retry_backoff_ms 300000;
}

abbrev policy_or : Option Json → Option Json
policy_or none = some (str (codes "never"))
policy_or (some policy) = some policy

unfoldable pub default_codex : Codex → Codex
default_codex c = record c {
  command = text_or c.command (codes "codex app-server");
  turn_timeout_ms = number_or c.turn_timeout_ms 3600000;
  read_timeout_ms = number_or c.read_timeout_ms 5000;
  stall_timeout_ms =
      if not c.stall_timeout_ms_set && is_zero c.stall_timeout_ms
      then pos 300000
      else c.stall_timeout_ms;
  approval_policy = policy_or c.approval_policy;
  thread_sandbox = text_or c.thread_sandbox (codes "workspace-write");
}

-- A nil list of hosts becomes an empty one, which is the same list here.
unfoldable pub apply_defaults : Surroundings → Settings → Settings
unfolding default_tracker default_agent default_codex
apply_defaults e c = record c {
  tracker = default_tracker c.tracker;
  interval_ms = number_or c.interval_ms 30000;
  workspace = record c.workspace {
    root = text_or c.workspace.root (join_path e.temp_dir (codes "symphony_workspaces"));
  };
  hooks = record c.hooks { timeout_ms = number_or c.hooks.timeout_ms 60000 };
  merge_target = if text_eq (trim_space c.merge_target) [] then codes "main" else c.merge_target;
  agent = default_agent c.agent;
  codex = default_codex c.codex;
}

-- `strings.ContainsAny(name, "/\\ ")`
abbrev is_path_char : ℕ → Bool
is_path_char c = c == b'/' || c == b'\\' || c == b' '

unfoldable pub resolve_dollar : (Text → Text) → Text → Text
unfolding any
resolve_dollar getenv [] = []
resolve_dollar getenv (d ∷ []) = d ∷ []
resolve_dollar getenv (d ∷ c ∷ name) =
    if d == b'$' && not (any is_path_char (c ∷ name)) then getenv (c ∷ name) else d ∷ c ∷ name

unfoldable pub resolve_env : Surroundings → Settings → Settings
unfolding resolve_dollar
resolve_env e c = record c {
  tracker = record c.tracker {
    api_key = resolve_dollar e.getenv c.tracker.api_key;
    assignee =
        text_or (resolve_dollar e.getenv c.tracker.assignee) (e.getenv (codes "LINEAR_ASSIGNEE"));
  };
  workspace = record c.workspace {
    root = resolve_dollar e.getenv c.workspace.root;
    cwd = resolve_dollar e.getenv c.workspace.cwd;
  };
}

-- normalizeStates, in the order in which the map is ranged over.
unfoldable pub normalize_limits : Map ℤ → Map ℤ → Map ℤ
unfolding insert
normalize_limits done [] = done
normalize_limits done ((state, limit) ∷ limits) =
    normalize_limits (if is_positive limit then insert (to_lower state) limit done else done) limits

unfoldable pub normalize_states : Settings → Settings
unfolding normalize_limits
normalize_states c = record c {
  agent = record c.agent {
    max_concurrent_agents_by_state = normalize_limits [] c.agent.max_concurrent_agents_by_state;
  };
}

unfoldable pub normalize_worker : Settings → Settings
normalize_worker c = record c {
  worker = record c.worker { ssh_hosts = map trim_space c.worker.ssh_hosts };
}

unfoldable pub normalize_merge : Settings → Settings
normalize_merge c = record c { merge_target = text_or (trim_space c.merge_target) (codes "main") }
