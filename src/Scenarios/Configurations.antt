-- ===== src/Scenarios/Configurations.antt =====
-- A workflow file that leaves most of its configuration to the defaults, with its key in the
-- environment.
use symphony_go.Prelude.{
  ◌≡◌, refl, true, false, Text, codes, text_eq, pos, none, some, [], ◌∷◌, ok, err, to_lower,
  trim_space, equal_fold, has_prefix, join, split, any, insert,
}
use symphony_go.Paths.{is_abs, abs_path, dir_path}
use symphony_go.Observability.{Fields}
use symphony_go.Settings.{Settings, Surroundings}
use symphony_go.Settings.Checks.{AllHold, rules, Follows, validate}
use symphony_go.Settings.Checks.Verdict.{validate-Follows}
use symphony_go.Settings.Resolve.{resolve}
use symphony_go.Settings.Resolve.Usable.{Normal, AbsentOrAbsolute, is_static, resolve-Usable}

abbrev pub raw : Settings
raw = record {
  tracker = record {
    kind = codes "linear";
    endpoint = [];
    api_key = codes "$KEY";
    project_slug = codes "demo";
    assignee = [];
    active_states = [];
    terminal_states = [];
  };
  server = record { port = pos 0; port_set = false };
  interval_ms = pos 0;
  workspace = record { mode = codes "Static_CWD"; root = codes "~/spaces"; cwd = codes ".." };
  worker = record {
    ssh_hosts = codes " host " ∷ [];
    max_per_host = pos 2;
    max_per_host_is_set = true;
  };
  hooks = record {
    after_create = [];
    before_run = [];
    after_run = [];
    before_remove = [];
    timeout_ms = pos 0;
  };
  merge_target = codes "dev";
  agent = record {
    max_concurrent_agents = pos 0;
    max_turns = pos 0;
    max_retry_backoff_ms = pos 0;
    max_concurrent_agents_by_state = (codes "Todo", pos 2) ∷ (codes "Done", pos 0) ∷ [];
    review_policy = record {
      mode = codes "AI";
      allow_manual_ai_review = false;
      on_ai_fail = [];
      expected_changed_files = [];
    };
    ai_review = record { enabled = false; auto_merge = false };
  };
  codex = record {
    command = [];
    approval_policy = none;
    thread_sandbox = [];
    turn_sandbox_policy = Fields.end;
    turn_timeout_ms = pos 0;
    read_timeout_ms = pos 0;
    stall_timeout_ms = pos 0;
    stall_timeout_ms_set = false;
  };
  warnings = [];
}

pub getenv : Text → Text
unfolding text_eq
getenv name = elim (text_eq name (codes "KEY")) [ true ↦ codes "secret" | false ↦ [] ]

abbrev pub surroundings : Surroundings
surroundings = record {
  getenv = getenv;
  temp_dir = codes "/tmp";
  working_dir = some (codes "/srv");
  home_dir = some (codes "/home/dev");
  read_app_config = λ _. ok (some (codes "trunk"));
}

pub workflow : Text
workflow = codes "repo/WORKFLOW.md"

pub settings : Settings
unfolding resolve
settings = elim (resolve surroundings raw workflow) [ ok c ↦ c | err e ↦ raw ]

pub resolved : resolve surroundings raw workflow ≡ ok settings
unfolding resolve settings workflow getenv abs_path is_abs text_eq has_prefix join split to_lower
    trim_space equal_fold any dir_path insert
resolved = refl

pub working_dir_is_abs : is_abs (codes "/srv") ≡ true
unfolding is_abs
working_dir_is_abs = refl

resolve-Usable_example :
    AllHold (rules settings)
    × Normal settings
    × AbsentOrAbsolute settings.workspace.root
    × (is_static settings ≡ true → AbsentOrAbsolute settings.workspace.cwd)
resolve-Usable_example =
    resolve-Usable surroundings raw workflow (codes "/srv") settings refl working_dir_is_abs
      resolved

validate-Follows_example : Follows (validate raw) (rules raw)
validate-Follows_example = validate-Follows raw
