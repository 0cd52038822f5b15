-- ===== src/Settings/Resolve.antt =====
-- Resolve, LoadAppConfig and normalizeWorkspace of internal/runtime/config/config.go.
pub mod Usable
use symphony_go.Prelude.{
  Bool, true, false, not, ◌||◌, Text, codes, text_eq, trim_space, equal_fold, has_prefix,
  if◌then◌else◌, Option, none, some, List, [], ◌∷◌, Result, ok, err, ◌>>=◌, ◌>>◌,
}
use symphony_go.Paths.{is_abs, clean, join_path, abs_path, dir_path}
use symphony_go.Settings.{
  Settings, Surroundings, apply_app_config, apply_defaults, resolve_env, normalize_states,
  normalize_worker, normalize_merge,
}
use symphony_go.Settings.Checks.{validate}

-- path[2:] after `~/`
after_tilde : Text → Text
after_tilde (t ∷ s ∷ rest) = rest
after_tilde path = path

unfoldable pub expand_home : Option Text → Text → Text
unfolding after_tilde
expand_home none path = path
expand_home (some home) path =
    if text_eq path (codes "~")
    then home
    else if has_prefix path (codes "~/")
    then join_path home (after_tilde path)
    else path

unfoldable pub workflow_dir : Text → Text
workflow_dir path = if text_eq path [] then codes "." else dir_path path

unfoldable pub load_app_config : Surroundings → Text → Result (Option Text)
unfolding workflow_dir
load_app_config e path =
    e.read_app_config
      (join_path (join_path (workflow_dir path) (codes "conf")) (codes "config.yaml"))

-- An error of the operating system has no code.
with_code : Option Text → Result Text
with_code none = err []
with_code (some path) = ok (clean path)

unfoldable pub normalize_workflow_path : Surroundings → Text → Text → Result Text
unfolding expand_home workflow_dir with_code
normalize_workflow_path e path workflow =
    let expanded = expand_home e.home_dir path in
    if text_eq expanded []
    then ok []
    else with_code (
        abs_path e.working_dir
          (if is_abs expanded then expanded else join_path (workflow_dir workflow) expanded))

unfoldable pub normalize_workspace : Surroundings → Text → Settings → Result Settings
unfolding normalize_workflow_path
normalize_workspace e workflow c = normalize_workflow_path e c.workspace.root workflow >>= λ root.
    (if equal_fold (trim_space c.workspace.mode) (codes "static_cwd")
      then normalize_workflow_path e c.workspace.cwd workflow
      else ok c.workspace.cwd)
    >>= λ cwd. ok (record c { workspace = record c.workspace { root = root; cwd = cwd } })

-- The steps between the loading of the application's configuration and normalizeWorkspace.
unfoldable pub prepare : Surroundings → Option Text → Settings → Settings
unfolding apply_app_config apply_defaults resolve_env normalize_states normalize_worker
    normalize_merge
prepare e app raw = normalize_merge (
    normalize_worker
      (normalize_states (resolve_env e (apply_defaults e (apply_app_config raw app)))))

unfoldable pub resolve : Surroundings → Settings → Text → Result Settings
unfolding load_app_config prepare normalize_workspace validate
resolve e raw workflow = load_app_config e workflow >>= λ app.
    normalize_workspace e workflow (prepare e app raw) >>= λ c. validate c >> ok c
