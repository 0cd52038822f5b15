-- ===== src/Workspace/Lifecycle.antt =====
-- Ensure, BeforeRun, AfterRun and Remove of internal/service/workspace/workspace.go.
pub mod Contained
pub mod Confined
use symphony_go.Prelude.{
  Bool, true, false, not, ◌&&◌, ◌||◌, Text, codes, text_eq, if◌then◌else◌, Option, none, some, List,
  [], ◌∷◌, ◌++◌,
}
use symphony_go.Domain.{Issue}
use symphony_go.Paths.{dir_path}
use symphony_go.Workspace.{
  Manager, Os, Stat, missing, broken, symlink, directory, other_file, Change, made, removed,
  removed_all, ran_hook, static_cwd, cwd_abs, root_abs, path_for_issue, validate_workspace_path,
  validate_workspace_path_lexical,
}

-- A call that changes the file system: its changes in order, and its value; none stands for an error.
pub record Op {ℓ} (A : Type ℓ) : Type ℓ where
  pub changes : List Change
  pub value : Option A

abbrev pub value {ℓ} : {A : Type ℓ} → A → Op A
value a = record { changes = []; value = some a }

abbrev pub fail {ℓ} : {A : Type ℓ} → Op A
fail = record { changes = []; value = none }

abbrev pub after {ℓ κ} : {A : Type ℓ} {B : Type κ} → List Change → Option A → (A → Op B) → Op B
after log none f = record { changes = log; value = none }
after log (some a) f = record { changes = log ++ (f a).changes; value = (f a).value }

infixl 5 ◌>>=◌ ◌>>◌
abbrev pub ◌>>=◌ {ℓ κ} : {A : Type ℓ} {B : Type κ} → Op A → (A → Op B) → Op B
m >>= f = after m.changes m.value f

abbrev pub ◌>>◌ {ℓ} : {B : Type ℓ} → Op (Unit {0}) → Op B → Op B
m >> k = m >>= λ _. k

-- `if !test { return error }`
abbrev pub demand : Bool → Op (Unit {0})
demand true = value tt
demand false = fail

abbrev pub given {ℓ} : {A : Type ℓ} → Option A → Op A
given none = fail
given (some a) = value a

-- A call that logs its change and may fail.
abbrev pub change : Change → Bool → Op (Unit {0})
change c true = record { changes = c ∷ []; value = some tt }
change c false = record { changes = c ∷ []; value = none }

unfoldable pub run_hook : Os → Text → Text → Text → Op (Unit {0})
run_hook os name script path = change (ran_hook name path) (os.run_hook name script path)

-- A hook that is not configured is not run.
unfoldable pub hook_if_set : Os → Text → Text → Text → Op (Unit {0})
unfolding run_hook
hook_if_set os name script path =
    if text_eq script [] then value tt else run_hook os name script path

unfoldable pub before_run : Os → Manager → Text → Op (Unit {0})
unfolding hook_if_set
before_run os m path = do
  demand (validate_workspace_path os m path)
  hook_if_set os (codes "before_run") m.hooks.before_run path

unfoldable pub after_run : Os → Manager → Text → Op (Unit {0})
unfolding hook_if_set
after_run os m path = do
  demand (validate_workspace_path os m path)
  hook_if_set os (codes "after_run") m.hooks.after_run path

unfoldable pub ensure_static : Os → Manager → Op (Text × Bool)
ensure_static os m = do
  path ← given (cwd_abs os m)
  demand (validate_workspace_path os m path)
  is_dir ← given (os.stat_is_dir path)
  demand is_dir
  value (path, false)

-- The directory at the path, whatever is there: true where it is created.
unfoldable pub occupy : Os → Manager → Text → Stat → Op Bool
occupy os m path symlink = do
  change (removed path) (os.remove path)
  change (made path) (os.make path)
  value true
occupy os m path directory = do demand (validate_workspace_path os m path); value false
occupy os m path broken = fail
occupy os m path _ = do
  demand (validate_workspace_path os m path)
  change (removed_all path) (os.remove_all path)
  change (made path) (os.make path)
  value true

unfoldable pub ensure_issue : Os → Manager → Issue → Op (Text × Bool)
unfolding occupy hook_if_set
ensure_issue os m issue = do
  root ← given (root_abs os m)
  change (made root) (os.make root)
  path ← given (path_for_issue os m issue)
  pair ← given (validate_workspace_path_lexical os m path)
  created ← occupy os m path (os.lstat path)
  if created then hook_if_set os (codes "after_create") m.hooks.after_create path else value tt
  value (path, created)

unfoldable pub ensure_workspace : Os → Manager → Issue → Op (Text × Bool)
unfolding ensure_static ensure_issue
ensure_workspace os m issue = if static_cwd m then ensure_static os m else ensure_issue os m issue

-- The result of the hook before_remove is dropped.
unfoldable pub before_remove : Os → Manager → Text → Stat → List Change
before_remove os m path directory =
    if text_eq m.hooks.before_remove []
    then []
    else (run_hook os (codes "before_remove") m.hooks.before_remove path).changes
before_remove os m path _ = []

unfoldable pub remove_found : Os → Manager → Text → Stat → Op (Unit {0})
unfolding before_remove
remove_found os m path missing = value tt
remove_found os m path broken = fail
remove_found os m path symlink = do
  demand (validate_workspace_path os m (dir_path path))
  change (removed path) (os.remove path)
remove_found os m path stat = do
  demand (validate_workspace_path os m path)
  record { changes = before_remove os m path stat; value = some tt }
  change (removed_all path) (os.remove_all path)

unfoldable pub remove_workspace : Os → Manager → Text → Op (Unit {0})
unfolding remove_found
remove_workspace os m path =
    if text_eq path []
    then value tt
    else if static_cwd m
    then demand (validate_workspace_path os m path)
    else do
      pair ← given (validate_workspace_path_lexical os m path)
      remove_found os m path (os.lstat path)
