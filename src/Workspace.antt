-- ===== src/Workspace.antt =====
-- internal/service/workspace/workspace.go: where an issue's workspace is, what may be created or
-- removed, and the hooks. The file system and the shell are parameters; the calls that change
-- something are logged. Observers, logging and environments are not modelled.
pub mod Within
pub mod Names
pub mod Lifecycle
use symphony_go.Prelude.{
  ℕ, ltb, leb, ◌==◌, Bool, true, false, not, ◌&&◌, ◌||◌, Text, codes, text_eq, trim_space,
  equal_fold, has_prefix, if◌then◌else◌, Option, none, some, List, [], ◌∷◌, ◌++◌, map, Result, ok,
  err, ◌>>=◌,
}
use symphony_go.Paths.{
  is_abs, clean, join_path, abs_path, rel, dot_dot, slash, CleanPath, cleaned, show_path,
}
use symphony_go.Domain.{Issue}
use mathlib.Core.List.{reverse}

-- runtimeconfig.HooksConfig without its timeout.
pub record Hooks : Type 0 where
  pub after_create : Text
  pub before_run : Text
  pub after_run : Text
  pub before_remove : Text

pub record Manager : Type 0 where
  pub root : Text
  pub mode : Text
  pub cwd : Text
  pub hooks : Hooks

-- What os.Lstat answers.
pub data Stat : Type 0 where
  missing broken : Stat
  symlink directory other_file : Stat

-- What filepath.EvalSymlinks answers: a path, os.ErrNotExist, or another error.
pub data Resolved : Type 0 where
  resolved : Text → Resolved
  not_there unresolved : Resolved

-- What os.Getwd, os.UserHomeDir and package os answer. `broken` and none are errors.
pub record Os : Type 0 where
  pub working_dir : Option Text
  pub home_dir : Option Text
  pub lstat : Text → Stat
  pub stat_is_dir : Text → Option Bool
  pub eval_symlinks : Text → Resolved
  pub make : Text → Bool
  pub remove : Text → Bool
  pub remove_all : Text → Bool
  pub run_hook : Text → Text → Text → Bool

-- A call that changes something: os.MkdirAll, os.Remove, os.RemoveAll, and a hook with its directory.
pub data Change : Type 0 where
  made removed removed_all : Text → Change
  ran_hook : Text → Text → Change

abbrev pub place : Change → Text
place (made path) = path
place (removed path) = path
place (removed_all path) = path
place (ran_hook name path) = path

unfoldable pub is_safe_char : ℕ → Bool
is_safe_char c =
    (leb b'a' c && leb c b'z')
    || (leb b'A' c && leb c b'Z')
    || (leb b'0' c && leb c b'9')
    || c == b'.'
    || c == b'_'
    || c == b'-'

-- unsafeIdentifierChars.ReplaceAllString(identifier, "_")
replace_unsafe : ℕ → ℕ
unfolding is_safe_char
replace_unsafe c = if is_safe_char c then c else b'_'

-- `strings.Trim(safe, ".") == ""`
only_dots : Text → Bool
only_dots [] = true
only_dots (c ∷ s) = c == b'.' && only_dots s

unfoldable pub safe_identifier : Text → Text
unfolding replace_unsafe only_dots
safe_identifier identifier =
    if text_eq identifier []
    then codes "issue"
    else if only_dots (map replace_unsafe identifier)
    then codes "issue"
    else map replace_unsafe identifier

-- path[2:] after `~/`
drop_tilde : Text → Text
drop_tilde (t ∷ s ∷ rest) = rest
drop_tilde path = path

unfoldable pub expand_home : Option Text → Text → Text
unfolding drop_tilde
expand_home none path = path
expand_home (some home) path =
    if text_eq path (codes "~")
    then home
    else if has_prefix path (codes "~/") && not (text_eq path (codes "~/"))
    then join_path home (drop_tilde path)
    else path

unfoldable pub root_abs : Os → Manager → Option Text
unfolding expand_home
root_abs os m = elim (abs_path os.working_dir (expand_home os.home_dir m.root)) [
  | none ↦ none
  | some root ↦ some (clean root)
]

unfoldable pub cwd_abs : Os → Manager → Option Text
unfolding expand_home
cwd_abs os m = elim (abs_path os.working_dir (expand_home os.home_dir m.cwd)) [
  | none ↦ none
  | some cwd ↦ some (clean cwd)
]

unfoldable pub static_cwd : Manager → Bool
static_cwd m = equal_fold (trim_space m.mode) (codes "static_cwd")

unfoldable pub path_for_issue : Os → Manager → Issue → Option Text
path_for_issue os m issue =
    if static_cwd m
    then cwd_abs os m
    else if text_eq issue.identifier []
    then none
    else elim (root_abs os m) [
      | none ↦ none
      | some root ↦ some (join_path root (safe_identifier issue.identifier))
    ]

-- pathWithin
unfoldable pub path_within : Text → Text → Bool
path_within root path = elim (rel root path) [
  | none ↦ false
  | some relative ↦
      not (text_eq relative dot_dot)
      && not (has_prefix relative (dot_dot ++ (slash ∷ [])))
      && not (is_abs relative)
]

unfoldable pub validate_static_path : Os → Manager → Text → Bool
unfolding cwd_abs path_within
validate_static_path os m path = elim (cwd_abs os m) [
  | none ↦ false
  | some cwd ↦ elim (abs_path os.working_dir path) [
    | none ↦ false
    | some target ↦ path_within cwd (clean target)
  ]
]

-- The root and the path, both absolute, where the path lies within.
unfoldable pub lexical_pair : Option Text → Option Text → Option (Text × Text)
lexical_pair none target = none
lexical_pair (some root) none = none
lexical_pair (some root) (some target) =
    if path_within (clean root) (clean target) then some (clean root, clean target) else none

unfoldable pub validate_workspace_path_lexical : Os → Manager → Text → Option (Text × Text)
unfolding lexical_pair
validate_workspace_path_lexical os m path =
    lexical_pair (root_abs os m) (abs_path os.working_dir path)

-- evalIfExists
eval_if_exists : Text → Resolved → Option Text
eval_if_exists path (resolved real) = some (clean real)
eval_if_exists path not_there = some (clean path)
eval_if_exists path unresolved = none

-- nearestExistingPath of an absolute path; the elements of the path are given last one first, and
-- the loop drops one in each round.
nearest_existing_path : Os → List Text → Option Text
nearest_existing_path os [] = elim (os.lstat (codes "/")) [
  | missing ↦ none
  | broken ↦ none
  | _ ↦ some (codes "/")
]
nearest_existing_path os (top ∷ stack) =
    let path = show_path (record { rooted = true; parts = reverse (top ∷ stack) }) in
    elim (os.lstat path) [
      | missing ↦ nearest_existing_path os stack
      | broken ↦ none
      | _ ↦ some path
    ]

-- The test of ValidateWorkspacePath behind the lexical one: links are followed.
really_within : Os → Text → Text → Bool
unfolding eval_if_exists nearest_existing_path path_within
really_within os root target = elim (eval_if_exists root (os.eval_symlinks root)) [
  | none ↦ false
  | some real_root ↦ elim (nearest_existing_path os (reverse (cleaned target).parts)) [
    | none ↦ false
    | some existing ↦ elim (os.eval_symlinks existing) [
      | resolved real_existing ↦ path_within real_root real_existing
      | _ ↦ false
    ]
  ]
]

-- ValidateWorkspacePath behind the lexical test, by what Lstat answers for the root.
validate_links : Os → Text → Text → Stat → Bool
unfolding really_within
validate_links os root target missing = true
validate_links os root target broken = false
validate_links os root target _ = really_within os root target

unfoldable pub validate_pair : Os → Option (Text × Text) → Bool
unfolding validate_links
validate_pair os none = false
validate_pair os (some (root, target)) = validate_links os root target (os.lstat root)

-- ValidateWorkspacePath; true stands for a nil error.
unfoldable pub validate_workspace_path : Os → Manager → Text → Bool
unfolding validate_pair
validate_workspace_path os m path =
    if static_cwd m
    then validate_static_path os m path
    else validate_pair os (validate_workspace_path_lexical os m path)
