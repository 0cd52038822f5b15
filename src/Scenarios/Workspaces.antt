-- ===== src/Scenarios/Workspaces.antt =====
-- A manager with a relative root, an issue whose identifier is unsafe, and a file system that has the
-- root and nothing else.
use symphony_go.Prelude.{
  has_prefix, join, split, ◌≡◌, ◌≢◌, refl, true, false, Text, codes, some, [], ◌∷◌, ◌++◌, All,
  text_eq, Option, trim_space, equal_fold,
}
use symphony_go.Domain.{Issue}
use symphony_go.Paths.{cleaned, is_abs, abs_path}
use symphony_go.Paths.Cleaned.{IsElement}
use symphony_go.Workspace.{
  Os, Manager, Stat, missing, directory, resolved, root_abs, static_cwd, path_for_issue,
  path_within, safe_identifier,
}
use symphony_go.Workspace.Names.{AllSafe, path_for_issue-child}
use symphony_go.Workspace.Lifecycle.Confined.{Confined, changes_of, ensures, calls-Confined}
use symphony_go.Scenarios.{issue_named}

abbrev manager : Manager
manager = record {
  root = codes "/srv/spaces";
  mode = codes "per_issue";
  cwd = [];
  hooks = record {
    after_create = codes "setup";
    before_run = [];
    after_run = [];
    before_remove = [];
  };
}

abbrev stat : Text → Stat
stat path = elim (text_eq path (codes "/srv/spaces")) [ true ↦ directory | false ↦ missing ]

abbrev os : Os
os = record {
  working_dir = some (codes "/srv");
  home_dir = some (codes "/home/dev");
  lstat = stat;
  stat_is_dir = λ _. some true;
  eval_symlinks = λ path. resolved path;
  make = λ _. true;
  remove = λ _. true;
  remove_all = λ _. true;
  run_hook = λ _ _ _. true;
}

abbrev unsafe_issue : Issue
unsafe_issue = issue_named (codes "../etc passwd") Option.none

absolute_dir : is_abs (codes "/srv") ≡ true
unfolding is_abs
absolute_dir = refl

separate : static_cwd manager ≡ false
unfolding static_cwd equal_fold text_eq trim_space
separate = refl

named : text_eq unsafe_issue.identifier [] ≡ false
unfolding text_eq
named = refl

root_found : root_abs os manager ≡ some (codes "/srv/spaces")
unfolding root_abs abs_path is_abs text_eq has_prefix join split
root_found = refl

path_for_issue-child_example :
    (path : Text) × (path_for_issue os manager unsafe_issue ≡ some path)
    × ((cleaned path).parts
        ≡ (cleaned (codes "/srv/spaces")).parts ++ (safe_identifier unsafe_issue.identifier ∷ []))
    × AllSafe (safe_identifier unsafe_issue.identifier)
    × IsElement (safe_identifier unsafe_issue.identifier)
    × (path_within (codes "/srv/spaces") path ≡ true)
    × (path ≢ codes "/srv/spaces")
path_for_issue-child_example =
    path_for_issue-child os manager unsafe_issue (codes "/srv") (codes "/srv/spaces") refl
      absolute_dir separate named root_found

calls-Confined_example : All (Confined os manager) (changes_of os manager (ensures unsafe_issue))
calls-Confined_example =
    calls-Confined os manager (codes "/srv") refl absolute_dir separate (ensures unsafe_issue)
