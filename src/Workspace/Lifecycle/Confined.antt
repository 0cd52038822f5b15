-- ===== src/Workspace/Lifecycle/Confined.antt =====
-- Every change that a call of internal/service/workspace/workspace.go makes stands in the root.
use symphony_go.Prelude.{
  true, false, ◌≡◌, refl, subst, Text, codes, Option, none, some, List, All, All-weaken, ◌⊎◌, inl,
  inr, Bool-cases,
}
use symphony_go.Domain.{Issue}
use symphony_go.Paths.{is_abs, clean, cleaned, abs_path}
use symphony_go.Paths.Cleaned.{abs_path-is_abs, is_abs-clean}
use symphony_go.Workspace.{
  Manager, Os, Change, made, removed, removed_all, ran_hook, static_cwd, root_abs, path_within,
  validate_workspace_path, validate_workspace_path_lexical, lexical_pair, validate_pair,
}
use symphony_go.Workspace.Within.{Extends, path_within_iff}
use symphony_go.Workspace.Names.{root_abs-is_abs}
use symphony_go.Workspace.Lifecycle.{before_run, after_run, ensure_workspace, remove_workspace}
use symphony_go.Workspace.Lifecycle.Contained.{
  InRoot, Permitted, before_run-Permitted, after_run-Permitted, ensure_workspace-Permitted,
  remove_workspace-Permitted,
}

-- The calls of a manager.
pub data Call : Type 0 where
  ensures : Issue → Call
  runs_before runs_after removes : Text → Call

abbrev pub changes_of : Os → Manager → Call → List Change
changes_of os m (ensures issue) = (ensure_workspace os m issue).changes
changes_of os m (runs_before path) = (before_run os m path).changes
changes_of os m (runs_after path) = (after_run os m path).changes
changes_of os m (removes path) = (remove_workspace os m path).changes

-- The path, made absolute, has the elements of the root first.
abbrev pub Under : Os → Manager → Text → Type 0
Under os m path =
    (root : Text) × (target : Text) × (root_abs os m ≡ some root)
    × (abs_path os.working_dir path ≡ some target)
    × Extends (cleaned (clean root)).parts (cleaned (clean target)).parts

-- What a change may be: it stands under the root, a new directory may be the root itself, and a tree
-- is removed or a hook run only after ValidateWorkspacePath has followed the links, but for the hook
-- after_create.
abbrev pub Confined : Os → Manager → Change → Type 0
Confined os m (made path) = Under os m path ⊎ (root_abs os m ≡ some path)
Confined os m (removed path) = Under os m path
Confined os m (removed_all path) = Under os m path × (validate_workspace_path os m path ≡ true)
Confined os m (ran_hook name path) =
    Under os m path × ((validate_workspace_path os m path ≡ true) ⊎ (name ≡ codes "after_create"))

calls-Permitted :
    (os : Os) (m : Manager) (call : Call) → All (Permitted os m) (changes_of os m call)
calls-Permitted os m (ensures issue) = ensure_workspace-Permitted os m issue
calls-Permitted os m (runs_before path) = before_run-Permitted os m path
calls-Permitted os m (runs_after path) = after_run-Permitted os m path
calls-Permitted os m (removes path) = remove_workspace-Permitted os m path

lexical_pair-some :
    (found placed : Option Text) (pair : Text × Text)
    → lexical_pair found placed ≡ some pair
    → (root : Text) × (target : Text) × (found ≡ some root)
      × (placed ≡ some target)
      × (path_within (clean root) (clean target) ≡ true)
unfolding lexical_pair
lexical_pair-some none placed pair h = cc
lexical_pair-some (some root) none pair h = cc
lexical_pair-some (some root) (some target) pair h =
    elim (Bool-cases (path_within (clean root) (clean target))) [
      | inl e ↦ (root, target, refl, refl, e)
      | inr e ↦ let wrong : none ≡ some pair = rw e at h in cc
    ]

lexical_parts :
    (os : Os) (m : Manager) (path : Text)
    → InRoot os m path
    → (root : Text) × (target : Text) × (root_abs os m ≡ some root)
      × (abs_path os.working_dir path ≡ some target)
      × (path_within (clean root) (clean target) ≡ true)
unfolding validate_workspace_path_lexical
lexical_parts os m path (pair, found) =
    lexical_pair-some (root_abs os m) (abs_path os.working_dir path) pair found

validate_pair-some :
    (os : Os) (o : Option (Text × Text))
    → validate_pair os o ≡ true
    → (pair : Text × Text) × (o ≡ some pair)
unfolding validate_pair
validate_pair-some os none h = cc
validate_pair-some os (some pair) h = (pair, refl)

validated_lexically :
    (os : Os) (m : Manager) (path : Text)
    → static_cwd m ≡ false
    → validate_workspace_path os m path ≡ true
    → InRoot os m path
unfolding validate_workspace_path
validated_lexically os m path separate h =
    validate_pair-some os (validate_workspace_path_lexical os m path) (rw separate at h)

module _ (os : Os) (m : Manager) (dir : Text) (here : os.working_dir ≡ some dir)
    (absolute : is_abs dir ≡ true) where
  under : (path : Text) → InRoot os m path → Under os m path
  under path inside =
      let (root, target, found, placed, within) = lexical_parts os m path inside in
      let root_is = (root_abs-is_abs os m dir root here absolute found).0 in
      let target_is =
        abs_path-is_abs dir path target absolute
          (subst (λ wd. abs_path wd path ≡ some target) here placed) in
      (
        root,
        target,
        found,
        placed,
        (path_within_iff (clean root) (clean target) (is_abs-clean root root_is)
              (is_abs-clean target target_is)).0
            within,
      )

  confined : static_cwd m ≡ false → (c : Change) → Permitted os m c → Confined os m c
  confined separate (made path) (inl inside) = inl (under path inside)
  confined separate (made path) (inr is_root) = inr is_root
  confined separate (removed path) inside = under path inside
  confined separate (removed_all path) (inside, really) = (under path inside, really)
  confined separate (ran_hook name path) (inl really) =
      (under path (validated_lexically os m path separate really), inl really)
  confined separate (ran_hook name path) (inr (is_create, inside)) =
      (under path inside, inr is_create)

  -- Let the working directory be absolute and the workspaces be separate. Whatever a call of Ensure,
  -- BeforeRun, AfterRun or Remove is given and whatever the file system answers, each change that it
  -- makes stands under the root: the elements of the root are the first elements of its path, or, for
  -- a directory that is made, it is the root. Before a tree is removed or a hook other than
  -- after_create runs, ValidateWorkspacePath has accepted the path.
  pub calls-Confined :
      static_cwd m ≡ false → (call : Call) → All (Confined os m) (changes_of os m call)
  calls-Confined separate call =
      All-weaken (Permitted os m) (Confined os m) (changes_of os m call) (confined separate)
        (calls-Permitted os m call)
