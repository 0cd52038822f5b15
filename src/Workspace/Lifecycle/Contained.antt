-- ===== src/Workspace/Lifecycle/Contained.antt =====
-- What the calls of internal/service/workspace/workspace.go may change: only places in the root.
use symphony_go.Prelude.{
  Bool, true, false, ◌≡◌, refl, Text, codes, text_eq, if◌then◌else◌, if_case, Option, none, some,
  List, [], All, All-append, ◌⊎◌, inl, inr,
}
use symphony_go.Domain.{Issue}
use symphony_go.Paths.{dir_path}
use symphony_go.Workspace.{
  Manager, Os, Stat, missing, broken, symlink, directory, other_file, Change, made, removed,
  removed_all, ran_hook, static_cwd, root_abs, path_for_issue, validate_workspace_path,
  validate_workspace_path_lexical, cwd_abs,
}
use symphony_go.Workspace.Lifecycle.{
  Op, after, value, ◌>>=◌, ◌>>◌, demand, given, change, run_hook, hook_if_set, before_run,
  after_run, ensure_static, occupy, ensure_issue, ensure_workspace, before_remove, remove_found,
  remove_workspace,
}

module _ (os : Os) (m : Manager) where
  -- The path lies in the root, by its text.
  abbrev pub InRoot : Text → Type 0
  InRoot path = (pair : Text × Text) × (validate_workspace_path_lexical os m path ≡ some pair)

  -- The path lies in the root also where its links are followed.
  abbrev pub ReallyIn : Text → Type 0
  ReallyIn path = validate_workspace_path os m path ≡ true

  -- What may be done to a place: a tree is removed and a hook runs only where the links were followed,
  -- but for after_create.
  abbrev pub Permitted : Change → Type 0
  Permitted (made path) = InRoot path ⊎ (root_abs os m ≡ some path)
  Permitted (removed path) = InRoot path
  Permitted (removed_all path) = InRoot path × ReallyIn path
  Permitted (ran_hook name path) = ReallyIn path ⊎ ((name ≡ codes "after_create") × InRoot path)

  after-Permitted {ℓ κ} :
      {A : Type ℓ} {B : Type κ} (log : List Change) (value : Option A) (f : A → Op B)
      → All Permitted log
      → ((a : A) → value ≡ some a → All Permitted (f a).changes)
      → All Permitted (after log value f).changes
  after-Permitted log none f h later = h
  after-Permitted log (some a) f h later = All-append Permitted log _ h (later a refl)

  -- The rule for one step of a chain.
  bind {ℓ κ} :
      {A : Type ℓ} {B : Type κ} (op : Op A) (f : A → Op B)
      → All Permitted op.changes
      → ((a : A) → op.value ≡ some a → All Permitted (f a).changes)
      → All Permitted (op >>= f).changes
  bind op f h later = after-Permitted op.changes op.value f h later

  given-Permitted {ℓ} : {A : Type ℓ} (o : Option A) → All Permitted (given o).changes
  given-Permitted none = tt
  given-Permitted (some a) = tt

  given-some {ℓ} : {A : Type ℓ} (o : Option A) {a : A} → (given o).value ≡ some a → o ≡ some a
  given-some none h = cc
  given-some (some a) h = h

  demand-Permitted : (b : Bool) → All Permitted (demand b).changes
  demand-Permitted true = tt
  demand-Permitted false = tt

  demand-true : (b : Bool) {u : Unit {0}} → (demand b).value ≡ some u → b ≡ true
  demand-true true h = refl
  demand-true false h = cc

  change-Permitted : (c : Change) (b : Bool) → Permitted c → All Permitted (change c b).changes
  change-Permitted c true h = (h, tt)
  change-Permitted c false h = (h, tt)

  hook_if_set-Permitted :
      (name script path : Text)
      → Permitted (ran_hook name path)
      → All Permitted (hook_if_set os name script path).changes
  unfolding hook_if_set run_hook
  hook_if_set-Permitted name script path h =
      if_case (λ (op : Op (Unit {0})). All Permitted op.changes) (text_eq script []) (λ _. tt)
        (λ _. change-Permitted (ran_hook name path) (os.run_hook name script path) h)

  pub before_run-Permitted : (path : Text) → All Permitted (before_run os m path).changes
  unfolding before_run
  before_run-Permitted path =
      bind (demand (validate_workspace_path os m path)) _ (demand-Permitted _) (λ _ h.
        hook_if_set-Permitted (codes "before_run") m.hooks.before_run path (inl (demand-true _ h)))

  pub after_run-Permitted : (path : Text) → All Permitted (after_run os m path).changes
  unfolding after_run
  after_run-Permitted path =
      bind (demand (validate_workspace_path os m path)) _ (demand-Permitted _) (λ _ h.
        hook_if_set-Permitted (codes "after_run") m.hooks.after_run path (inl (demand-true _ h)))

  ensure_static-Permitted : All Permitted (ensure_static os m).changes
  unfolding ensure_static
  ensure_static-Permitted = bind (given (cwd_abs os m)) _ (given-Permitted _) (λ path _.
      bind (demand (validate_workspace_path os m path)) _ (demand-Permitted _) (λ _ _.
        bind (given (os.stat_is_dir path)) _ (given-Permitted _)
          (λ is_dir _. bind (demand is_dir) _ (demand-Permitted _) (λ _ _. tt))))

  replace-Permitted :
      (path : Text)
      → InRoot path
      → All Permitted
          (do
            demand (validate_workspace_path os m path)
            change (removed_all path) (os.remove_all path)
            change (made path) (os.make path)
            value true).changes
  replace-Permitted path inside =
      bind (demand (validate_workspace_path os m path)) _ (demand-Permitted _) (λ _ h.
        bind (change (removed_all path) (os.remove_all path)) _
          (change-Permitted (removed_all path) (os.remove_all path) (inside, demand-true _ h))
          (λ _ _.
            bind (change (made path) (os.make path)) _
              (change-Permitted (made path) (os.make path) (inl inside)) (λ _ _. tt)))

  occupy-Permitted :
      (path : Text) (stat : Stat) → InRoot path → All Permitted (occupy os m path stat).changes
  unfolding occupy
  occupy-Permitted path symlink inside =
      bind (change (removed path) (os.remove path)) _
        (change-Permitted (removed path) (os.remove path) inside)
        (λ _ _.
          bind (change (made path) (os.make path)) _
            (change-Permitted (made path) (os.make path) (inl inside)) (λ _ _. tt))
  occupy-Permitted path directory inside =
      bind (demand (validate_workspace_path os m path)) _ (demand-Permitted _) (λ _ _. tt)
  occupy-Permitted path broken inside = tt
  occupy-Permitted path missing inside = replace-Permitted path inside
  occupy-Permitted path other_file inside = replace-Permitted path inside

  ensure_issue-Permitted : (issue : Issue) → All Permitted (ensure_issue os m issue).changes
  unfolding ensure_issue
  ensure_issue-Permitted issue = bind (given (root_abs os m)) _ (given-Permitted _) (λ root found.
      bind (change (made root) (os.make root)) _
        (change-Permitted (made root) (os.make root) (inr (given-some _ found)))
        (λ _ _. bind (given (path_for_issue os m issue)) _ (given-Permitted _) (λ path _.
          bind (given (validate_workspace_path_lexical os m path)) _ (given-Permitted _)
            (λ pair lies.
              let inside : InRoot path = (pair, given-some _ lies) in
              bind (occupy os m path (os.lstat path)) _
                (occupy-Permitted path (os.lstat path) inside)
                (λ created _.
                  bind
                    (if created
                      then hook_if_set os (codes "after_create") m.hooks.after_create path
                      else value tt)
                    _
                    (if_case (λ (op : Op (Unit {0})). All Permitted op.changes) created
                      (λ _.
                        hook_if_set-Permitted (codes "after_create") m.hooks.after_create path
                          (inr (refl, inside)))
                      (λ _. tt))
                    (λ _ _. tt))))))

  pub ensure_workspace-Permitted :
      (issue : Issue) → All Permitted (ensure_workspace os m issue).changes
  unfolding ensure_workspace
  ensure_workspace-Permitted issue =
      if_case (λ (op : Op (Text × Bool)). All Permitted op.changes) (static_cwd m)
        (λ _. ensure_static-Permitted) (λ _. ensure_issue-Permitted issue)

  before_remove-Permitted :
      (path : Text) (stat : Stat) → ReallyIn path → All Permitted (before_remove os m path stat)
  unfolding before_remove run_hook
  before_remove-Permitted path directory h =
      if_case (All Permitted) (text_eq m.hooks.before_remove []) (λ _. tt)
        (λ _.
          change-Permitted (ran_hook (codes "before_remove") path)
            (os.run_hook (codes "before_remove") m.hooks.before_remove path) (inl h))
  before_remove-Permitted path _ h = tt

  remove_tree-Permitted :
      (path : Text) (stat : Stat)
      → InRoot path
      → All Permitted
          (do
            demand (validate_workspace_path os m path)
            record { changes = before_remove os m path stat; value = some tt }
            change (removed_all path) (os.remove_all path)).changes
  remove_tree-Permitted path stat inside =
      bind (demand (validate_workspace_path os m path)) _ (demand-Permitted _) (λ _ h.
        let really = demand-true _ h in
        All-append Permitted (before_remove os m path stat) _
          (before_remove-Permitted path stat really)
          (change-Permitted (removed_all path) (os.remove_all path) (inside, really)))

  remove_found-Permitted :
      (path : Text) (stat : Stat)
      → InRoot path
      → All Permitted (remove_found os m path stat).changes
  unfolding remove_found
  remove_found-Permitted path missing inside = tt
  remove_found-Permitted path broken inside = tt
  remove_found-Permitted path symlink inside =
      bind (demand (validate_workspace_path os m (dir_path path))) _ (demand-Permitted _)
        (λ _ _. change-Permitted (removed path) (os.remove path) inside)
  remove_found-Permitted path directory inside = remove_tree-Permitted path directory inside
  remove_found-Permitted path other_file inside = remove_tree-Permitted path other_file inside

  pub remove_workspace-Permitted :
      (path : Text) → All Permitted (remove_workspace os m path).changes
  unfolding remove_workspace
  remove_workspace-Permitted path =
      let Fine : Op (Unit {0}) → Type 0 = λ op. All Permitted op.changes in
      if_case Fine (text_eq path []) (λ _. tt)
        (λ _.
          if_case Fine (static_cwd m) (λ _. demand-Permitted _)
            (λ _.
              bind (given (validate_workspace_path_lexical os m path)) _ (given-Permitted _)
                (λ pair lies.
                  remove_found-Permitted path (os.lstat path) (pair, given-some _ lies))))
