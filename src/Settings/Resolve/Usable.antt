-- ===== src/Settings/Resolve/Usable.antt =====
-- What a configuration that Resolve returns satisfies (internal/runtime/config/config.go).
use symphony_go.Prelude.{
  ℤ, pos, negsuc, is_positive, Bool, true, Text, codes, text_eq, to_lower, lower_rune, equal_fold,
  trim_space, if◌then◌else◌, if_case, Option, some, Option-cases, List, [], ◌∷◌, All, Map, insert,
  delete, ok, >>=-eq-ok, ◌≡◌, ◌≢◌, refl, sym, ap, ◌∙◌, subst, ◌⊎◌, inl, inr, arith,
}
use symphony_go.Paths.{is_abs, clean, join_path, abs_path}
use symphony_go.Paths.Cleaned.{abs_path-is_abs, is_abs-clean}
use symphony_go.Settings.{
  Settings, Surroundings, text_or, states_or, apply_app_config, apply_defaults, default_tracker,
  resolve_env, normalize_limits, normalize_merge, normalize_states, normalize_worker,
}
use symphony_go.Settings.Checks.{AllHold, rules, Positive, Follows, passes, reports, validate}
use symphony_go.Settings.Checks.Verdict.{validate-Follows}
use symphony_go.Settings.Resolve.{
  resolve, prepare, load_app_config, normalize_workspace, normalize_workflow_path, with_code,
  expand_home, workflow_dir,
}

-- A limit for a state in lower case, positive.
abbrev pub LimitUsable : Text × ℤ → Type 0
LimitUsable (state, limit) = (to_lower state ≡ state) × Positive limit

abbrev pub AbsentOrAbsolute : Text → Type 0
AbsentOrAbsolute path = (path ≡ []) ⊎ (is_abs path ≡ true)

abbrev pub is_static : Settings → Bool
is_static c = equal_fold (trim_space c.workspace.mode) (codes "static_cwd")

lower_again : (s : Text) → to_lower (to_lower s) ≡ to_lower s
unfolding to_lower lower_rune
lower_again [] = refl
lower_again (c ∷ s) =
    let once : lower_rune (lower_rune c) ≡ lower_rune c = ground arith in
    rw (once, lower_again s) refl

delete-limits : (k : Text) (m : Map ℤ) → All LimitUsable m → All LimitUsable (delete k m)
unfolding delete
delete-limits k [] h = tt
delete-limits k ((j, v) ∷ m) (u, h) =
    if_case (All LimitUsable) (text_eq j k) (λ _. delete-limits k m h)
      (λ _. (u, delete-limits k m h))

positive : (n : ℤ) → is_positive n ≡ true → Positive n
positive (pos n) h = ground arith
positive (negsuc n) h = cc

normalize_limits-usable :
    (done limits : Map ℤ) → All LimitUsable done → All LimitUsable (normalize_limits done limits)
unfolding normalize_limits insert
normalize_limits-usable done [] h = h
normalize_limits-usable done ((state, limit) ∷ limits) h =
    normalize_limits-usable (if is_positive limit then insert (to_lower state) limit done else done)
      limits
      (if_case (All LimitUsable) (is_positive limit)
        (λ p. ((lower_again state, positive limit p), delete-limits (to_lower state) done h))
        (λ _. h))

normalize_states-limits :
    (c : Settings) → All LimitUsable (normalize_states c).agent.max_concurrent_agents_by_state
unfolding normalize_states
normalize_states-limits c = normalize_limits-usable [] c.agent.max_concurrent_agents_by_state tt

text_or-ne : (t : Text) → text_or t (codes "main") ≢ []
text_or-ne [] = λ h. cc
text_or-ne (c ∷ s) = λ h. cc

states_or-ne : (states : List Text) (s : Text) (ss : List Text) → states_or states (s ∷ ss) ≢ []
states_or-ne [] s ss = λ h. cc
states_or-ne (state ∷ states) s ss = λ h. cc

-- What the steps before normalizeWorkspace establish.
abbrev pub Normal : Settings → Type 0
Normal c =
    (c.merge_target ≢ [])
    × (c.tracker.active_states ≢ [])
    × (c.tracker.terminal_states ≢ [])
    × All LimitUsable c.agent.max_concurrent_agents_by_state

prepare-Normal :
    (e : Surroundings) (app : Option Text) (raw : Settings) → Normal (prepare e app raw)
unfolding prepare normalize_merge normalize_worker resolve_env apply_defaults default_tracker
prepare-Normal e app raw =
    let merged = apply_app_config raw app in
    let c = resolve_env e (apply_defaults e merged) in
    (
      text_or-ne (trim_space c.merge_target),
      states_or-ne merged.tracker.active_states _ _,
      states_or-ne merged.tracker.terminal_states _ _,
      normalize_states-limits c,
    )

with_code-is_abs :
    (dir path out : Text) (wd : Option Text)
    → is_abs dir ≡ true
    → wd ≡ some dir
    → with_code (abs_path wd path) ≡ ok out
    → is_abs out ≡ true
unfolding with_code
with_code-is_abs dir path out wd h here found = elim (Option-cases (abs_path wd path)) [
  | inl missing ↦ absurd (cc)
  | inr (target, e) ↦
      let target_abs =
        abs_path-is_abs dir path target h (sym (ap (λ w. abs_path w path) here) ∙ e) in
      let same : clean target ≡ out = cc in
      subst (λ t. is_abs t ≡ true) same (is_abs-clean target target_abs)
]

normalize_workflow_path-abs :
    (e : Surroundings) (path workflow dir out : Text)
    → e.working_dir ≡ some dir
    → is_abs dir ≡ true
    → normalize_workflow_path e path workflow ≡ ok out
    → AbsentOrAbsolute out
unfolding normalize_workflow_path
normalize_workflow_path-abs e path workflow dir out here h =
    let expanded = expand_home e.home_dir path in
    if_case (λ r. r ≡ ok out → AbsentOrAbsolute out) (text_eq expanded []) (λ _ found. inl (cc))
      (λ _ found. inr (
        with_code-is_abs dir
          (if is_abs expanded then expanded else join_path (workflow_dir workflow) expanded) out
          e.working_dir h here found))

ok-injective {ℓ} : {A : Type ℓ} {a b : A} → ok a ≡ ok b → a ≡ b
ok-injective h = cc

follows-hold :
    (c : Settings) → validate c ≡ ok tt → Follows (validate c) (rules c) → AllHold (rules c)
follows-hold c valid (passes e h) = h
follows-hold c valid (reports code e h) = absurd (cc)

-- What normalizeWorkspace changes: the root and the directory, each absent or absolute.
normalize_workspace-abs :
    (e : Surroundings) (workflow dir : Text) (c out : Settings)
    → e.working_dir ≡ some dir
    → is_abs dir ≡ true
    → normalize_workspace e workflow c ≡ ok out
    → (root : Text) × (cwd : Text) × (out
        ≡ record c { workspace = record c.workspace { root = root; cwd = cwd } })
      × AbsentOrAbsolute root
      × (is_static c ≡ true → AbsentOrAbsolute cwd)
unfolding normalize_workspace
normalize_workspace-abs e workflow dir c out here h found =
    let (root, root_found, rest) =
      >>=-eq-ok (normalize_workflow_path e c.workspace.root workflow) _ found in
    let (cwd, cwd_found, done) =
      >>=-eq-ok
        (if is_static c
          then normalize_workflow_path e c.workspace.cwd workflow
          else ok c.workspace.cwd)
        _ rest in
    (
      root,
      cwd,
      ok-injective (sym done),
      normalize_workflow_path-abs e c.workspace.root workflow dir root here h root_found,
      λ static. normalize_workflow_path-abs e c.workspace.cwd workflow dir cwd here h (
          subst
            (λ b.
              (if b then normalize_workflow_path e c.workspace.cwd workflow else ok c.workspace.cwd)
              ≡ ok cwd)
            static cwd_found),
    )

-- Let the working directory be absolute. A configuration that Resolve returns keeps every rule of the
-- table of validate. Beyond them, it has a merge target, active and terminal states; each limit by
-- state is positive and stands under a state in lower case; the root of the workspaces is absent or an
-- absolute path, and so is the directory of a static workspace.
pub resolve-Usable :
    (e : Surroundings) (raw : Settings) (workflow dir : Text) (c : Settings)
    → e.working_dir ≡ some dir
    → is_abs dir ≡ true
    → resolve e raw workflow ≡ ok c
    → AllHold (rules c)
      × Normal c
      × AbsentOrAbsolute c.workspace.root
      × (is_static c ≡ true → AbsentOrAbsolute c.workspace.cwd)
unfolding resolve
resolve-Usable e raw workflow dir c here h found =
    let (app, _, prepared) = >>=-eq-ok (load_app_config e workflow) _ found in
    let (d, placed, checked) =
      >>=-eq-ok (normalize_workspace e workflow (prepare e app raw)) _ prepared in
    let (_, valid, same) = >>=-eq-ok (validate d) (λ _. ok d) checked in
    let (root, cwd, e1, root_abs, cwd_abs) =
      normalize_workspace-abs e workflow dir (prepare e app raw) d here h placed in
    let c_is = sym (ok-injective same) ∙ e1 in
    (
      follows-hold c (subst (λ x. validate x ≡ ok tt) (ok-injective same) valid)
          (validate-Follows c),
      subst Normal (sym c_is) (prepare-Normal e app raw),
      subst (λ x. AbsentOrAbsolute x.workspace.root) (sym c_is) root_abs,
      subst (λ x. is_static x ≡ true → AbsentOrAbsolute x.workspace.cwd) (sym c_is) cwd_abs,
    )
