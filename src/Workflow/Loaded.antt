-- ===== src/Workflow/Loaded.antt =====
-- Load of internal/service/workflow/workflow.go together with Resolve of internal/runtime/config/config.go.
use symphony_go.Prelude.{
  true, Text, trim_space, some, Option-cases, ok, >>=-eq-ok, ◌≡◌, sym, ap, subst, arith, inl, inr,
}
use symphony_go.Paths.{is_abs}
use symphony_go.Settings.{Settings, Surroundings}
use symphony_go.Settings.Checks.{AllHold, rules}
use symphony_go.Settings.Resolve.{resolve}
use symphony_go.Settings.Resolve.Usable.{Normal, AbsentOrAbsolute, resolve-Usable}
use symphony_go.Workflow.{Library, Workflow, split_front_matter, decode_config, load_content, load}

abbrev made : Settings → Text → Workflow
made config prompt = record { config = config; prompt_template = trim_space prompt }

workflow_eq :
    (config : Settings) (prompt : Text) (w : Workflow)
    → ok (made config prompt) ≡ ok w
    → made config prompt ≡ w
workflow_eq config prompt w h = cc

-- Let the working directory be absolute. A workflow that Load returns is of a file that could be read;
-- its prompt is the file's prompt without the blanks around it; its configuration keeps every rule of the
-- table of validate, has a merge target, active and terminal states and usable limits, and its root is
-- absent or absolute.
pub load-Usable :
    (l : Library) (e : Surroundings) (path dir : Text) (w : Workflow)
    → e.working_dir ≡ some dir
    → is_abs dir ≡ true
    → load l e path ≡ ok w
    → (content : Text) × (l.read_file path ≡ some content)
      × (w.prompt_template ≡ trim_space (split_front_matter content).1)
      × AllHold (rules w.config)
      × Normal w.config
      × AbsentOrAbsolute w.config.workspace.root
unfolding load load_content
load-Usable l e path dir w here h found = elim (Option-cases (l.read_file path)) [
  | inl missing ↦ absurd (ground (arith, subst (λ o. load_content l e path o ≡ ok w) missing found))
  | inr (content, readable) ↦
      let chain = subst (λ o. load_content l e path o ≡ ok w) readable found in
      let (c, _, next) = >>=-eq-ok (decode_config l (split_front_matter content).0) _ chain in
      let (config, resolved, same) = >>=-eq-ok (resolve e c path) _ next in
      let is_made = workflow_eq config (split_front_matter content).1 w same in
      let (held, normal, root, _) = resolve-Usable e c path dir config here h resolved in
      let config_is = ap (λ x. x.config) is_made in
      (
        content,
        readable,
        sym (ap (λ x. x.prompt_template) is_made),
        subst (λ x. AllHold (rules x)) config_is held,
        subst Normal config_is normal,
        subst (λ x. AbsentOrAbsolute x.workspace.root) config_is root,
      )
]
