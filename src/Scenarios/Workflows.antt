-- ===== src/Scenarios/Workflows.antt =====
-- A workflow file with a front matter, its reloads, and a file that changes while it is loaded.
use symphony_go.Prelude.{
  ℕ, zero, suc, ◌<◌, ◌≡◌, refl, ap, ◌>>=◌, true, false, Text, codes, text_eq, none, some, List, [],
  ◌∷◌, ◌++◌, ok, err, trim_space, join, split, lacks,
}
use symphony_go.Settings.Checks.{AllHold, rules}
use symphony_go.Settings.Resolve.Usable.{Normal, AbsentOrAbsolute}
use symphony_go.Workflow.{
  newline, is_fence, split_front_matter, Library, Workflow, document_node, mapping_node, load,
}
use symphony_go.Workflow.FrontMatter.{split_front_matter-join}
use symphony_go.Workflow.Loaded.{load-Usable}
use symphony_go.Workflow.Reloader.{Stamp, Reloader, Attempt, load_stable_workflow, same_file_info}
use symphony_go.Workflow.Reloader.Stable.{Quiet, load_stable_workflow-Quiet}
use symphony_go.Workflow.Reloader.Versions.{Event, reload, commit, run, view, follow_all, run-view}
use symphony_go.Scenarios.Configurations.{
  raw, surroundings, workflow, settings, working_dir_is_abs, resolved,
}

opens : lacks newline (codes "---") ≡ true
unfolding lacks
opens = refl

opens_fence : is_fence (codes "---") ≡ true
unfolding is_fence trim_space text_eq
opens_fence = refl

closes : lacks newline (codes " --- ") ≡ true
unfolding lacks
closes = refl

closes_fence : is_fence (codes " --- ") ≡ true
unfolding is_fence trim_space text_eq
closes_fence = refl

one_line : lacks newline (codes "server:") ≡ true
unfolding lacks
one_line = refl

one_line_no_fence : is_fence (codes "server:") ≡ false
unfolding is_fence trim_space text_eq
one_line_no_fence = refl

abbrev body : Text
body = codes "Do it." ++ (newline ∷ codes "---")

split_front_matter-join_example :
    split_front_matter
      (join newline ((codes "---" ∷ codes "server:" ∷ []) ++ (codes " --- " ∷ split newline body)))
    ≡ (join newline (codes "server:" ∷ []), body)
split_front_matter-join_example =
    split_front_matter-join (codes "---") (codes " --- ") (codes "server:" ∷ []) body opens closes
      opens_fence closes_fence ((one_line, one_line_no_fence), tt)

abbrev library : Library
library = record {
  read_file =
      λ _. some (join newline (codes "---" ∷ codes "server:" ∷ codes "---" ∷ codes " Do it." ∷ []));
  unmarshal = λ _. some (record { kind = document_node; content = mapping_node ∷ [] });
  decode = λ _. some raw;
  empty = raw;
}

loaded_workflow : Workflow
loaded_workflow = record { config = settings; prompt_template = codes "Do it." }

loads : load library surroundings workflow ≡ ok loaded_workflow
unfolding load join split text_eq trim_space loaded_workflow
loads =
    ap (λ c. c >>= λ config. ok (record { config = config; prompt_template = codes "Do it." }))
      resolved

load-Usable_example :
    (content : Text) × (library.read_file workflow ≡ some content)
    × (loaded_workflow.prompt_template ≡ trim_space (split_front_matter content).1)
    × AllHold (rules loaded_workflow.config)
    × Normal loaded_workflow.config
    × AbsentOrAbsolute loaded_workflow.config.workspace.root
load-Usable_example =
    load-Usable library surroundings workflow (codes "/srv") loaded_workflow refl working_dir_is_abs
      loads

abbrev old : Workflow
old = record { config = raw; prompt_template = codes "old" }

abbrev new : Workflow
new = record { config = raw; prompt_template = codes "new" }

abbrev at : ℕ → Stamp
at time = record { mod_time = time; size = 100 }

abbrev first : Reloader
first = record { current = old; stamp = at 1; pending = none }

-- A new version, a broken one, the commit, and a broken one again.
abbrev events : List Event
events =
    reload (ok (at 2)) (ok new)
    ∷ reload (ok (at 3)) (err (codes "workflow_parse_error"))
    ∷ commit
    ∷ reload (ok (at 3)) (err (codes "workflow_parse_error"))
    ∷ []

run-view_example : view (run events first).0 ≡ follow_all (view first) (run events first).1
run-view_example = run-view events first

-- The file changes during the first load.
abbrev outside : ℕ → Attempt
outside zero = record { before = ok (at 1); loaded = ok old; after = ok (at 2) }
outside (suc n) = record { before = ok (at 2); loaded = ok new; after = ok (at 2) }

settles : load_stable_workflow outside ≡ ok (new, at 2)
unfolding load_stable_workflow same_file_info
settles = refl

load_stable_workflow-Quiet_example : (i : ℕ) × (i < 3) × Quiet (outside i) new (at 2)
load_stable_workflow-Quiet_example = load_stable_workflow-Quiet outside new (at 2) settles
