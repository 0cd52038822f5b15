-- ===== src/Workflow.antt =====
-- internal/service/workflow/workflow.go: the front matter and the prompt of a workflow file, and the
-- errors of loading one. Reading the file and the YAML library are parameters; Render, whose work is
-- the template library's, is not modelled.
pub mod FrontMatter
pub mod Loaded
pub mod Reloader
use symphony_go.Prelude.{
  ℕ, Bool, true, false, Text, codes, text_eq, trim_space, if◌then◌else◌, Option, none, some, List,
  [], ◌∷◌, split, join, Result, ok, err, ◌>>=◌,
}
use symphony_go.Settings.{Settings, Surroundings}
use symphony_go.Settings.Resolve.{resolve}

abbrev pub newline : ℕ
newline = 10

unfoldable pub is_fence : Text → Bool
unfolding trim_space text_eq
is_fence line = text_eq (trim_space line) (codes "---")

-- The lines before the first fence, and those behind it if there is one.
unfoldable pub at_fence : List Text → List Text × Option (List Text)
unfolding is_fence
at_fence [] = ([], none)
at_fence (line ∷ lines) =
    let (before, behind) = at_fence lines in
    if is_fence line then ([], some lines) else (line ∷ before, behind)

-- The front matter and the prompt, where the first line is a fence.
unfoldable pub behind_fence : List Text → Text × Text
unfolding at_fence join
behind_fence lines =
    let (before, behind) = at_fence lines in
    (join newline before, elim behind [ none ↦ [] | some prompt ↦ join newline prompt ])

unfoldable pub split_front_matter : Text → Text × Text
unfolding behind_fence split
split_front_matter content = elim (split newline content) [
  | [] ↦ ([], content)
  | first ∷ lines ↦ if is_fence first then behind_fence lines else ([], content)
]

-- The kinds of a yaml.Node, as far as frontMatterIsMap tells them apart.
pub data NodeKind : Type 0 where
  document_node mapping_node other_node : NodeKind

pub record Node : Type 0 where
  pub kind : NodeKind
  pub content : List NodeKind

-- What package os and the YAML library answer; the configuration that nothing was decoded into.
pub record Library : Type 0 where
  pub read_file : Text → Option Text
  pub unmarshal : Text → Option Node
  pub decode : Text → Option Settings
  pub empty : Settings

unfoldable pub front_matter_is_map : Node → Bool
front_matter_is_map n = elim n.kind [
  | document_node ↦ elim n.content [ mapping_node ∷ [] ↦ true | _ ↦ false ]
  | mapping_node ↦ true
  | other_node ↦ false
]

pub record Workflow : Type 0 where
  pub config : Settings
  pub prompt_template : Text

abbrev pub missing_file : Text
missing_file = codes "missing_workflow_file"

abbrev pub parse_error : Text
parse_error = codes "workflow_parse_error"

abbrev pub not_a_map : Text
not_a_map = codes "workflow_front_matter_not_a_map"

unfoldable pub decode_config : Library → Text → Result Settings
unfolding front_matter_is_map
decode_config l front =
    if text_eq (trim_space front) [] then ok l.empty else elim (l.unmarshal front) [
      | none ↦ err parse_error
      | some node ↦
          if front_matter_is_map node
          then elim (l.decode front) [ none ↦ err parse_error | some c ↦ ok c ]
          else err not_a_map
    ]

-- Load of what was read.
unfoldable pub load_content : Library → Surroundings → Text → Option Text → Result Workflow
unfolding split_front_matter decode_config resolve
load_content l e path none = err missing_file
load_content l e path (some content) =
    let (front, prompt) = split_front_matter content in
    decode_config l front >>= λ c. resolve e c path >>= λ config.
    ok (record { config = config; prompt_template = trim_space prompt })

unfoldable pub load : Library → Surroundings → Text → Result Workflow
unfolding load_content
load l e path = load_content l e path (l.read_file path)
