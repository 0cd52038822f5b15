-- ===== src/Linear.antt =====
-- internal/integration/linear/client.go: what the program makes of Linear's answers. An answer of a
-- GraphQL call is a parameter; a time is a number.
pub mod Pages
pub mod Routing
pub mod Workpad
use symphony_go.Prelude.{
  ℕ, zero, suc, ◌==◌, ℤ, Bool, true, false, not, ◌&&◌, ◌||◌, Text, codes, text_eq, to_lower,
  trim_space, contains, if◌then◌else◌, Option, none, some, List, [], ◌∷◌, ◌++◌, map, Result, ok,
  err, ◌>>=◌,
}
use symphony_go.Domain.{BlockerRef, Issue}

-- An element of inverseRelations; the issue may be null.
pub record Relation : Type 0 where
  pub kind : Text
  pub issue : Option BlockerRef

pub record RawIssue : Type 0 where
  pub id : Text
  pub identifier : Text
  pub title : Text
  pub description : Text
  pub priority : Option ℤ
  pub state_name : Text
  pub assignee_id : Text
  pub branch_name : Text
  pub url : Text
  pub labels : List Text
  pub inverse_relations : List Relation
  pub created_at : Text
  pub updated_at : Text

-- rawIssueConnection
pub record Page : Type 0 where
  pub nodes : List RawIssue
  pub has_next_page : Bool
  pub end_cursor : Option Text

-- The value that an assignee is compared with, none without a filter.
abbrev pub AssigneeFilter : Type 0
AssigneeFilter = Option Text

unfoldable pub label_names : List Text → List Text
label_names [] = []
label_names (name ∷ names) =
    let rest = label_names names in if text_eq name [] then rest else to_lower name ∷ rest

unfoldable pub blocking : List Relation → List BlockerRef
blocking [] = []
blocking (relation ∷ relations) =
    let rest = blocking relations in
    if text_eq relation.kind (codes "blocks")
    then elim relation.issue [ none ↦ rest | some blocker ↦ blocker ∷ rest ]
    else rest

unfoldable pub assigned_to : AssigneeFilter → Text → Option Bool
assigned_to none assignee = none
assigned_to (some value) assignee = some (not (text_eq assignee []) && text_eq assignee value)

-- What time.Parse reads of a text, none for an error.
abbrev pub Times : Type 0
Times = Text → Option ℕ

unfoldable pub parse_time : Times → Text → Option ℕ
parse_time times value = if text_eq value [] then none else times value

unfoldable pub normalize_issue : Times → AssigneeFilter → RawIssue → Issue
unfolding label_names blocking assigned_to parse_time
normalize_issue times filter raw = record {
  id = raw.id;
  identifier = raw.identifier;
  title = raw.title;
  description = raw.description;
  priority = raw.priority;
  state = raw.state_name;
  branch_name = raw.branch_name;
  url = raw.url;
  assignee_id = raw.assignee_id;
  assigned_to_worker = assigned_to filter raw.assignee_id;
  labels = label_names raw.labels;
  blocked_by = some (blocking raw.inverse_relations);
  created_at = parse_time times raw.created_at;
  updated_at = parse_time times raw.updated_at;
}

unfoldable pub normalize_issues : Times → AssigneeFilter → List RawIssue → List Issue
unfolding normalize_issue
normalize_issues times filter = map (normalize_issue times filter)

-- The answer to pollQuery behind a cursor.
abbrev pub Poll : Type 0
Poll = Option Text → Result Page

abbrev pub missing_end_cursor : Text
missing_end_cursor = codes "linear_missing_end_cursor"

-- The loop of fetchIssuesByStates, none where the fuel ends before the pages.
unfoldable pub fetch_pages :
    ℕ → Times → AssigneeFilter → Poll → Option Text → List Issue → Option (Result (List Issue))
unfolding normalize_issues
fetch_pages zero times filter poll after issues = none
fetch_pages (suc fuel) times filter poll after issues = elim (poll after) [
  | err e ↦ some (err e)
  | ok page ↦
      let all = issues ++ normalize_issues times filter page.nodes in
      if page.has_next_page
      then elim page.end_cursor [
        | none ↦ some (err missing_end_cursor)
        | some cursor ↦ fetch_pages fuel times filter poll (some cursor) all
      ]
      else some (ok all)
]

unfoldable pub fetch_issues_by_states :
    ℕ → Times → AssigneeFilter → Poll → List Text → Option (Result (List Issue))
unfolding fetch_pages
fetch_issues_by_states fuel times filter poll [] = some (ok [])
fetch_issues_by_states fuel times filter poll (state ∷ states) =
    fetch_pages fuel times filter poll none []

-- routingAssigneeFilter, with the answer to viewerQuery.
unfoldable pub routing_assignee_filter : Text → Result Text → Result AssigneeFilter
unfolding trim_space
routing_assignee_filter configured viewer =
    let assignee = trim_space configured in
    if text_eq assignee []
    then ok none
    else if text_eq assignee (codes "me")
    then elim viewer [
      | err e ↦ err e
      | ok id ↦
          if text_eq (trim_space id) []
          then err (codes "missing Linear viewer identity")
          else ok (some (trim_space id))
    ]
    else ok (some assignee)

-- FetchActiveIssues, with its answers.
unfoldable pub fetch_active_issues :
    ℕ → Times → Text → Result Text → Poll → List Text → Option (Result (List Issue))
unfolding routing_assignee_filter fetch_issues_by_states
fetch_active_issues fuel times configured viewer poll states =
    elim (routing_assignee_filter configured viewer) [
      | err e ↦ some (err e)
      | ok filter ↦ fetch_issues_by_states fuel times filter poll states
    ]
