-- ===== src/Runner/Commands.antt =====
-- CommandKind, commandText and changedFileCount of internal/service/codex/runner.go: what a command that
-- Codex ran is for, and which files a change touches.
use symphony_go.Prelude.{
  ℕ, ◌==◌, Bool, ◌&&◌, ◌||◌, Text, codes, text_eq, trim_space, has_prefix, any, if◌then◌else◌,
  Option, some, List, [], ◌∷◌, ◌++◌, length,
}
use symphony_go.Observability.{
  Json, arr, Items, nil, cons, Fields, get_field, object_or_nil, string_or_empty,
}
use mathlib.Core.List.{reverse}

pub data Kind : Type 0 where
  search read test build git other : Kind

drop_text : Text → Text → Text
drop_text [] s = s
drop_text (p ∷ ps) [] = []
drop_text (p ∷ ps) (c ∷ s) = drop_text ps s

-- strings.TrimSpace(strings.TrimPrefix(s, prefix)) for the first of the prefixes that s has
trim_wrapper : List Text → Text → Text
unfolding drop_text
trim_wrapper [] s = s
trim_wrapper (prefix ∷ prefixes) s =
    let rest = trim_wrapper prefixes s in
    if has_prefix s prefix then trim_space (drop_text prefix s) else rest

abbrev wrappers : List Text
wrappers = codes "/bin/zsh -lc " ∷ codes "bash -lc " ∷ codes "/bin/bash -lc " ∷ []

abbrev quote : ℕ
quote = 39

-- The text between its first and its last character, where both are the same quotation mark.
strip_quotes : Text → Text
strip_quotes [] = []
strip_quotes (c ∷ s) = elim (reverse s) [
  | [] ↦ c ∷ s
  | last ∷ middle ↦
      if (c == quote && last == quote) || (c == b'"' && last == b'"') then reverse middle else c ∷ s
]

unfoldable pub strip_shell_wrapper : Text → Text
unfolding trim_wrapper strip_quotes
strip_shell_wrapper command = strip_quotes (trim_wrapper wrappers (trim_space command))

-- `strings.HasPrefix(command, name+" ") || command == name` for one of the names
runs : Text → List Text → Bool
unfolding any
runs command = any (λ name. has_prefix command (name ++ codes " ") || text_eq command name)

begins : Text → List Text → Bool
unfolding any
begins command = any (has_prefix command)

abbrev searching : List Text
searching = codes "rg" ∷ codes "grep" ∷ codes "find" ∷ []

abbrev reading : List Text
reading = codes "sed" ∷ codes "cat" ∷ codes "nl" ∷ codes "head" ∷ codes "tail" ∷ codes "ls" ∷ []

abbrev testing : List Text
testing = codes "./test.sh" ∷ codes "go test" ∷ codes "npm test" ∷ codes "pytest" ∷ []

abbrev building : List Text
building = codes "./build.sh" ∷ codes "go build" ∷ codes "npm run build" ∷ []

kind_of : Text → Kind
unfolding runs begins
kind_of command =
    if runs command searching
    then search
    else if runs command reading
    then read
    else if begins command testing
    then test
    else if begins command building
    then build
    else if runs command (codes "git" ∷ [])
    then git
    else other

unfoldable pub command_kind : Text → Kind
unfolding kind_of strip_shell_wrapper
command_kind command = kind_of (trim_space (strip_shell_wrapper command))

-- The first command of the actions that is not empty.
action_command : Items → Text
unfolding get_field string_or_empty object_or_nil
action_command nil = []
action_command (cons action actions) =
    let rest = action_command actions in
    let command = string_or_empty (get_field (codes "command") (object_or_nil (some action))) in
    if text_eq command [] then rest else command

-- `items, _ := v.([]any)`
unfoldable pub items_or_nil : Option Json → Items
items_or_nil (some (arr items)) = items
items_or_nil _ = nil

unfoldable pub command_text : Fields → Text
unfolding action_command items_or_nil
command_text item =
    let command = action_command (items_or_nil (get_field (codes "commandActions") item)) in
    if text_eq command [] then string_or_empty (get_field (codes "command") item) else command

changed_paths : Items → List Text → List Text
unfolding any get_field string_or_empty object_or_nil
changed_paths nil seen = seen
changed_paths (cons change changes) seen =
    let path = string_or_empty (get_field (codes "path") (object_or_nil (some change))) in
    changed_paths changes (if text_eq path [] || any (text_eq path) seen then seen else path ∷ seen)

unfoldable pub changed_file_count : Fields → ℕ
unfolding changed_paths items_or_nil
changed_file_count item =
    length (changed_paths (items_or_nil (get_field (codes "changes") item)) [])
