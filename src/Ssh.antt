-- ===== src/Ssh.antt =====
-- internal/service/ssh/ssh.go, and the remote commands of internal/service/codex/runner.go: where a
-- remote worker is reached and which command line it is given. Running ssh is not modelled.
pub mod Words
pub mod Targets
use symphony_go.Prelude.{
  ℕ, leb, ◌==◌, Bool, true, false, not, ◌&&◌, ◌||◌, Text, codes, text_eq, trim_space, any, all,
  if◌then◌else◌, Option, none, some, List, [], ◌∷◌, ◌++◌,
}

abbrev pub quote : ℕ
quote = 39

abbrev pub colon : ℕ
colon = 58

-- `strings.ReplaceAll(value, "'", "'\"'\"'")`
unfoldable pub replace_quotes : Text → Text
replace_quotes [] = []
replace_quotes (c ∷ value) =
    let rest = replace_quotes value in
    if c == quote then quote ∷ b'"' ∷ quote ∷ b'"' ∷ quote ∷ rest else c ∷ rest

unfoldable pub shell_escape : Text → Text
unfolding replace_quotes
shell_escape value = quote ∷ (replace_quotes value ++ (quote ∷ []))

unfoldable pub remote_shell_command : Text → Text
unfolding shell_escape
remote_shell_command command = codes "bash -lc " ++ shell_escape command

unfoldable pub remote_launch_command : Text → Text → Text
unfolding shell_escape
remote_launch_command workspace_path command =
    codes "cd " ++ (shell_escape workspace_path ++ (codes " && exec " ++ command))

-- True where validateRemoteWorkspacePath returns nil.
unfoldable pub validate_remote_workspace_path : Text → Bool
unfolding any
validate_remote_workspace_path path =
    not (text_eq (trim_space path) []) && not (any (λ c. c == 10 || c == 13 || c == 0) path)

-- The text before the last colon and behind it.
unfoldable pub last_colon : Text → Option (Text × Text)
last_colon [] = none
last_colon (c ∷ s) = elim (last_colon s) [
  | some (before, behind) ↦ some (c ∷ before, behind)
  | none ↦ if c == colon then some ([], s) else none
]

abbrev pub is_digit : ℕ → Bool
is_digit c = leb b'0' c && leb c b'9'

-- hostPortPattern, `^(.*):(\d+)$`: the last colon, since `.*` takes what it can, on one line.
unfoldable pub host_port : Text → Option (Text × Text)
unfolding last_colon any all
host_port s = elim (last_colon s) [
  | none ↦ none
  | some (before, behind) ↦
      if not (any (λ c. c == 10) before) && not (text_eq behind []) && all is_digit behind
      then some (before, behind)
      else none
]

unfoldable pub bracketed_host : Text → Bool
unfolding any
bracketed_host destination = any (λ c. c == b'[') destination && any (λ c. c == b']') destination

unfoldable pub valid_port_destination : Text → Bool
unfolding any bracketed_host
valid_port_destination destination =
    not (text_eq destination [])
    && (not (any (λ c. c == colon) destination) || bracketed_host destination)

pub record Target : Type 0 where
  pub destination : Text
  pub port : Text

-- ParseTarget of what hostPortPattern finds in the trimmed text.
unfoldable pub target_of : Text → Option (Text × Text) → Target
unfolding valid_port_destination
target_of trimmed none = record { destination = trimmed; port = [] }
target_of trimmed (some (destination, port)) =
    if valid_port_destination destination
    then record { destination = destination; port = port }
    else record { destination = trimmed; port = [] }

unfoldable pub parse_target : Text → Target
unfolding target_of host_port
parse_target target = target_of (trim_space target) (host_port (trim_space target))

abbrev option : Text → Text → List Text
option flag value = if text_eq value [] then [] else flag ∷ value ∷ []

-- The first argument is the value of SYMPHONY_SSH_CONFIG.
unfoldable pub args : Text → Text → Text → List Text
unfolding parse_target remote_shell_command
args config host command =
    let target = parse_target host in
    option (codes "-F") (trim_space config)
    ++ (codes "-T"
        ∷ (option (codes "-p") target.port
            ++ (target.destination ∷ remote_shell_command command ∷ [])))
