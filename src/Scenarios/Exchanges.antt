-- ===== src/Scenarios/Exchanges.antt =====
-- A session that opens behind a line that is no JSON, a turn in which a tool is called, a workspace whose
-- path has a quotation mark, and a host with a port.
use symphony_go.Prelude.{
  ℕ, ◌≡◌, refl, true, false, Text, codes, text_eq, trim_space, pos, List, [], ◌∷◌, ◌++◌, ok, none,
  some,
}
use symphony_go.Observability.{
  str, num, obj, nil, Fields, end, field, get_field, as_int, as_object, object_or_nil,
  string_or_empty,
}
use symphony_go.Runner.Stats.{no_stats}
use symphony_go.Runner.Exchange.{
  Incoming, message, garbage, broken, Writes, initialize_request, initialized_note, is_response_to,
  response_result, initialize, call, notify, await_response, identified,
}
use symphony_go.Runner.Exchange.Responses.{Responds}
use symphony_go.Runner.Exchange.Thread.{
  Policy, open_session, start_or_resume_thread, start_thread, resume_thread,
}
use symphony_go.Runner.Exchange.Thread.Opened.{thread_request, thread_of, open_session-Opened}
use symphony_go.Runner.Exchange.Turn.{Execute, await_turn}
use symphony_go.Runner.Exchange.Turn.Answers.{Accounted, await_turn-Accounted}
use symphony_go.Ssh.{remote_shell_command, remote_launch_command, parse_target}
use symphony_go.Ssh.Words.{read_words, remote_shell_command-words}
use symphony_go.Ssh.Targets.{Parsed, parse_target-Parsed}

abbrev response : ℕ → Fields → Incoming
response id result =
    message (field (codes "id") (num (pos id)) (field (codes "result") (obj result) end))

abbrev named : Text → Fields
named name = field (codes "thread") (obj (field (codes "id") (str name) end)) end

abbrev writes : Writes
writes _ = true

abbrev policy : Policy
policy = record { approval_policy = str (codes "never"); thread_sandbox = []; tool_specs = nil }

abbrev lines : List Incoming
lines = garbage ∷ response 1 end ∷ response 7 end ∷ response 2 (named (codes "th1")) ∷ []

opened : (open_session writes policy (codes "/w") (codes " th1 ") lines).result ≡ ok (codes "th1")
unfolding open_session initialize call notify await_response is_response_to response_result
    identified start_or_resume_thread start_thread resume_thread get_field as_int as_object
    object_or_nil string_or_empty text_eq trim_space
opened = refl

open_session-Opened_example :
    ((open_session writes policy (codes "/w") (codes " th1 ") lines).sent
      ≡ initialize_request
        ∷ initialized_note
        ∷ thread_request policy (codes "/w") (codes " th1 ")
        ∷ [])
    × ((greeting : Fields) × (more : List Incoming) × (fields : Fields) × Responds 1 lines greeting
          more
        × Responds 2 more fields
            (open_session writes policy (codes "/w") (codes " th1 ") lines).rest
        × (codes "th1" ≡ thread_of fields)
        × (text_eq (codes "th1") [] ≡ false))
open_session-Opened_example =
    open_session-Opened writes policy (codes "/w") (codes " th1 ") lines (codes "th1") opened

abbrev execute : Execute
execute name arguments = str name

abbrev turn : List Incoming
turn =
    message (
      field (codes "method") (str (codes "item/tool/call")) (
        field (codes "id") (num (pos 9)) (
          field (codes "params") (obj (field (codes "tool") (str (codes "linear_graphql")) end))
            end)))
    ∷ message (field (codes "method") (str (codes "turn/completed")) end)
    ∷ broken (codes "EOF")
    ∷ []

await_turn-Accounted_example : Accounted execute no_stats (await_turn writes execute turn no_stats)
await_turn-Accounted_example = await_turn-Accounted writes execute (λ _. refl) turn no_stats

remote_shell_command-words_example :
    (read_words 4 (remote_shell_command (codes "echo 'a b' > $HOME/x"))
      ≡ some (codes "bash" ∷ codes "-lc" ∷ codes "echo 'a b' > $HOME/x" ∷ [], none))
    × (read_words 2
          (remote_launch_command (codes "/tmp/a'; rm -rf $HOME '") (codes "echo 'a b' > $HOME/x"))
        ≡ some (
          codes "cd" ∷ codes "/tmp/a'; rm -rf $HOME '" ∷ [],
          some (codes "&& exec " ++ codes "echo 'a b' > $HOME/x"),
        ))
remote_shell_command-words_example =
    remote_shell_command-words (codes "/tmp/a'; rm -rf $HOME '") (codes "echo 'a b' > $HOME/x")

parse_target-Parsed_example :
    Parsed (trim_space (codes " dev@host:2222 ")) (parse_target (codes " dev@host:2222 "))
parse_target-Parsed_example = parse_target-Parsed (codes " dev@host:2222 ")
