-- ===== src/Runner/Exchange/Thread/Opened.antt =====
-- What a session of internal/service/codex/runner.go has said and heard when it is open.
use symphony_go.Prelude.{
  Bool, true, false, Text, codes, text_eq, trim_space, if◌then◌else◌, List, [], ◌∷◌, ◌++◌, ok, ◌≡◌,
  refl, sym, ap, ◌∙◌, subst, arith,
}
use symphony_go.Observability.{Fields, get_field, object_or_nil, string_or_empty}
use symphony_go.Runner.Exchange.{
  Incoming, Exchange, Writes, call, and_then, initialize, initialize_request, initialized_note,
  identified,
}
use symphony_go.Runner.Exchange.Responses.{Responds, call-Responds, notify-sent, and_then-ok}
use symphony_go.Runner.Exchange.Thread.{
  Policy, start_request, resume_request, start_thread, resume_thread, start_or_resume_thread,
  open_session,
}

abbrev pub thread_request : Policy → Text → Text → Fields
thread_request p cwd resume_thread_id =
    if text_eq (trim_space resume_thread_id) []
    then start_request p cwd
    else resume_request p cwd (trim_space resume_thread_id)

-- The identifier that a response gives to a thread.
abbrev pub thread_of : Fields → Text
thread_of fields =
    string_or_empty (get_field (codes "id") (object_or_nil (get_field (codes "thread") fields)))

identified-is :
    (fields : Fields) (lines : List Incoming) (id : Text)
    → (identified (codes "thread") fields lines).result ≡ ok id
    → (id ≡ thread_of fields) × (text_eq id [] ≡ false)
unfolding identified
identified-is fields lines id h = (grind (arith, h), grind (arith, h))

identified-quiet :
    (fields : Fields) (lines : List Incoming)
    → ((identified (codes "thread") fields lines).sent ≡ [])
      × ((identified (codes "thread") fields lines).rest ≡ lines)
unfolding identified
identified-quiet fields lines = (refl, refl)

-- A request for a thread and the thread of its response.
abbrev Started : Fields → List Incoming → Text → Exchange Text → Type 0
Started request lines id x =
    (fields : Fields) × Responds 2 lines fields x.rest
    × (id ≡ thread_of fields)
    × (text_eq id [] ≡ false)
    × (x.sent ≡ request ∷ [])

thread-Started :
    (writes : Writes) (request : Fields) (lines : List Incoming) (id : Text)
    → (and_then (call writes 2 request lines) (identified (codes "thread"))).result ≡ ok id
    → Started request lines id
        (and_then (call writes 2 request lines) (identified (codes "thread")))
thread-Started writes request lines id h =
    let asked = call writes 2 request lines in
    let (fields, called, named, sent, rest) =
      and_then-ok asked (identified (codes "thread")) id h in
    let (request_sent, responds) = call-Responds writes 2 request lines fields called in
    let (is, filled) = identified-is fields asked.rest id named in
    let (nothing, same) = identified-quiet fields asked.rest in
    (
      fields,
      subst (Responds 2 lines fields) (sym (rest ∙ same)) responds,
      is,
      filled,
      sent ∙ (ap (λ more. asked.sent ++ more) nothing ∙ ap (λ first. first ++ []) request_sent),
    )

start_case :
    (writes : Writes) (p : Policy) (cwd resume_thread_id : Text) (lines : List Incoming) (id : Text)
    (blank : Bool)
    → (if blank
        then start_thread writes p cwd lines
        else resume_thread writes p cwd (trim_space resume_thread_id) lines).result
      ≡ ok id
    → Started
        (if blank then start_request p cwd else resume_request p cwd (trim_space resume_thread_id))
        lines
        id
        (if blank
          then start_thread writes p cwd lines
          else resume_thread writes p cwd (trim_space resume_thread_id) lines)
unfolding start_thread resume_thread
start_case writes p cwd resume_thread_id lines id true h =
    thread-Started writes (start_request p cwd) lines id h
start_case writes p cwd resume_thread_id lines id false h =
    thread-Started writes (resume_request p cwd (trim_space resume_thread_id)) lines id h

start_or_resume-Started :
    (writes : Writes) (p : Policy) (cwd resume_thread_id : Text) (lines : List Incoming) (id : Text)
    → (start_or_resume_thread writes p cwd resume_thread_id lines).result ≡ ok id
    → Started
        (thread_request p cwd resume_thread_id)
        lines
        id
        (start_or_resume_thread writes p cwd resume_thread_id lines)
unfolding start_or_resume_thread
start_or_resume-Started writes p cwd resume_thread_id lines id h =
    start_case writes p cwd resume_thread_id lines id (text_eq (trim_space resume_thread_id) []) h

both : {a b c d : List Fields} → a ≡ c → b ≡ d → a ++ b ≡ c ++ d
both e f = rw (e, f) refl

initialize-said :
    (writes : Writes) (lines : List Incoming)
    → (initialize writes lines).result ≡ ok tt
    → (greeting : Fields) × ((initialize writes lines).sent
        ≡ initialize_request ∷ initialized_note ∷ [])
      × Responds 1 lines greeting (initialize writes lines).rest
unfolding initialize
initialize-said writes lines h =
    let asked = call writes 1 initialize_request lines in
    let (greeting, called, noted, sent, rest) = and_then-ok asked _ tt h in
    let (request_sent, responds) =
      call-Responds writes 1 initialize_request lines greeting called in
    let (note_sent, note_rest) = notify-sent writes initialized_note asked.rest noted in
    (
      greeting,
      sent ∙ both request_sent note_sent,
      subst (Responds 1 lines greeting) (sym (rest ∙ note_rest)) responds,
    )

-- A session that opens has sent three messages, initialize, initialized, and a request for a thread, which
-- resumes one where an identifier is given that is not blank. It went on only behind the response to the
-- first request and the response to the last, each of them the first message with the number of its
-- request; and its thread, which is not empty, is the one that the last response names.
pub open_session-Opened :
    (writes : Writes) (p : Policy) (cwd resume_thread_id : Text) (lines : List Incoming) (id : Text)
    → (open_session writes p cwd resume_thread_id lines).result ≡ ok id
    → let x = open_session writes p cwd resume_thread_id lines in
      (x.sent ≡ initialize_request ∷ initialized_note ∷ thread_request p cwd resume_thread_id ∷ [])
      × ((greeting : Fields) × (more : List Incoming) × (fields : Fields) × Responds 1 lines
            greeting more
          × Responds 2 more fields x.rest
          × (id ≡ thread_of fields)
          × (text_eq id [] ≡ false))
unfolding open_session
open_session-Opened writes p cwd resume_thread_id lines id h =
    let hello = initialize writes lines in
    let (_, greeted, started, sent, rest) = and_then-ok hello _ id h in
    let (greeting, said, greeting_at) = initialize-said writes lines greeted in
    let (fields, responds, is, filled, asked) =
      start_or_resume-Started writes p cwd resume_thread_id hello.rest id started in
    (
      sent ∙ both said asked,
      (
        greeting,
        hello.rest,
        fields,
        greeting_at,
        subst (Responds 2 hello.rest fields) (sym rest) responds,
        is,
        filled,
      ),
    )
