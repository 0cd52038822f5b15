-- ===== src/Scenarios/Tracker.antt =====
-- Linear with two pages, an assignee filter, and an issue with a remark and the workpad.
use symphony_go.Prelude.{
  ◌<◌, ◌≡◌, refl, sym, ap, subst, ◌∙◌, true, Bool, Text, codes, text_eq, text_eq_iff, ℕ, In, inl,
  inr, ◌⊎◌, contains, has_prefix, trim_space, equal_fold, any, count_if, lookup, has_key, false,
  pos, none, some, List, [], ◌∷◌, map, length, All, Result, ok, ◌>>=◌, if◌then◌else◌, if_case,
  arith,
}
use symphony_go.Domain.{Issue}
use symphony_go.Eligibility.{
  EligibilityState, eligible, candidate_eligible, routed_elsewhere, has_open_blocker, blockers,
  lacks_required_field, state_name_in, in_human_review, is_claimed, available_slots_for_state,
  state_limit, running_in_state,
}
use symphony_go.Linear.{
  RawIssue, Page, Poll, Times, normalize_issue, normalize_issues, fetch_issues_by_states,
  fetch_active_issues, routing_assignee_filter, fetch_pages, assigned_to, blocking,
}
use symphony_go.Linear.Pages.{Serves, last_page, more_pages, fetch_issues_by_states-Serves}
use symphony_go.Linear.Routing.{ForThisWorker, fetch_active_issues-ForThisWorker}
use symphony_go.Linear.Workpad.{
  Comment, CommentApi, heading, first_workpad, find_workpad_comment, update_comment, upsert_workpad,
  confirmed, upsert_found,
}
use symphony_go.Linear.Workpad.Kept.{
  IsDocumented, Named, IsWorkpad, OneWorkpad, Keeps, upsert_workpad-again,
}

abbrev raw_of : Text → RawIssue
raw_of id = record {
  id = id;
  identifier = id;
  title = codes "t";
  description = [];
  priority = some (pos 1);
  state_name = codes "Todo";
  assignee_id = codes "dev";
  branch_name = [];
  url = [];
  labels = codes "Bug" ∷ [] ∷ [];
  inverse_relations = [];
  created_at = [];
  updated_at = [];
}

abbrev first : Page
first = record {
  nodes = raw_of (codes "A-1") ∷ [];
  has_next_page = true;
  end_cursor = some (codes "c");
}

abbrev second : Page
second = record { nodes = raw_of (codes "A-2") ∷ []; has_next_page = false; end_cursor = none }

abbrev poll : Poll
poll none = ok first
poll (some cursor) = ok second

abbrev times : Times
times _ = none

serves : Serves poll none 2 (ok (raw_of (codes "A-1") ∷ raw_of (codes "A-2") ∷ []))
serves =
    more_pages none first (codes "c") 1 (ok second.nodes) refl refl refl
      (last_page (some (codes "c")) second refl refl)

fetch_issues_by_states-Serves_example :
    fetch_issues_by_states 5 times none poll (codes "Todo" ∷ [])
    ≡ some (
        ok (raw_of (codes "A-1") ∷ raw_of (codes "A-2") ∷ []) >>= λ raws.
        ok (normalize_issues times none raws))
fetch_issues_by_states-Serves_example =
    fetch_issues_by_states-Serves 5 times none poll (codes "Todo") [] 2
      (ok (raw_of (codes "A-1") ∷ raw_of (codes "A-2") ∷ [])) serves (omega arith)

abbrev fetched_issues : List Issue
fetched_issues =
    normalize_issue times (some (codes "dev")) (raw_of (codes "A-1"))
    ∷ normalize_issue times (some (codes "dev")) (raw_of (codes "A-2"))
    ∷ []

abbrev idle : EligibilityState
idle = record {
  active_states = codes "Todo" ∷ [];
  terminal_states = codes "Done" ∷ [];
  claimed = [];
  running = [];
  max_concurrent = 2;
  per_state = [];
  ai_review = false;
}

fetched_all :
    fetch_active_issues 5 times (codes " dev ") (ok (codes "viewer")) poll (codes "Todo" ∷ [])
    ≡ some (ok fetched_issues)
unfolding fetch_active_issues routing_assignee_filter fetch_issues_by_states fetch_pages
    normalize_issues trim_space text_eq
fetched_all = refl

accepted :
    candidate_eligible (normalize_issue times (some (codes "dev")) (raw_of (codes "A-2"))) idle
    ≡ eligible
unfolding candidate_eligible normalize_issue assigned_to blocking has_open_blocker has_key lookup
    any text_eq trim_space equal_fold lacks_required_field state_name_in in_human_review
    routed_elsewhere is_claimed available_slots_for_state state_limit running_in_state count_if
    blockers
accepted = refl

fetch_active_issues-ForThisWorker_example :
    ForThisWorker
      (codes " dev ")
      (ok (codes "viewer"))
      (normalize_issue times (some (codes "dev")) (raw_of (codes "A-2")))
fetch_active_issues-ForThisWorker_example =
    fetch_active_issues-ForThisWorker 5 times (codes " dev ") (ok (codes "viewer")) poll
      (codes "Todo" ∷ []) fetched_issues
      (normalize_issue times (some (codes "dev")) (raw_of (codes "A-2"))) idle fetched_all
      (inr (inl refl)) accepted

-- The comments of the one issue by their numbers. A new comment comes first.
abbrev Store : Type 0
Store = List (ℕ × Text)

shown : ℕ × Text → Comment
shown (n, text) = record { id = n ∷ []; body = text }

listed_in : Store → Text → Result (List Comment)
unfolding shown
listed_in s issue_id = ok (map shown s)

create_in : Store → Text → Text → Store × Result Bool
create_in s issue_id text = ((length s, text) ∷ s, ok true)

change : Text → Text → ℕ × Text → ℕ × Text
change id text (n, old) = if text_eq (n ∷ []) id then (n, text) else (n, old)

update_in : Store → Text → Text → Store × Result Bool
unfolding change
update_in s id text = (map (change id text) s, ok true)

abbrev api : CommentApi Store
api = record { comments = listed_in; create = create_in; update = update_in }

ok_eq : {a b : List Comment} → ok a ≡ ok b → a ≡ b
ok_eq h = cc

shown-Named : (s : Store) → All Named (map shown s)
unfolding shown text_eq
shown-Named [] = tt
shown-Named ((n, text) ∷ s) = (refl, shown-Named s)

names_of :
    (s : Store) (issue_id : Text) (listed : List Comment)
    → listed_in s issue_id ≡ ok listed
    → All Named listed
unfolding listed_in
names_of s issue_id listed h = subst (All Named) (ok_eq h) (shown-Named s)

abbrev Creation : Store → Text → Text → List Comment → Type 0
Creation now issue_id text listed =
    (then_listed : List Comment) × (listed_in now issue_id ≡ ok then_listed)
    × (created : Comment) × In created then_listed
    × (contains text heading ≡ true → IsWorkpad created)
    × ((comment : Comment) → In comment then_listed → (comment ≡ created) ⊎ In comment listed)

creates_of :
    (s now : Store) (issue_id text : Text) (listed : List Comment)
    → create_in s issue_id text ≡ (now, ok true)
    → listed_in s issue_id ≡ ok listed
    → length listed < 50
    → Creation now issue_id text listed
unfolding create_in listed_in shown
creates_of s now issue_id text listed h known short =
    subst (λ n. Creation n issue_id text listed) (ap (λ p. p.0) h)
      (subst (Creation ((length s, text) ∷ s) issue_id text) (ok_eq known) (
        map shown ((length s, text) ∷ s),
        refl,
        shown (length s, text),
        inl refl,
        λ with_heading. with_heading,
        λ comment among. among,
      ))

abbrev Update : Store → Text → Text → Text → List Comment → Type 0
Update now issue_id id text listed =
    (then_listed : List Comment) × (listed_in now issue_id ≡ ok then_listed)
    × ((comment : Comment) → In comment then_listed → (comment.id ≡ id) ⊎ In comment listed)
    × ((comment : Comment)
        → In comment listed
        → comment.id ≡ id
        → (updated : Comment) × In updated then_listed
          × (updated.id ≡ id)
          × (contains text heading ≡ true → IsWorkpad updated))

change-cases :
    (id text : Text) (p : ℕ × Text) → ((shown (change id text p)).id ≡ id) ⊎ (change id text p ≡ p)
unfolding shown change
change-cases id text (n, old) =
    if_case (λ (q : ℕ × Text). ((shown q).id ≡ id) ⊎ (q ≡ (n, old))) (text_eq (n ∷ []) id)
      (λ same. inl ((text_eq_iff (n ∷ []) id).0 same)) (λ _. inr refl)

changed_origin :
    (s : Store) (id text : Text) (comment : Comment)
    → In comment (map shown (map (change id text) s))
    → (comment.id ≡ id) ⊎ In comment (map shown s)
changed_origin [] id text comment among = absurd among
changed_origin (p ∷ s) id text comment (inl same) = elim (change-cases id text p) [
  | inl here ↦ inl (ap (λ x. x.id) same ∙ here)
  | inr kept ↦ inr (inl (same ∙ ap shown kept))
]
changed_origin (p ∷ s) id text comment (inr later) = elim (changed_origin s id text comment later) [
  | inl here ↦ inl here
  | inr there ↦ inr (inr there)
]

changed_still :
    (s : Store) (id text : Text) (comment : Comment)
    → In comment (map shown s)
    → comment.id ≡ id
    → (updated : Comment) × In updated (map shown (map (change id text) s))
      × (updated.id ≡ id)
      × (contains text heading ≡ true → IsWorkpad updated)
unfolding shown change
changed_still [] id text comment among is = absurd among
changed_still ((n, old) ∷ s) id text comment (inl same) is =
    let named : n ∷ [] ≡ id = sym (ap (λ x. x.id) same) ∙ is in
    (
      shown (n, text),
      inl (rw ((text_eq_iff (n ∷ []) id).1 named) refl),
      named,
      λ with_heading. with_heading,
    )
changed_still (p ∷ s) id text comment (inr later) is =
    let (updated, among, same_id, keeps) = changed_still s id text comment later is in
    (updated, inr among, same_id, keeps)

updates_of :
    (s now : Store) (issue_id id text : Text) (listed : List Comment)
    → update_in s id text ≡ (now, ok true)
    → listed_in s issue_id ≡ ok listed
    → length listed < 50
    → Update now issue_id id text listed
unfolding update_in listed_in
updates_of s now issue_id id text listed h known short =
    subst (λ n. Update n issue_id id text listed) (ap (λ p. p.0) h)
      (subst (Update (map (change id text) s) issue_id id text) (ok_eq known) (
        map shown (map (change id text) s),
        refl,
        changed_origin s id text,
        changed_still s id text,
      ))

documented : IsDocumented api
documented = record { names = names_of; creates = creates_of; updates = updates_of }

abbrev before : Store
before = (1, codes "Please hurry.") ∷ (0, codes "## Codex Workpad") ∷ []

abbrev body : Text
body = codes "## Codex Workpad: done"

abbrev after : Store
after = (1, codes "Please hurry.") ∷ (0, body) ∷ []

abbrev comments : List Comment
comments =
    record { id = 1 ∷ []; body = codes "Please hurry." }
    ∷ record { id = 0 ∷ []; body = codes "## Codex Workpad" }
    ∷ []

with_heading : contains body heading ≡ true
unfolding contains has_prefix
with_heading = refl

known : listed_in before (codes "A-1") ≡ ok comments
unfolding listed_in shown
known = refl

short : length comments < 50
short = omega arith

remark : contains (codes "Please hurry.") heading ≡ false
unfolding contains has_prefix
remark = refl

one_workpad : OneWorkpad comments
one_workpad a b (inl same) b_in a_is b_is =
    let wrong : true ≡ false = sym a_is ∙ (ap (λ x. contains x.body heading) same ∙ remark) in cc
one_workpad a b (inr (inl a_same)) (inl same) a_is b_is =
    let wrong : true ≡ false = sym b_is ∙ (ap (λ x. contains x.body heading) same ∙ remark) in cc
one_workpad a b (inr (inl a_same)) (inr (inl b_same)) a_is b_is =
    ap (λ x. x.id) (a_same ∙ sym b_same)
one_workpad a b (inr (inl a_same)) (inr (inr none_left)) a_is b_is = absurd none_left
one_workpad a b (inr (inr none_left)) b_in a_is b_is = absurd none_left

upserted : upsert_workpad api before (codes "A-1") body ≡ (after, ok tt)
unfolding upsert_workpad upsert_found find_workpad_comment update_comment confirmed first_workpad
    contains has_prefix listed_in update_in change shown text_eq
upserted = refl

upsert_workpad-again_example :
    (id : Text) × ((first_workpad comments ≡ []) ⊎ (first_workpad comments ≡ id))
    × Keeps api documented after (codes "A-1") id
    × (upsert_workpad api after (codes "A-1") [] ≡ update_comment api after id [])
upsert_workpad-again_example =
    upsert_workpad-again api documented before after (codes "A-1") body [] comments with_heading
      known short one_workpad upserted
