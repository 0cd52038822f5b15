-- ===== src/Linear/Pages.antt =====
-- The loop of fetchIssuesByStates of internal/integration/linear/client.go against the pages of the server.
use symphony_go.Prelude.{
  ℕ, zero, suc, ◌≤◌, true, false, Text, Option, none, some, List, [], ◌∷◌, ◌++◌, Result, ok, err,
  ◌>>=◌, ◌≡◌, refl, sym, ap, ◌∙◌, arith,
}
use symphony_go.Domain.{Issue}
use symphony_go.Linear.{
  RawIssue, Page, Poll, Times, AssigneeFilter, normalize_issue, normalize_issues, fetch_pages,
  fetch_issues_by_states, missing_end_cursor,
}

-- What the server has behind a cursor: a number of answers, and the issues of all pages, or the error of
-- the first answer that is one or has a next page without a cursor.
pub data Serves (poll : Poll) : Option Text → ℕ → Result (List RawIssue) → Type 0 where
  last_page :
      (after : Option Text) (page : Page)
      → poll after ≡ ok page
      → page.has_next_page ≡ false
      → Serves poll after 1 (ok page.nodes)
  more_pages :
      (after : Option Text) (page : Page) (cursor : Text) (n : ℕ) (rest : Result (List RawIssue))
      → poll after ≡ ok page
      → page.has_next_page ≡ true
      → page.end_cursor ≡ some cursor
      → Serves poll (some cursor) n rest
      → Serves poll after (suc n) (rest >>= λ raws. ok (page.nodes ++ raws))
  no_answer : (after : Option Text) (e : Text) → poll after ≡ err e → Serves poll after 1 (err e)
  no_cursor :
      (after : Option Text) (page : Page)
      → poll after ≡ ok page
      → page.has_next_page ≡ true
      → page.end_cursor ≡ none
      → Serves poll after 1 (err missing_end_cursor)

append_assoc {ℓ} : {A : Type ℓ} (a b c : List A) → (a ++ b) ++ c ≡ a ++ (b ++ c)
append_assoc [] b c = refl
append_assoc (x ∷ a) b c = ap (λ t. x ∷ t) (append_assoc a b c)

normalize_issues-append :
    (times : Times) (filter : AssigneeFilter) (a b : List RawIssue)
    → normalize_issues times filter (a ++ b)
      ≡ normalize_issues times filter a ++ normalize_issues times filter b
unfolding normalize_issues
normalize_issues-append times filter [] b = refl
normalize_issues-append times filter (raw ∷ a) b =
    ap (λ t. normalize_issue times filter raw ∷ t) (normalize_issues-append times filter a b)

-- The issues so far with those that the server has.
abbrev pub gathered :
    Times → AssigneeFilter → List Issue → Result (List RawIssue) → Result (List Issue)
gathered times filter issues served =
    served >>= λ raws. ok (issues ++ normalize_issues times filter raws)

gathered-more :
    (times : Times) (filter : AssigneeFilter) (issues : List Issue) (nodes : List RawIssue)
    (rest : Result (List RawIssue))
    → gathered times filter (issues ++ normalize_issues times filter nodes) rest
      ≡ gathered times filter issues (rest >>= λ raws. ok (nodes ++ raws))
gathered-more times filter issues nodes (err e) = refl
gathered-more times filter issues nodes (ok raws) = ap ok (
    append_assoc issues (normalize_issues times filter nodes) (normalize_issues times filter raws)
    ∙ ap (λ t. issues ++ t) (sym (normalize_issues-append times filter nodes raws)))

Serves-positive :
    (poll : Poll) (after : Option Text) (n : ℕ) (served : Result (List RawIssue))
    → Serves poll after n served
    → 1 ≤ n
Serves-positive poll after n served (last_page _ page e done) = omega arith
Serves-positive poll after n served (no_answer _ code e) = omega arith
Serves-positive poll after n served (no_cursor _ page e more missing) = omega arith
Serves-positive poll after n served (more_pages _ page cursor m rest e more found s) = omega arith

fetch_pages-Serves :
    (fuel : ℕ) (times : Times) (filter : AssigneeFilter) (poll : Poll) (after : Option Text)
    (issues : List Issue) (n : ℕ) (served : Result (List RawIssue))
    → Serves poll after n served
    → n ≤ fuel
    → fetch_pages fuel times filter poll after issues ≡ some (gathered times filter issues served)
unfolding fetch_pages
fetch_pages-Serves zero times filter poll after issues n served s enough =
    absurd (omega (arith, Serves-positive poll after n served s, enough))
fetch_pages-Serves (suc fuel) times filter poll after issues n served (last_page _ page e done)
      enough =
    rw (fetch_pages, e, done) refl
fetch_pages-Serves (suc fuel) times filter poll after issues n served (no_answer _ code e) enough =
    rw (fetch_pages, e) refl
fetch_pages-Serves (suc fuel) times filter poll after issues n served
      (no_cursor _ page e more missing) enough =
    rw (fetch_pages, e, more, missing) refl
fetch_pages-Serves (suc fuel) times filter poll after issues n served
      (more_pages _ page cursor m rest e more found s) enough =
    rw (fetch_pages, e, more, found)
      (fetch_pages-Serves fuel times filter poll (some cursor)
          (issues ++ normalize_issues times filter page.nodes) m rest s (omega (arith, enough))
        ∙ ap some (gathered-more times filter issues page.nodes rest))

-- If the server has n pages, the fetch with fuel for n of them returns every issue of every page, normalised,
-- in the order of the pages; if one of its answers is an error, or has a next page without a cursor, the
-- fetch returns that error and no issues.
pub fetch_issues_by_states-Serves :
    (fuel : ℕ) (times : Times) (filter : AssigneeFilter) (poll : Poll) (state : Text)
    (states : List Text) (n : ℕ) (served : Result (List RawIssue))
    → Serves poll none n served
    → n ≤ fuel
    → fetch_issues_by_states fuel times filter poll (state ∷ states)
      ≡ some (served >>= λ raws. ok (normalize_issues times filter raws))
unfolding fetch_issues_by_states
fetch_issues_by_states-Serves fuel times filter poll state states n served s enough =
    fetch_pages-Serves fuel times filter poll none [] n served s enough
