-- ===== src/Linear/Routing.antt =====
-- The assignee filter of internal/integration/linear/client.go (routingAssigneeFilter, normalizeIssue) together
-- with the test of the orchestrator (candidateEligible of internal/service/orchestrator/eligibility.go).
use symphony_go.Prelude.{
  ℕ, zero, suc, true, false, Text, codes, text_eq, text_eq_iff, trim_space, Bool-cases, Option,
  none, some, Option-cases, List, [], ◌∷◌, ◌++◌, All, All-append, All-In, In, Result, ok, err, ◌≡◌,
  ◌≢◌, ◌⊎◌, refl, subst, arith, inl, inr,
}
use symphony_go.Domain.{Issue}
use symphony_go.Eligibility.{EligibilityState, eligible, candidate_eligible}
use symphony_go.Eligibility.Spec.{candidate_eligible_iff}
use symphony_go.Linear.{
  RawIssue, Times, AssigneeFilter, Poll, assigned_to, normalize_issue, normalize_issues,
  fetch_pages, fetch_issues_by_states, routing_assignee_filter, fetch_active_issues,
}

-- The assignee that a configuration names: itself, or the viewer of the API key for `me`.
abbrev pub Names : Text → Result Text → Text → Type 0
Names configured viewer assignee =
    ((trim_space configured ≢ codes "me") × (assignee ≡ trim_space configured))
    ⊎ ((trim_space configured ≡ codes "me")
        × (id : Text) × (viewer ≡ ok id)
        × (assignee ≡ trim_space id))

-- The issue is for anyone, as no assignee is configured, or it has the assignee that is.
abbrev pub ForThisWorker : Text → Result Text → Issue → Type 0
ForThisWorker configured viewer issue =
    (trim_space configured ≡ [])
    ⊎ ((issue.assignee_id ≢ []) × Names configured viewer issue.assignee_id)

abbrev Filtered : AssigneeFilter → Issue → Type 0
Filtered filter issue = issue.assigned_to_worker ≡ assigned_to filter issue.assignee_id

normalize_issues-Filtered :
    (times : Times) (filter : AssigneeFilter) (raws : List RawIssue)
    → All (Filtered filter) (normalize_issues times filter raws)
unfolding normalize_issues normalize_issue
normalize_issues-Filtered times filter [] = tt
normalize_issues-Filtered times filter (raw ∷ raws) =
    (refl, normalize_issues-Filtered times filter raws)

Result-cases :
    {A : Type 0} (r : Result A) → ((e : Text) × (r ≡ err e)) ⊎ ((value : A) × (r ≡ ok value))
Result-cases (err e) = inl (e, refl)
Result-cases (ok value) = inr (value, refl)

ok_issues : {a b : List Issue} → some (ok a) ≡ some (ok b) → a ≡ b
ok_issues h = cc

no_issues : {e : Text} {b : List Issue} → some (err e) ≡ some (ok b) → ⊥
no_issues h = cc

fetch_pages-Filtered :
    (fuel : ℕ) (times : Times) (filter : AssigneeFilter) (poll : Poll) (after : Option Text)
    (issues out : List Issue)
    → All (Filtered filter) issues
    → fetch_pages fuel times filter poll after issues ≡ some (ok out)
    → All (Filtered filter) out
unfolding fetch_pages
fetch_pages-Filtered zero times filter poll after issues out held found = cc
fetch_pages-Filtered (suc fuel) times filter poll after issues out held found =
    elim (Result-cases (poll after)) [
      | inl (e, is) ↦ absurd (no_issues (rw (fetch_pages, is) at found))
      | inr (page, is) ↦
          let all = issues ++ normalize_issues times filter page.nodes in
          let all_held =
            All-append (Filtered filter) issues (normalize_issues times filter page.nodes) held
              (normalize_issues-Filtered times filter page.nodes) in
          elim (Bool-cases page.has_next_page) [
            | inr last ↦
                subst (All (Filtered filter)) (ok_issues (rw (fetch_pages, is, last) at found))
                  all_held
            | inl more ↦ elim (Option-cases page.end_cursor) [
              | inl missing ↦ absurd (no_issues (rw (fetch_pages, is, more, missing) at found))
              | inr (cursor, there) ↦
                  fetch_pages-Filtered fuel times filter poll (some cursor) all out all_held
                    (rw (fetch_pages, is, more, there) at found)
            ]
          ]
    ]

fetch_issues-Filtered :
    (fuel : ℕ) (times : Times) (filter : AssigneeFilter) (poll : Poll) (states : List Text)
    (out : List Issue)
    → fetch_issues_by_states fuel times filter poll states ≡ some (ok out)
    → All (Filtered filter) out
unfolding fetch_issues_by_states
fetch_issues-Filtered fuel times filter poll [] out found =
    subst (All (Filtered filter)) (ok_issues found) tt
fetch_issues-Filtered fuel times filter poll (state ∷ states) out found =
    fetch_pages-Filtered fuel times filter poll none [] out tt found

-- A filter that lets an issue through names its assignee.
assigned_to-some :
    (value assignee : Text)
    → assigned_to (some value) assignee ≢ some false
    → (assignee ≢ []) × (assignee ≡ value)
unfolding assigned_to
assigned_to-some value assignee routed = elim (Bool-cases (text_eq assignee [])) [
  | inl empty ↦ absurd (routed (rw (assigned_to, empty) refl))
  | inr filled ↦ elim (Bool-cases (text_eq assignee value)) [
    | inl same ↦ (
      λ e. absurd (ground (arith, filled, (text_eq_iff assignee []).1 e)),
      (text_eq_iff assignee value).0 same,
    )
    | inr other ↦ absurd (routed (rw (assigned_to, filled, other) refl))
  ]
]

abbrev Means : Text → Result Text → AssigneeFilter → Type 0
Means configured viewer none = trim_space configured ≡ []
Means configured viewer (some value) =
    (assignee : Text) → assignee ≡ value → Names configured viewer assignee

Means-ForThisWorker :
    (configured : Text) (viewer : Result Text) (filter : AssigneeFilter) (issue : Issue)
    → Means configured viewer filter
    → Filtered filter issue
    → issue.assigned_to_worker ≢ some false
    → ForThisWorker configured viewer issue
Means-ForThisWorker configured viewer none issue means filtered routed = inl means
Means-ForThisWorker configured viewer (some value) issue means filtered routed =
    let (filled, same) = assigned_to-some value issue.assignee_id (λ e. routed (cc)) in
    inr (filled, means issue.assignee_id same)

the_filter : {a b : AssigneeFilter} → ok a ≡ ok b → a ≡ b
the_filter h = cc

no_filter : {e : Text} {b : AssigneeFilter} → err e ≡ ok b → ⊥
no_filter h = cc

viewer-Means :
    (configured : Text) (viewer : Result Text) (filter : AssigneeFilter)
    → text_eq (trim_space configured) [] ≡ false
    → text_eq (trim_space configured) (codes "me") ≡ true
    → routing_assignee_filter configured viewer ≡ ok filter
    → Means configured viewer filter
unfolding routing_assignee_filter
viewer-Means configured (err e) filter named me found =
    absurd (no_filter (rw (routing_assignee_filter, named, me) at found))
viewer-Means configured (ok id) filter named me found =
    elim (Bool-cases (text_eq (trim_space id) [])) [
      | inl empty ↦ absurd (no_filter (rw (routing_assignee_filter, named, me, empty) at found))
      | inr filled ↦
          let is : ok (some (trim_space id)) ≡ ok filter =
            rw (routing_assignee_filter, named, me, filled) at found in
          subst (Means configured (ok id)) (the_filter is) (λ assignee same.
            inr ((text_eq_iff (trim_space configured) (codes "me")).0 me, id, refl, same))
    ]

routing_assignee_filter-Means :
    (configured : Text) (viewer : Result Text) (filter : AssigneeFilter)
    → routing_assignee_filter configured viewer ≡ ok filter
    → Means configured viewer filter
unfolding routing_assignee_filter
routing_assignee_filter-Means configured viewer filter found =
    elim (Bool-cases (text_eq (trim_space configured) [])) [
      | inl empty ↦
          let is : ok none ≡ ok filter = rw (routing_assignee_filter, empty) at found in
          subst (Means configured viewer) (the_filter is)
            ((text_eq_iff (trim_space configured) []).0 empty)
      | inr named ↦ elim (Bool-cases (text_eq (trim_space configured) (codes "me"))) [
        | inl me ↦ viewer-Means configured viewer filter named me found
        | inr other ↦
            let is : ok (some (trim_space configured)) ≡ ok filter =
              rw (routing_assignee_filter, named, other) at found in
            subst (Means configured viewer) (the_filter is) (λ assignee same. inl (
              λ e.
                  absurd
                    (ground (arith, other, (text_eq_iff (trim_space configured) (codes "me")).1 e)),
              same,
            ))
      ]
    ]

eligible-ForThisWorker :
    (configured : Text) (viewer : Result Text) (filter : AssigneeFilter)
    → Means configured viewer filter
    → (issue : Issue) → Filtered filter issue
    → (state : EligibilityState) → candidate_eligible issue state ≡ eligible
    → ForThisWorker configured viewer issue
eligible-ForThisWorker configured viewer filter means issue filtered state accepted =
    let dispatchable = (candidate_eligible_iff issue state).0 accepted in
    Means-ForThisWorker configured viewer filter issue means filtered dispatchable.routed_here

-- Whatever Linear answers, and whatever the orchestrator's own state is: an issue that FetchActiveIssues
-- returned and that candidateEligible accepts is for this worker, that is, no assignee is configured, or
-- the issue has an assignee, and it is the configured one, or for `me` the trimmed identifier of the viewer
-- that Linear answered. The fuel is for the pages of the fetch; where it is too small nothing is returned.
pub fetch_active_issues-ForThisWorker :
    (fuel : ℕ) (times : Times) (configured : Text) (viewer : Result Text) (poll : Poll)
    (states : List Text) (issues : List Issue) (issue : Issue) (state : EligibilityState)
    → fetch_active_issues fuel times configured viewer poll states ≡ some (ok issues)
    → In issue issues
    → candidate_eligible issue state ≡ eligible
    → ForThisWorker configured viewer issue
unfolding fetch_active_issues
fetch_active_issues-ForThisWorker fuel times configured viewer poll states issues issue state found
      among accepted =
    elim (Result-cases (routing_assignee_filter configured viewer)) [
      | inl (e, is) ↦ absurd (no_issues (rw (fetch_active_issues, is) at found))
      | inr (filter, is) ↦
          let means = routing_assignee_filter-Means configured viewer filter is in
          let filtered =
            fetch_issues-Filtered fuel times filter poll states issues
              (rw (fetch_active_issues, is) at found) in
          eligible-ForThisWorker configured viewer filter means issue
            (All-In (Filtered filter) issue issues filtered among) state accepted
    ]
