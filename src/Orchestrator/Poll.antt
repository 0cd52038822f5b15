-- ===== src/Orchestrator/Poll.antt =====
-- One poll: refreshWorkflow, revalidateCandidateForDispatch, mergeIssueRefresh and pollDispatched of
-- orchestrator.go. Logging is not modelled; neither are the tracker, workspace manager and runner
-- that a reload replaces, which stand behind `Env`.
use symphony_go.Prelude.{
  ℕ, Bool, true, false, not, ◌&&◌, leb, Text, codes, text_eq, if◌then◌else◌, Option, none, some,
  List, [], ◌∷◌,
}
use symphony_go.Domain.{Config, Issue}
use symphony_go.Candidates.{sort_candidates}
use symphony_go.Eligibility.{
  Verdict, eligible, refused, no_available_orchestrator_slots, candidate_eligible,
}
use symphony_go.Orchestrator.State.{Orchestrator}
use symphony_go.Orchestrator.Env.{Env, Fetch, fetched, fetch_failed}
use symphony_go.Orchestrator.Dispatch.{
  eligibility_state, global_slots_available, dispatch_issue_done,
}
use symphony_go.Orchestrator.RetryHandler.{find_issue, set_last_error}
use symphony_go.Orchestrator.Reconcile.{reconcile_running}

-- The outcome of ReloadIfChanged and, for a changed file, of reloadDependencies.
pub data Reload : Type 0 where
  unchanged : Reload
  reload_failed : Text → Reload
  reloaded : Config → Reload

-- True if the reload failed.
unfoldable pub refresh_workflow : Reload → Orchestrator → Orchestrator × Bool
refresh_workflow unchanged o = (o, false)
refresh_workflow (reload_failed message) o = (set_last_error message o, true)
refresh_workflow (reloaded config) o =
    (set_last_error (codes "") (record o { config = config }), false)

abbrev keep : Text → Text → Text
keep base refreshed = if text_eq refreshed (codes "") then base else refreshed

unfoldable pub merge_issue_refresh : Issue → Issue → Issue
merge_issue_refresh base refreshed = record base {
  id = keep base.id refreshed.id;
  identifier = keep base.identifier refreshed.identifier;
  title = keep base.title refreshed.title;
  state = keep base.state refreshed.state;
  blocked_by = elim refreshed.blocked_by [ none ↦ base.blocked_by | some refs ↦ some refs ];
}

unfoldable pub still_eligible : Verdict → Issue → Option Issue
still_eligible eligible issue = some issue
still_eligible (refused reason) issue = none

unfoldable pub revalidate_found : Option Issue → Issue → Orchestrator → Option Issue
unfolding still_eligible
revalidate_found none issue o = none
revalidate_found (some refreshed) issue o =
    let merged = merge_issue_refresh issue refreshed in
    still_eligible (candidate_eligible merged (eligibility_state (codes "") o)) merged

-- An empty answer finds no issue, as a missing one does.
unfoldable pub revalidate_fetched : Fetch (List Issue) → Issue → Orchestrator → Option Issue
unfolding revalidate_found
revalidate_fetched (fetch_failed message) issue o = none
revalidate_fetched (fetched issues) issue o = revalidate_found (find_issue issue.id issues) issue o

unfoldable pub revalidate_candidate_for_dispatch : Env → Issue → Orchestrator → Option Issue
unfolding revalidate_fetched
revalidate_candidate_for_dispatch env issue o =
    revalidate_fetched (env.fetch_issue_states_by_ids (issue.id ∷ [])) issue o

-- `IssueFilter` names another issue.
unfoldable pub filtered_out : Issue → Orchestrator → Bool
filtered_out issue o =
    not (text_eq o.issue_filter (codes ""))
    && not (text_eq issue.identifier o.issue_filter)
    && not (text_eq issue.id o.issue_filter)

-- What the body of the loop does with an issue: go on, stop the loop, or try to dispatch.
pub data Choice : Type 0 where
  skip stop : Choice
  try : Issue → Choice

unfoldable pub choose_by_verdict : Env → Issue → Verdict → Orchestrator → Choice
choose_by_verdict env issue eligible o = elim (revalidate_candidate_for_dispatch env issue o) [
  | none ↦ skip
  | some refreshed ↦ try refreshed
]
choose_by_verdict env issue (refused no_available_orchestrator_slots) o =
    if leb (global_slots_available o) 0 then stop else skip
choose_by_verdict env issue (refused _) o = skip

unfoldable pub choose : Env → Issue → Orchestrator → Choice
unfolding choose_by_verdict
choose env issue o =
    if filtered_out issue o
    then skip
    else choose_by_verdict env issue (candidate_eligible issue (eligibility_state (codes "") o)) o

-- The loop over the sorted candidates, with the issues that it dispatched.
unfoldable pub dispatch_candidates : Env → ℕ → List Issue → Orchestrator → Orchestrator × List Issue
dispatch_candidates env now [] o = (o, [])
dispatch_candidates env now (issue ∷ issues) o = elim (choose env issue o) [
  | skip ↦ dispatch_candidates env now issues o
  | stop ↦ (o, [])
  | try refreshed ↦
      let (next, accepted) = dispatch_issue_done now refreshed 0 o in
      let (final, dispatched) = dispatch_candidates env now issues next in
      (final, if accepted then refreshed ∷ dispatched else dispatched)
]

unfoldable pub poll_fetched :
    Env → ℕ → Fetch (List Issue) → Orchestrator → Orchestrator × List Issue
unfolding dispatch_candidates
poll_fetched env now (fetch_failed message) o = (set_last_error message o, [])
poll_fetched env now (fetched issues) o =
    dispatch_candidates env now (sort_candidates env.slice_stable issues)
      (set_last_error (codes "") o)

-- pollDispatched
unfoldable pub poll_dispatched : Env → ℕ → Reload → Orchestrator → Orchestrator × List Issue
unfolding poll_fetched refresh_workflow
poll_dispatched env now reload o =
    let (refreshed, failed) = refresh_workflow reload o in
    let reconciled = reconcile_running env now refreshed in
    if failed
    then (reconciled, [])
    else poll_fetched env now (env.fetch_active_issues refreshed.config.tracker.active_states)
        reconciled
