-- ===== src/Scenarios.antt =====
-- Concrete runs: a configuration with two slots, two issues, and each theorem at an input where its
-- hypotheses hold.
mod Workspaces
pub mod Configurations
mod Workflows
mod Commands
mod Retries
mod Tracker
mod Exchanges
mod Usage
mod Runs
mod Exits
use mathlib.Core.List.{Perm}
use Prim.Native.Nat.{min}
use symphony_go.Prelude.{
  ◌*◌, ◌^◌, ℤ, pos, ◌≡◌, ◌↔◌, true, false, Text, codes, Option, none, some, [], ◌∷◌, filter, List,
  arith,
}
use symphony_go.Domain.{Issue, Config}
use symphony_go.Eligibility.{eligible, candidate_eligible}
use symphony_go.Eligibility.Spec.{Dispatchable, candidate_eligible_iff}
use symphony_go.Candidates.{sort_candidates}
use symphony_go.Candidates.Sorters.{insertion_sort, insertion_sort-IsStable}
use symphony_go.Candidates.Sorting.{InOrder, same_place, sort_candidates-stable_sort}
use symphony_go.Backoff.{second, failure, continuation, retry_delay, max_retry_backoff}
use symphony_go.Backoff.Bounds.{retry_delay-exact, retry_delay-overflow}
use symphony_go.Orchestrator.State.{Orchestrator}
use symphony_go.Orchestrator.Env.{Env, fetched}
use symphony_go.Orchestrator.Dispatch.{dispatch_issue_done, eligibility_state}
use symphony_go.Orchestrator.Poll.{unchanged, poll_dispatched}
use symphony_go.Orchestrator.Safety.{Safe}
use symphony_go.Orchestrator.Safety.Interleavings.{
  new_orchestrator, here, next, dispatching, retiring, Reach-Safe,
}
use symphony_go.Orchestrator.Exit.{retire_worker}
use symphony_go.Orchestrator.Claims.{Sound}
use symphony_go.Orchestrator.Claims.Histories.{start, then, polls, History-Sound}

abbrev pub config : Config
config = record {
  tracker = record {
    active_states = codes "Todo" ∷ codes "In Progress" ∷ [];
    terminal_states = codes "Done" ∷ [];
  };
  agent = record {
    max_concurrent_agents = pos 2;
    max_turns = pos 3;
    max_retry_backoff_ms = pos 300000;
    max_concurrent_agents_by_state = [];
    review_policy = record { mode = codes ""; allow_manual_ai_review = false };
    ai_review = record { enabled = false; auto_merge = false };
  };
  stall_timeout_ms = pos 60000;
  interval_ms = pos 5000;
}

abbrev pub issue_named : Text → Option ℤ → Issue
issue_named name priority = record {
  id = name;
  identifier = name;
  title = codes "A title";
  description = [];
  priority = priority;
  state = codes " in progress";
  branch_name = [];
  url = [];
  assignee_id = [];
  assigned_to_worker = none;
  labels = [];
  blocked_by = none;
  created_at = none;
  updated_at = none;
}

abbrev pub first_issue : Issue
first_issue = issue_named (codes "A") none

abbrev second_issue : Issue
second_issue = issue_named (codes "B") (some (pos 1))

abbrev pub fresh : Orchestrator
fresh = new_orchestrator config (codes "")

abbrev pub env : Env
env = record {
  fetch_active_issues = λ _. fetched (first_issue ∷ second_issue ∷ []);
  fetch_issues_by_states = λ _. fetched [];
  fetch_issue_states_by_ids = λ _. fetched (first_issue ∷ second_issue ∷ []);
  fetch_issue = λ _. fetched first_issue;
  path_for_issue = λ issue. some issue.id;
  remove_workspace = λ _. true;
  static_cwd = false;
  has_sessions = true;
  delete_session = λ _. true;
  duration_text = λ _. codes "1m0s";
  slice_stable = insertion_sort;
}

candidate_eligible_iff_example :
    (candidate_eligible first_issue (eligibility_state (codes "") fresh) ≡ eligible)
    ↔ Dispatchable first_issue (eligibility_state (codes "") fresh)
candidate_eligible_iff_example =
    candidate_eligible_iff first_issue (eligibility_state (codes "") fresh)

abbrev candidates : List Issue
candidates = first_issue ∷ second_issue ∷ []

sort_candidates-stable_sort_example :
    Perm (sort_candidates insertion_sort candidates) candidates
    × InOrder (sort_candidates insertion_sort candidates)
    × ((k : Issue)
        → filter (same_place k) (sort_candidates insertion_sort candidates)
          ≡ filter (same_place k) candidates)
sort_candidates-stable_sort_example =
    sort_candidates-stable_sort insertion_sort insertion_sort-IsStable candidates

retry_delay-exact_example :
    (retry_delay (some config) failure 3
      ≡ min (10 * second * 2 ^ 2) (max_retry_backoff (some config)))
    × (retry_delay (some config) continuation 3 ≡ second)
unfolding max_retry_backoff
retry_delay-exact_example = retry_delay-exact (some config) 2 (omega arith) (omega arith)

retry_delay-overflow_example : retry_delay (some config) failure 60 ≡ 0
unfolding max_retry_backoff
retry_delay-overflow_example = retry_delay-overflow (some config) 5 (omega arith)

Reach-Safe_example :
    Safe (retire_worker 9 (codes "A") (dispatch_issue_done 5 first_issue 0 fresh).0)
Reach-Safe_example =
    Reach-Safe config (codes "")
      (next (next here (dispatching 5 first_issue 0)) (retiring 9 (codes "A")))

History-Sound_example : Sound (poll_dispatched env 5 unchanged fresh).0
History-Sound_example = History-Sound config (codes "") (then start (polls env 5 unchanged tt))
