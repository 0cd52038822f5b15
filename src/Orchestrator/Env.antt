-- ===== src/Orchestrator/Env.antt =====
-- What a handler asks of the tracker client, the workspace manager and the session store while it
-- runs. The orchestrator holds them behind interfaces; a handler takes their answers as this record.
use symphony_go.Prelude.{ℕ, Bool, Text, Option, List}
use symphony_go.Domain.{Issue}
use symphony_go.Candidates.{Sorter}

pub data Fetch {ℓ} (A : Type ℓ) : Type ℓ where
  fetched : A → Fetch A
  fetch_failed : Text → Fetch A

-- `path_for_issue` is none and `remove_workspace` is false where the manager returns an error.
-- `has_sessions` is `rt.sessions != nil`; `delete_session` is false where the store returns an error.
-- `duration_text` is the formatting of a time.Duration, and `slice_stable` is sort.SliceStable.
pub record Env : Type 0 where
  pub fetch_active_issues : List Text → Fetch (List Issue)
  pub fetch_issues_by_states : List Text → Fetch (List Issue)
  pub fetch_issue_states_by_ids : List Text → Fetch (List Issue)
  pub fetch_issue : Text → Fetch Issue
  pub path_for_issue : Issue → Option Text
  pub remove_workspace : Text → Bool
  pub static_cwd : Bool
  pub has_sessions : Bool
  pub delete_session : Text → Bool
  pub duration_text : ℕ → Text
  pub slice_stable : Sorter
