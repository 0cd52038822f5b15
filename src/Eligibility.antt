-- ===== src/Eligibility.antt =====
-- internal/service/orchestrator/eligibility.go: which candidate issues may be dispatched, how many
-- slots a state has left, and the order in which candidates are tried.
pub mod Spec
use symphony_go.Prelude.{
  ℕ, ◌-◌, suc, zero, ℤ, pos, negsuc, Bool, true, false, ◌||◌, ◌&&◌, not, Text, codes, text_eq,
  text_lt, to_lower, trim_space, equal_fold, if◌then◌else◌, Map, lookup, has_key, Option, none,
  some, List, [], ◌∷◌, length, any, count_if, ltb, leb, ◌==◌,
}
use symphony_go.Domain.{Issue, BlockerRef}

-- runningIssue
pub record RunningIssue : Type 0 where
  pub state : Text

pub record EligibilityState : Type 0 where
  pub active_states : List Text
  pub terminal_states : List Text
  pub claimed : Map Bool
  pub running : Map RunningIssue
  pub max_concurrent : ℕ
  pub per_state : Map ℤ
  pub ai_review : Bool

-- The reason strings that come with a refusal.
pub data Reason : Type 0 where
  missing_required_issue_field not_active waiting_for_review waiting_for_ai_review : Reason
  not_assigned_to_worker already_claimed already_running blocked_by_non_terminal : Reason
  no_available_orchestrator_slots : Reason

-- `(true, "")` or `(false, reason)`.
pub data Verdict : Type 0 where
  eligible : Verdict
  refused : Reason → Verdict

matches_trimmed : Text → List Text → Bool
matches_trimmed state = any (λ item. equal_fold (trim_space item) state)

-- stateNameIn; the case is folded as equal_fold does it, for ASCII letters and the two code points that fold
-- to one.
unfoldable pub state_name_in : Text → List Text → Bool
unfolding matches_trimmed
state_name_in state list =
    let trimmed = trim_space state in
    if text_eq trimmed (codes "") then false else matches_trimmed trimmed list

-- The entries of the running map that are in a state.
unfoldable pub running_in_state : Text → Map RunningIssue → ℕ
running_in_state state_name = count_if (λ entry. equal_fold (entry.1).state state_name)

-- `limit - n`, or 0 where that is negative.
unfoldable pub clamped_sub : ℤ → ℕ → ℕ
clamped_sub (pos limit) n = limit - n
clamped_sub (negsuc limit) n = 0

unfoldable pub state_limit : Text → EligibilityState → ℤ
state_limit state_name s = elim (lookup (to_lower state_name) s.per_state) [
  | none ↦ pos s.max_concurrent
  | some value ↦ value
]

unfoldable pub available_slots_for_state : Text → EligibilityState → ℕ
unfolding clamped_sub
available_slots_for_state state_name s =
    let global_available = s.max_concurrent - length s.running in
    let state_available =
      clamped_sub (state_limit state_name s) (running_in_state state_name s.running) in
    if ltb state_available global_available then state_available else global_available

-- `issue.AssignedToWorker != nil && !*issue.AssignedToWorker`
unfoldable pub routed_elsewhere : Option Bool → Bool
routed_elsewhere none = false
routed_elsewhere (some assigned) = not assigned

unfoldable pub blockers : Issue → List BlockerRef
blockers issue = elim issue.blocked_by [ none ↦ [] | some refs ↦ refs ]

unfoldable pub has_open_blocker : Issue → List Text → Bool
has_open_blocker issue terminal_states =
    any (λ blocker. not (state_name_in blocker.state terminal_states)) (blockers issue)

-- `state.claimed[issue.ID]`: a missing key reads as false.
unfoldable pub is_claimed : Text → Map Bool → Bool
is_claimed id claimed = elim (lookup id claimed) [ none ↦ false | some value ↦ value ]

unfoldable pub lacks_required_field : Issue → Bool
lacks_required_field issue =
    text_eq issue.id (codes "")
    || text_eq issue.identifier (codes "")
    || text_eq issue.title (codes "")
    || text_eq issue.state (codes "")

unfoldable pub in_human_review : Text → Bool
in_human_review state =
    equal_fold state (codes "Human Review") || equal_fold state (codes "In Review")

unfoldable pub candidate_eligible : Issue → EligibilityState → Verdict
candidate_eligible issue s =
    if lacks_required_field issue
    then refused missing_required_issue_field
    else if not (state_name_in issue.state s.active_states)
        || state_name_in issue.state s.terminal_states
    then refused not_active
    else if in_human_review issue.state
    then refused waiting_for_review
    else if equal_fold issue.state (codes "AI Review") && not s.ai_review
    then refused waiting_for_ai_review
    else if routed_elsewhere issue.assigned_to_worker
    then refused not_assigned_to_worker
    else if is_claimed issue.id s.claimed
    then refused already_claimed
    else if has_key issue.id s.running
    then refused already_running
    else if equal_fold issue.state (codes "Todo") && has_open_blocker issue s.terminal_states
    then refused blocked_by_non_terminal
    else if leb (available_slots_for_state issue.state s) 0
    then refused no_available_orchestrator_slots
    else eligible
