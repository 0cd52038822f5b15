-- ===== src/Eligibility/Spec.antt =====
-- What eligibility.go promises, said without its code: when an issue may be dispatched.
use symphony_go.Prelude.{
  ℕ, ◌<◌, ℤ, pos, negsuc, true, false, not, ◌≡◌, ◌≢◌, refl, ◌↔◌, ◌⊎◌, Text, codes, text_eq_iff,
  trim_space, equal_fold, none, some, lookup, has_key, List, [], ◌∷◌, length, All, any, arith,
}
use symphony_go.Domain.{Issue, BlockerRef}
use symphony_go.Eligibility.{
  EligibilityState, eligible, candidate_eligible, state_name_in, matches_trimmed, running_in_state,
  state_limit, available_slots_for_state, routed_elsewhere, blockers, has_open_blocker, is_claimed,
  lacks_required_field, in_human_review,
}

-- Some entry of the list is the trimmed state up to case, once it is trimmed itself.
abbrev pub Among : Text → List Text → Type 0
Among state [] = ⊥
Among state (item ∷ rest) = (equal_fold (trim_space item) state ≡ true) ⊎ Among state rest

abbrev pub Listed : Text → List Text → Type 0
Listed state list = (trim_space state ≢ []) × Among (trim_space state) list

-- `n` is below an `int` limit.
abbrev pub Below : ℕ → ℤ → Type 0
Below n (pos limit) = n < limit
Below n (negsuc limit) = ⊥

pub record Dispatchable (issue : Issue) (s : EligibilityState) : Type 0 where
  pub has_id : issue.id ≢ []
  pub has_identifier : issue.identifier ≢ []
  pub has_title : issue.title ≢ []
  pub has_state : issue.state ≢ []
  pub active : Listed issue.state s.active_states
  pub not_terminal : ¬ Listed issue.state s.terminal_states
  pub not_human_review : equal_fold issue.state (codes "Human Review") ≡ false
  pub not_in_review : equal_fold issue.state (codes "In Review") ≡ false
  pub ai_review_allowed : equal_fold issue.state (codes "AI Review") ≡ true → s.ai_review ≡ true
  pub routed_here : issue.assigned_to_worker ≢ some false
  pub unclaimed : lookup issue.id s.claimed ≢ some true
  pub not_running : lookup issue.id s.running ≡ none
  pub blockers_closed :
      equal_fold issue.state (codes "Todo") ≡ true
      → All (λ blocker. Listed blocker.state s.terminal_states) (blockers issue)
  pub global_slot : length s.running < s.max_concurrent
  pub state_slot : Below (running_in_state issue.state s.running) (state_limit issue.state s)

matches_trimmed_iff :
    (state : Text) (list : List Text) → (matches_trimmed state list ≡ true) ↔ Among state list
unfolding matches_trimmed any
matches_trimmed_iff state [] = (λ h. cc, λ h. absurd h)
matches_trimmed_iff state (item ∷ rest) = ground (arith, matches_trimmed_iff state rest)

pub state_name_in_iff :
    (state : Text) (list : List Text) → (state_name_in state list ≡ true) ↔ Listed state list
unfolding state_name_in
state_name_in_iff state list =
    ground (arith, matches_trimmed_iff (trim_space state) list, text_eq_iff (trim_space state) [])

pub available_slots_iff :
    (state : Text) (s : EligibilityState)
    → (0 < available_slots_for_state state s) ↔ (
        (length s.running < s.max_concurrent)
        × Below (running_in_state state s.running) (state_limit state s))
unfolding available_slots_for_state
available_slots_iff state s = ground arith

open_blockers_iff :
    (terminal : List Text) (refs : List BlockerRef)
    → (any (λ blocker. not (state_name_in blocker.state terminal)) refs ≡ false)
      ↔ All (λ blocker. Listed blocker.state terminal) refs
unfolding any
open_blockers_iff terminal [] = (λ h. tt, λ h. refl)
open_blockers_iff terminal (r ∷ refs) =
    ground (arith, open_blockers_iff terminal refs, state_name_in_iff r.state terminal)

candidate_eligible-Dispatchable :
    (issue : Issue) (s : EligibilityState)
    → candidate_eligible issue s ≡ eligible
    → Dispatchable issue s
unfolding candidate_eligible lacks_required_field in_human_review routed_elsewhere is_claimed
    has_key has_open_blocker
candidate_eligible-Dispatchable issue s h = ground (
  arith,
  text_eq_iff issue.id [],
  text_eq_iff issue.identifier [],
  text_eq_iff issue.title [],
  text_eq_iff issue.state [],
  state_name_in_iff issue.state s.active_states,
  state_name_in_iff issue.state s.terminal_states,
  open_blockers_iff s.terminal_states (blockers issue),
  available_slots_iff issue.state s,
)

Dispatchable-candidate_eligible :
    (issue : Issue) (s : EligibilityState)
    → Dispatchable issue s
    → candidate_eligible issue s ≡ eligible
unfolding candidate_eligible lacks_required_field in_human_review routed_elsewhere is_claimed
    has_key has_open_blocker
Dispatchable-candidate_eligible issue s h = ground (
  arith,
  text_eq_iff issue.id [],
  text_eq_iff issue.identifier [],
  text_eq_iff issue.title [],
  text_eq_iff issue.state [],
  state_name_in_iff issue.state s.active_states,
  state_name_in_iff issue.state s.terminal_states,
  open_blockers_iff s.terminal_states (blockers issue),
  available_slots_iff issue.state s,
)

-- candidateEligible accepts an issue exactly if it meets every condition of `Dispatchable`.
pub candidate_eligible_iff :
    (issue : Issue) (s : EligibilityState)
    → (candidate_eligible issue s ≡ eligible) ↔ Dispatchable issue s
candidate_eligible_iff issue s =
    (candidate_eligible-Dispatchable issue s, Dispatchable-candidate_eligible issue s)
