-- ===== src/Orchestrator/Dispatch/Slots.antt =====
-- The running map that eligibility reads, against the list of running entries; and what a dispatch
-- that was accepted has checked.
use symphony_go.Prelude.{
  ℕ, suc, ◌+◌, ◌≡◌, refl, Bool, true, false, ◌||◌, Text, text_eq_iff, Map, lookup-delete,
  text_eq_refl, insert, delete, has_key, has_key-insert, List, [], ◌∷◌, length, has_by, Distinct,
  arith,
}
use symphony_go.Domain.{Issue, RunningEntry}
use symphony_go.Eligibility.{
  EligibilityState, RunningIssue, eligible, candidate_eligible, is_claimed,
}
use symphony_go.Orchestrator.State.{Orchestrator}
use symphony_go.Orchestrator.Running.{running_key}
use symphony_go.Orchestrator.Dispatch.{
  running_map, eligibility_state, dispatch_issue_done, service_done, may_dispatch, start_worker,
}

abbrev shown : RunningEntry → RunningIssue
shown entry = record { state = entry.state }

pub has_key-running_map :
    (id : Text) (acc : Map RunningIssue) (entries : List RunningEntry)
    → has_key id (running_map acc entries) ≡ (has_key id acc || has_by running_key id entries)
unfolding running_map has_by
has_key-running_map id acc [] = ground arith
has_key-running_map id acc (entry ∷ entries) = ground (
  arith,
  has_key-running_map id (insert entry.issue_id (shown entry) acc) entries,
  has_key-insert entry.issue_id id (shown entry) acc,
)

delete-absent : (id : Text) (m : Map RunningIssue) → has_key id m ≡ false → delete id m ≡ m
unfolding delete has_key
delete-absent id [] h = refl
delete-absent id ((k, v) ∷ m) h = ground (arith, delete-absent id m)

-- No entry's issue is a key of the map.
abbrev Fresh : Map RunningIssue → List RunningEntry → Type 0
Fresh acc [] = Unit {0}
Fresh acc (entry ∷ entries) = (has_key entry.issue_id acc ≡ false) × Fresh acc entries

Fresh-insert :
    (entry : RunningEntry) (acc : Map RunningIssue) (entries : List RunningEntry)
    → has_by running_key entry.issue_id entries ≡ false
    → Fresh acc entries
    → Fresh (insert entry.issue_id (shown entry) acc) entries
unfolding has_by
Fresh-insert entry acc [] d f = tt
Fresh-insert entry acc (e ∷ entries) d f = ground (
  arith,
  Fresh-insert entry acc entries,
  has_key-insert entry.issue_id e.issue_id (shown entry) acc,
  text_eq_iff entry.issue_id e.issue_id,
  text_eq_iff e.issue_id entry.issue_id,
)

length-running_map-from :
    (acc : Map RunningIssue) (entries : List RunningEntry)
    → Distinct running_key entries
    → Fresh acc entries
    → length (running_map acc entries) ≡ length acc + length entries
unfolding running_map
length-running_map-from acc [] d f = omega arith
length-running_map-from acc (entry ∷ entries) d f =
    let next = insert entry.issue_id (shown entry) acc in
    let one_more : length next ≡ suc (length acc) =
      unfold insert in rw (delete-absent entry.issue_id acc f.0) in
    omega (
      arith,
      length-running_map-from next entries d.1 (Fresh-insert entry acc entries d.0 f.1),
      one_more,
    )

Fresh-nil : (entries : List RunningEntry) → Fresh [] entries
unfolding has_key
Fresh-nil [] = tt
Fresh-nil (entry ∷ entries) = (refl, Fresh-nil entries)

-- Distinct entries take one slot each.
pub length-running_map :
    (entries : List RunningEntry)
    → Distinct running_key entries
    → length (running_map [] entries) ≡ length entries
length-running_map entries d =
    omega (arith, length-running_map-from [] entries d (Fresh-nil entries))

-- The issue's own claim is ignored, so it is never the reason for a refusal.
own_claim_ignored : (id : Text) (claimed : Map Bool) → is_claimed id (delete id claimed) ≡ false
unfolding is_claimed
own_claim_ignored id claimed = ground (arith, lookup-delete id id claimed, text_eq_refl id)

verdict_unclaimed :
    (issue : Issue) (s : EligibilityState)
    → is_claimed issue.id s.claimed ≡ false
    → may_dispatch (candidate_eligible issue s) ≡ true
    → candidate_eligible issue s ≡ eligible
unfolding may_dispatch candidate_eligible
verdict_unclaimed issue s h k = ground arith

pub accepted_checks :
    (now : ℕ) (issue : Issue) (attempt : ℕ) (o : Orchestrator)
    → (dispatch_issue_done now issue attempt o).1 ≡ true
    → (service_done o.service ≡ false)
      × (has_key issue.id o.running_cancel ≡ false)
      × (candidate_eligible issue (eligibility_state issue.id o) ≡ eligible)
      × ((dispatch_issue_done now issue attempt o).0 ≡ start_worker now issue attempt o)
unfolding dispatch_issue_done eligibility_state
accepted_checks now issue attempt o h = ground (
  arith,
  verdict_unclaimed issue (eligibility_state issue.id o),
  own_claim_ignored issue.id o.claimed,
)

-- A dispatch that is refused changes nothing.
pub refused_unchanged :
    (now : ℕ) (issue : Issue) (attempt : ℕ) (o : Orchestrator)
    → (dispatch_issue_done now issue attempt o).1 ≡ false
    → (dispatch_issue_done now issue attempt o).0 ≡ o
unfolding dispatch_issue_done
refused_unchanged now issue attempt o h = ground arith
