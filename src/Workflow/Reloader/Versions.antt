-- ===== src/Workflow/Reloader/Versions.antt =====
-- internal/service/workflow/reloader.go as its caller sees it: a workflow in use and a candidate, without
-- the stamps; and what the stamps say of the workflow in use.
use symphony_go.Prelude.{
  true, Text, if_case, Option, none, some, List, [], ◌∷◌, All, Result, ok, err, ◌≡◌, refl, ap, ◌∙◌,
  arith,
}
use symphony_go.Workflow.{Workflow}
use symphony_go.Workflow.Reloader.{
  Stamp, Reloader, same_file_info, reload_if_changed, commit_candidate,
}

-- A call: ReloadIfChanged with what the file system and Load answer, or CommitCandidate.
pub data Event : Type 0 where
  reload : Result Stamp → Result Workflow → Event
  commit : Event

-- What a call returns.
pub data Reply : Type 0 where
  offered : Workflow → Reply
  unchanged : Reply
  failed : Text → Reply
  committed : Reply

abbrev reply_of : Result (Option Workflow) → Reply
reply_of (ok none) = unchanged
reply_of (ok (some w)) = offered w
reply_of (err e) = failed e

unfoldable pub handle : Event → Reloader → Reloader × Reply
unfolding reload_if_changed commit_candidate
handle (reload info loads) r =
    let (next, result) = reload_if_changed info loads r in (next, reply_of result)
handle commit r = (commit_candidate r, committed)

unfoldable pub run : List Event → Reloader → Reloader × List Reply
unfolding handle
run [] r = (r, [])
run (event ∷ events) r =
    let (next, reply) = handle event r in
    let (last, replies) = run events next in (last, reply ∷ replies)

-- The caller's view.
pub record View : Type 0 where
  pub in_use : Workflow
  pub candidate : Option Workflow

abbrev workflow_of : Option (Workflow × Stamp) → Option Workflow
workflow_of none = none
workflow_of (some (w, s)) = some w

abbrev pub view : Reloader → View
view r = record { in_use = r.current; candidate = workflow_of r.pending }

-- An offer replaces the candidate, a commit puts it in use, and nothing else changes the view.
abbrev pub follow : View → Reply → View
follow v (offered w) = record v { candidate = some w }
follow v unchanged = v
follow v (failed e) = v
follow v committed = elim v.candidate [
  | none ↦ v
  | some w ↦ record { in_use = w; candidate = none }
]

abbrev pub follow_all : View → List Reply → View
follow_all v [] = v
follow_all v (reply ∷ replies) = follow_all (follow v reply) replies

abbrev pub reloader : Workflow → Stamp → Option (Workflow × Stamp) → Reloader
reloader w s candidate = record { current = w; stamp = s; pending = candidate }

commit-view :
    (w : Workflow) (s : Stamp) (candidate : Option (Workflow × Stamp))
    → view (commit_candidate (reloader w s candidate))
      ≡ follow (view (reloader w s candidate)) committed
unfolding commit_candidate
commit-view w s none = refl
commit-view w s (some (v, t)) = refl

handle-view :
    (event : Event) (r : Reloader) → view (handle event r).0 ≡ follow (view r) (handle event r).1
unfolding handle reload_if_changed commit_candidate
handle-view (reload (err e) loads) r = refl
handle-view (reload (ok info) (err e)) r =
    if_case (λ (z : Reloader × Result (Option Workflow)). view z.0 ≡ follow (view r) (reply_of z.1))
      (same_file_info info r.stamp) (λ _. refl) (λ _. refl)
handle-view (reload (ok info) (ok w)) r =
    if_case (λ (z : Reloader × Result (Option Workflow)). view z.0 ≡ follow (view r) (reply_of z.1))
      (same_file_info info r.stamp) (λ _. refl) (λ _. refl)
handle-view commit r = commit-view r.current r.stamp r.pending

-- After any calls, the workflow in use and the candidate are what the replies of the calls say: a
-- workflow comes into use by a commit after it was offered, the last offer counts, and a failed or idle
-- reload changes neither.
pub run-view :
    (events : List Event) (r : Reloader)
    → view (run events r).0 ≡ follow_all (view r) (run events r).1
unfolding run
run-view [] r = refl
run-view (event ∷ events) r =
    run-view events (handle event r).0
    ∙ ap (λ v. follow_all v (run events (handle event r).0).1) (handle-view event r)

pub same_file_info→eq : (a b : Stamp) → same_file_info a b ≡ true → a ≡ b
unfolding same_file_info
same_file_info→eq a b h =
    let time : a.mod_time ≡ b.mod_time = ground arith in
    let size : a.size ≡ b.size = ground arith in cc

-- The workflow that a call offered, with the stamp that the call got before it loaded that workflow, in
-- front of the later ones.
abbrev pub offer : Event → Reply → List (Workflow × Stamp) → List (Workflow × Stamp)
offer (reload (ok info) loads) (offered w) later = (w, info) ∷ later
offer (reload (ok info) loads) unchanged later = later
offer (reload (ok info) loads) (failed e) later = later
offer (reload (ok info) loads) committed later = later
offer (reload (err e) loads) reply later = later
offer commit reply later = later

abbrev pub offers : List Event → List Reply → List (Workflow × Stamp)
offers [] replies = []
offers (event ∷ events) [] = []
offers (event ∷ events) (reply ∷ replies) = offer event reply (offers events replies)

module _ (Loaded : Workflow × Stamp → Type 0) where
  abbrev PendingLoaded : Option (Workflow × Stamp) → Type 0
  PendingLoaded none = Unit
  PendingLoaded (some pair) = Loaded pair

  abbrev Stamped : Reloader → Type 0
  Stamped r = Loaded (r.current, r.stamp) × PendingLoaded r.pending

  -- A call whose offer, if it makes one, was loaded.
  abbrev Steps : Event → List (Workflow × Stamp) → Reloader × Reply → Type 0
  Steps event later z = All Loaded (offer event z.1 later) → Stamped z.0 × All Loaded later

  abbrev answered : Reloader × Result (Option Workflow) → Reloader × Reply
  answered (next, result) = (next, reply_of result)

-- The first workflow with its stamp, and those that the calls offered with theirs.
abbrev pub known_versions : List Event → Workflow → Stamp → List (Workflow × Stamp)
known_versions events first stamp =
    (first, stamp) ∷ offers events (run events (reloader first stamp none)).1
