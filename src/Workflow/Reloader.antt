-- ===== src/Workflow/Reloader.antt =====
-- internal/service/workflow/reloader.go: the workflow in use, the candidate, and the stamps by which a
-- change of the file is seen. A time is a number; the lock and the copies are not modelled.
pub mod Versions
pub mod Stable
use symphony_go.Prelude.{
  ℕ, zero, suc, ◌==◌, Bool, true, false, ◌&&◌, Text, codes, if◌then◌else◌, Option, none, some, List,
  [], ◌∷◌, Result, ok, err,
}
use symphony_go.Workflow.{Workflow}

-- The time of the last change of a file and its size.
pub record Stamp : Type 0 where
  pub mod_time : ℕ
  pub size : ℕ

-- The fields current and pending with their times and sizes.
pub record Reloader : Type 0 where
  pub current : Workflow
  pub stamp : Stamp
  pub pending : Option (Workflow × Stamp)

-- sameFileInfo
unfoldable pub same_file_info : Stamp → Stamp → Bool
same_file_info a b = a.mod_time == b.mod_time && a.size == b.size

-- What one attempt of loadStableWorkflow sees: the file before, the load, the file after.
pub record Attempt : Type 0 where
  pub before : Result Stamp
  pub loaded : Result Workflow
  pub after : Result Stamp

-- One round of the loop: none where the file changed meanwhile.
unfoldable pub attempt_load : Attempt → Option (Result (Workflow × Stamp))
unfolding same_file_info
attempt_load a = elim a.before [
  | err e ↦ some (err e)
  | ok before ↦ elim a.loaded [
    | err e ↦ some (err e)
    | ok loaded ↦ elim a.after [
      | err e ↦ some (err e)
      | ok after ↦ if same_file_info before after then some (ok (loaded, after)) else none
    ]
  ]
]

-- The rounds that are left, and what the outside shows in each round.
load_rounds : ℕ → (ℕ → Attempt) → ℕ → Result (Workflow × Stamp)
unfolding attempt_load
load_rounds zero outside round = err (codes "workflow changed while loading")
load_rounds (suc left) outside round =
    let rest = load_rounds left outside (suc round) in
    elim (attempt_load (outside round)) [ none ↦ rest | some result ↦ result ]

-- loadStableWorkflow, with its stableLoadAttempts
unfoldable pub load_stable_workflow : (ℕ → Attempt) → Result (Workflow × Stamp)
unfolding load_rounds
load_stable_workflow outside = load_rounds 3 outside 0

unfoldable pub new_reloader : (ℕ → Attempt) → Result Reloader
unfolding load_stable_workflow
new_reloader outside = elim (load_stable_workflow outside) [
  | err e ↦ err e
  | ok (loaded, info) ↦ ok (record { current = loaded; stamp = info; pending = none })
]

-- ReloadIfChanged: the state and what is returned, none where the file is the same.
unfoldable pub reload_if_changed :
    Result Stamp → Result Workflow → Reloader → Reloader × Result (Option Workflow)
unfolding same_file_info
reload_if_changed (err e) loads r = (r, err e)
reload_if_changed (ok info) loads r =
    if same_file_info info r.stamp then (r, ok none) else elim loads [
      | err e ↦ (r, err e)
      | ok loaded ↦ (record r { pending = some (loaded, info) }, ok (some loaded))
    ]

unfoldable pub commit_candidate : Reloader → Reloader
commit_candidate r = elim r.pending [
  | none ↦ r
  | some (loaded, info) ↦ record { current = loaded; stamp = info; pending = none }
]
