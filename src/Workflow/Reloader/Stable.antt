-- ===== src/Workflow/Reloader/Stable.antt =====
-- loadStableWorkflow of internal/service/workflow/reloader.go: at most three rounds, and a result only
-- from one in which the file did not change.
use symphony_go.Prelude.{
  ℕ, zero, suc, ◌+◌, ◌<◌, if◌then◌else◌, Bool-cases, Option, none, some, Option-cases, Result, ok,
  err, ◌≡◌, sym, ap, ◌∙◌, arith, inl, inr,
}
use symphony_go.Workflow.{Workflow}
use symphony_go.Workflow.Reloader.{
  Stamp, same_file_info, Attempt, attempt_load, load_rounds, load_stable_workflow,
}
use symphony_go.Workflow.Reloader.Versions.{same_file_info→eq}

-- The workflow was loaded while the file had that stamp, before and after.
abbrev pub Quiet : Attempt → Workflow → Stamp → Type 0
Quiet a w s = (a.before ≡ ok s) × (a.loaded ≡ ok w) × (a.after ≡ ok s)

abbrev attempt : Result Stamp → Result Workflow → Result Stamp → Attempt
attempt before loaded after = record { before = before; loaded = loaded; after = after }

abbrev found : Workflow × Stamp → Option (Result (Workflow × Stamp))
found result = some (ok result)

results_eq : (l w : Workflow) (a s : Stamp) → found (l, a) ≡ found (w, s) → (l ≡ w) × (a ≡ s)
results_eq l w a s h = (cc, cc)

attempt-Quiet :
    (b : Result Stamp) (l : Result Workflow) (a : Result Stamp) (w : Workflow) (s : Stamp)
    → attempt_load (attempt b l a) ≡ some (ok (w, s))
    → Quiet (attempt b l a) w s
unfolding attempt_load
attempt-Quiet (err e) l a w s h = cc
attempt-Quiet (ok b) (err e) a w s h = cc
attempt-Quiet (ok b) (ok l) (err e) w s h = cc
attempt-Quiet (ok b) (ok l) (ok a) w s h = elim (Bool-cases (same_file_info b a)) [
  | inl same ↦
      let (loaded_is, here) =
        results_eq l w a s (ap (λ x. if x then some (ok (l, a)) else none) (sym same) ∙ h) in
      let stamp = same_file_info→eq b a same in (ap ok (stamp ∙ here), ap ok loaded_is, ap ok here)
  | inr other ↦ absurd (ground (arith, other, h))
]

load_rounds-Quiet :
    (left : ℕ) (outside : ℕ → Attempt) (round : ℕ) (w : Workflow) (s : Stamp)
    → load_rounds left outside round ≡ ok (w, s)
    → (i : ℕ) × (i < round + left) × Quiet (outside i) w s
unfolding load_rounds
load_rounds-Quiet zero outside round w s h = cc
load_rounds-Quiet (suc left) outside round w s h =
    elim (Option-cases (attempt_load (outside round))) [
      | inl again ↦
          let (i, less, quiet) = load_rounds-Quiet left outside (suc round) w s (cc) in
          (i, omega (arith, less), quiet)
      | inr (result, done) ↦
          let is_found : result ≡ ok (w, s) = cc in
          let out = outside round in
          (
            round,
            omega arith,
            attempt-Quiet out.before out.loaded out.after w s (done ∙ ap some is_found),
          )
    ]

-- loadStableWorkflow returns a workflow and a stamp only from one of its first three rounds, in which the
-- file had that stamp before the load and after it.
pub load_stable_workflow-Quiet :
    (outside : ℕ → Attempt) (w : Workflow) (s : Stamp)
    → load_stable_workflow outside ≡ ok (w, s)
    → (i : ℕ) × (i < 3) × Quiet (outside i) w s
unfolding load_stable_workflow
load_stable_workflow-Quiet outside w s = load_rounds-Quiet 3 outside 0 w s
