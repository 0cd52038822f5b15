-- ===== src/Orchestrator/Claims/Timers.antt =====
-- Stopping the timer of an issue takes away exactly the armed timers of that issue.
use symphony_go.Prelude.{
  ℕ, ◌≡◌, refl, sym, Text, text_eq_iff, Map, none, some, lookup, lookup-delete, lookup-insert,
  insert, delete, List, [], ◌∷◌, drop_by, All, arith, Option-cases, inl, inr,
}
use symphony_go.Orchestrator.State.{Timer, without_timer}
use symphony_go.Orchestrator.Claims.{timer_key, Registered}

abbrev Injective : Map ℕ → Type 0
Injective timers =
    (j k : Text) (x : ℕ) → lookup j timers ≡ some x → lookup k timers ≡ some x → j ≡ k

-- The timer with the number of an issue is a timer of that issue.
stop-some :
    (id : Text) (x : ℕ) (timers : Map ℕ) (armed : List Timer)
    → Injective timers
    → lookup id timers ≡ some x
    → All (Registered timers) armed
    → without_timer (some x) armed ≡ drop_by timer_key id armed
unfolding without_timer drop_by
stop-some id x timers [] inj e r = refl
stop-some id x timers (t ∷ armed) inj e r =
    ground
      (arith, stop-some id x timers armed inj e r.1, inj t.issue_id id x, text_eq_iff t.issue_id id)

drop-absent :
    (id : Text) (timers : Map ℕ) (armed : List Timer)
    → lookup id timers ≡ none
    → All (Registered timers) armed
    → drop_by timer_key id armed ≡ armed
unfolding drop_by
drop-absent id timers [] e r = refl
drop-absent id timers (t ∷ armed) e r =
    ground (arith, drop-absent id timers armed e r.1, text_eq_iff t.issue_id id)

stop-none :
    (id : Text) (timers : Map ℕ) (armed : List Timer)
    → lookup id timers ≡ none
    → All (Registered timers) armed
    → without_timer none armed ≡ drop_by timer_key id armed
unfolding without_timer
stop-none id timers armed e r = sym (drop-absent id timers armed e r)

pub stop-drop :
    (id : Text) (timers : Map ℕ) (armed : List Timer)
    → Injective timers
    → All (Registered timers) armed
    → without_timer (lookup id timers) armed ≡ drop_by timer_key id armed
stop-drop id timers armed inj r = elim (Option-cases (lookup id timers)) [
  | inl e ↦ rw e (stop-none id timers armed e r)
  | inr (x, e) ↦ rw e (stop-some id x timers armed inj e r)
]

-- The other timers stay registered when the issue's key is rewritten or deleted.
pub Registered-insert :
    (id : Text) (x : ℕ) (timers : Map ℕ) (armed : List Timer)
    → All (Registered timers) armed
    → All (Registered (insert id x timers)) (drop_by timer_key id armed)
unfolding drop_by
Registered-insert id x timers [] r = tt
Registered-insert id x timers (t ∷ armed) r = ground (
  arith,
  Registered-insert id x timers armed r.1,
  lookup-insert id t.issue_id x timers,
  text_eq_iff t.issue_id id,
  text_eq_iff id t.issue_id,
)

pub Registered-delete :
    (id : Text) (timers : Map ℕ) (armed : List Timer)
    → All (Registered timers) armed
    → All (Registered (delete id timers)) (drop_by timer_key id armed)
unfolding drop_by
Registered-delete id timers [] r = tt
Registered-delete id timers (t ∷ armed) r = ground (
  arith,
  Registered-delete id timers armed r.1,
  lookup-delete id t.issue_id timers,
  text_eq_iff t.issue_id id,
  text_eq_iff id t.issue_id,
)

pub Registered-drop :
    (id : Text) (timers : Map ℕ) (armed : List Timer)
    → All (Registered timers) armed
    → All (Registered timers) (drop_by timer_key id armed)
unfolding drop_by
Registered-drop id timers [] r = tt
Registered-drop id timers (t ∷ armed) r = ground (arith, Registered-drop id timers armed r.1)
