-- ===== src/Flow/Turns/Writes.antt =====
-- What a session writes to the tracker: internal/service/issueflow/agent_session.go and the three
-- functions apply*Pass of flow.go.
pub mod Loop
use mathlib.Core.List.{Memᴰ}
use symphony_go.Prelude.{
  ℕ, if_case, ◌+◌, leb, any, text_eq, not, ◌||◌, has_prefix, to_lower, trim_space, ◌≡◌, refl, Bool,
  true, false, ◌&&◌, Text, Option, none, some, List, [], ◌∷◌, All, arith, ap, ◌⊎◌, inl, inr, zero,
  suc, subst,
}
use symphony_go.Domain.{Issue}
use symphony_go.Outcomes.{RunError}
use symphony_go.Flow.{
  Ending, state_ai_review, state_pushing, state_merging, state_done, in_state,
  state_write_extension_enabled, max_turns, review_final_passes, push_final_passes,
  merge_final_passes, review_state_passes, merging_state_passes, pushing_state_passes,
}
use symphony_go.Flow.Turns.{
  StateWrite, Setting, Turn, Session, AfterTurn, halt, proceed, SessionEnd, hear,
  upsert_session_record, apply_pass, apply_review_pass, apply_push_pass, apply_merge_pass, end_with,
  go_on, review_applied, final_applied, if_enabled, after_passes, after_decision, after_fetch,
  after_turn, follow, after_await, after_start, run_turns,
}

-- A move of an issue that the orchestrator may make, with the words of the agent that ask for it.
pub data Move (issue : Issue) (said : Text) : Text → Text → Type 0 where
  review_moves :
      in_state issue state_ai_review ≡ true
      → review_final_passes said ≡ true
      → Move issue said state_ai_review state_merging
  push_moves :
      in_state issue state_pushing ≡ true
      → push_final_passes said ≡ true
      → Move issue said state_pushing state_done
  merge_moves :
      in_state issue state_merging ≡ true
      → merge_final_passes said ≡ true
      → Move issue said state_merging state_done

-- An agent said it in some turn.
abbrev pub Said : (ℕ → Turn) → Text → Type 0
Said turns said = (n : ℕ) × Memᴰ said (turns n).messages

-- A write that the policy allows, of an issue as the tracker gave it after some turn, and that the
-- agent asked for.
abbrev pub Justified : Setting → (ℕ → Turn) → StateWrite → Type 0
Justified setting turns w =
    (state_write_extension_enabled setting.config ≡ true)
    × (n : ℕ) × (said : Text) × Said turns said
    × (w.issue_id ≡ (turns n).refreshed.id)
    × Move (turns n).refreshed said w.from_state w.to_state

and-left : (a b : Bool) → (a && b) ≡ true → a ≡ true
and-left a b h = ground arith

and-right : (a b : Bool) → (a && b) ≡ true → b ≡ true
and-right a b h = ground arith

review_silent : review_final_passes [] ≡ false
unfolding review_final_passes any has_prefix to_lower trim_space
review_silent = refl

push_silent : push_final_passes [] ≡ false
unfolding push_final_passes has_prefix to_lower trim_space
push_silent = refl

merge_silent : merge_final_passes [] ≡ false
unfolding merge_final_passes has_prefix to_lower trim_space
merge_silent = refl

module _ (setting : Setting) (turns : ℕ → Turn) where
  -- The last agent message is the initial one or was said.
  abbrev pub Heard : Text → Type 0
  Heard text = (text ≡ []) ⊎ Said turns text

  -- What every step of a session keeps.
  abbrev pub Good : Session → Type 0
  Good s = All (Justified setting turns) s.writes × Heard s.last_agent_message

  spoken :
      (p : Text → Bool) (text : Text) → p [] ≡ false → Heard text → p text ≡ true → Said turns text
  spoken p text empty (inl e) h = cc
  spoken p text empty (inr said) h = said

  pub hear-Heard :
      (n : ℕ) (texts : List Text) (last : Text)
      → ((t : Text) → Memᴰ t texts → Said turns t)
      → Heard last
      → Heard (hear texts last)
  unfolding hear
  hear-Heard n [] last said heard = heard
  hear-Heard n ([] ∷ texts) last said heard =
      hear-Heard n texts last (λ t m. said t (Memᴰ.tail m)) heard
  hear-Heard n ((c ∷ cs) ∷ texts) last said heard =
      hear-Heard n texts (c ∷ cs) (λ t m. said t (Memᴰ.tail m))
        (inr (said (c ∷ cs) (Memᴰ.head refl)))

  module _ (n : ℕ) where
    -- The session as AfterTurn sees it: the tracker's issue, after the `n`th turn.
    abbrev pub Seen : Session → Type 0
    Seen s = (s.current_issue ≡ (turns n).refreshed) × Good s

    apply_pass-Good :
        (from to : Text) (err : Option RunError) (s : Session) (said : Text)
        → Seen s
        → state_write_extension_enabled setting.config ≡ true
        → Said turns said
        → Move s.current_issue said from to
        → Good (apply_pass from to err s)
    unfolding apply_pass
    apply_pass-Good from to none s said (same, (writes, heard)) enabled heard_it move = (
      (
        (
          enabled,
          n,
          said,
          heard_it,
          ap (λ i. i.id) same,
          subst (λ i. Move i said from to) same move,
        ),
        writes,
      ),
      heard,
    )
    apply_pass-Good from to (some err) s said (same, (writes, heard)) enabled heard_it move = (
      (
        (
          enabled,
          n,
          said,
          heard_it,
          ap (λ i. i.id) same,
          subst (λ i. Move i said from to) same move,
        ),
        writes,
      ),
      heard,
    )

    review_applied-Good :
        (count : ℕ) (err : Option RunError) (s : Session)
        → Good s
        → Good (review_applied count err s).0
    unfolding review_applied go_on end_with
    review_applied-Good count none s good = good
    review_applied-Good count (some err) s good = good

    final_applied-Good :
        (err : Option RunError) (s : Session) → Good s → Good (final_applied err s).0
    unfolding final_applied end_with
    final_applied-Good none s good = good
    final_applied-Good (some err) s good = good

    if_enabled-Good :
        (s : Session) (next : Session × AfterTurn)
        → Good s
        → (state_write_extension_enabled setting.config ≡ true → Good next.0)
        → Good (if_enabled setting.config s next).0
    unfolding if_enabled end_with
    if_enabled-Good s next good then_good =
        if_case (λ (r : Session × AfterTurn). Good r.0)
          (state_write_extension_enabled setting.config) then_good (λ _. good)

    -- A pass that the agent asked for in the state it needs.
    passed-Good :
        (from to : Text) (p : Text → Bool) (s : Session)
        → p [] ≡ false
        → Seen s
        → p s.last_agent_message ≡ true
        → Move s.current_issue s.last_agent_message from to
        → state_write_extension_enabled setting.config ≡ true
        → Good (apply_pass from to (turns n).update_error s)
    passed-Good from to p s empty seen asked move enabled =
        apply_pass-Good from to (turns n).update_error s s.last_agent_message seen enabled
          (spoken p s.last_agent_message empty seen.1.1 asked) move

    review_pass-Good :
        (count : ℕ) (s : Session)
        → Seen s
        → review_state_passes s.current_issue s.last_agent_message ≡ true
        → Good
            (if_enabled setting.config s (
              review_applied count
                (turns n).update_error
                (apply_review_pass (turns n).update_error s))).0
    unfolding review_state_passes apply_review_pass
    review_pass-Good count s seen h =
        let asked = and-right _ _ h in
        if_enabled-Good s _ seen.1 (λ enabled. review_applied-Good count (turns n).update_error _ (
          passed-Good state_ai_review state_merging review_final_passes s review_silent seen asked
            (review_moves (and-left _ _ h) asked) enabled))

    push_pass-Good :
        (s : Session)
        → Seen s
        → pushing_state_passes s.current_issue s.last_agent_message ≡ true
        → Good
            (if_enabled setting.config s
              (final_applied (turns n).update_error (apply_push_pass (turns n).update_error s))).0
    unfolding pushing_state_passes apply_push_pass
    push_pass-Good s seen h =
        let asked = and-right _ _ h in
        if_enabled-Good s _ seen.1 (λ enabled. final_applied-Good (turns n).update_error _ (
          passed-Good state_pushing state_done push_final_passes s push_silent seen asked
            (push_moves (and-left _ _ h) asked) enabled))

    merge_pass-Good :
        (s : Session)
        → Seen s
        → merging_state_passes s.current_issue s.last_agent_message ≡ true
        → Good
            (if_enabled setting.config s
              (final_applied (turns n).update_error (apply_merge_pass (turns n).update_error s))).0
    unfolding merging_state_passes apply_merge_pass
    merge_pass-Good s seen h =
        let asked = and-right _ _ h in
        if_enabled-Good s _ seen.1 (λ enabled. final_applied-Good (turns n).update_error _ (
          passed-Good state_merging state_done merge_final_passes s merge_silent seen asked
            (merge_moves (and-left _ _ h) asked) enabled))

    pub after_passes-Good :
        (start : Issue) (count : ℕ) (s : Session)
        → Seen s
        → Good (after_passes setting.config start (turns n) count s).0
    unfolding after_passes go_on end_with
    after_passes-Good start count s seen =
        let Fine : Session × AfterTurn → Type 0 = λ r. Good r.0 in
        if_case Fine (review_state_passes s.current_issue s.last_agent_message)
          (review_pass-Good count s seen)
          (λ _.
            if_case Fine
              (in_state start state_pushing
                && pushing_state_passes s.current_issue s.last_agent_message)
              (λ h. push_pass-Good s seen (and-right _ _ h))
              (λ _.
                if_case Fine (merging_state_passes s.current_issue s.last_agent_message)
                  (merge_pass-Good s seen)
                  (λ _.
                    if_case Fine (leb (max_turns setting.config) count) (λ _. seen.1)
                      (λ _. seen.1))))
