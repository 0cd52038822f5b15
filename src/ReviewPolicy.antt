-- ===== src/ReviewPolicy.antt =====
-- internal/service/orchestrator/review_policy.go: which review mode a workflow file selects, and
-- whether issues in "AI Review" are dispatched.
use symphony_go.Prelude.{
  Bool, false, ◌||◌, Text, codes, text_eq, to_lower, trim_space, if◌then◌else◌, not, ◌&&◌,
}
use symphony_go.Domain.{AgentConfig, AiReviewConfig}

unfoldable pub review_policy_human : Text
review_policy_human = codes "human"

unfoldable pub review_policy_ai : Text
review_policy_ai = codes "ai"

unfoldable pub review_policy_auto : Text
review_policy_auto = codes "auto"

pub record ReviewPolicy : Type 0 where
  pub mode : Text
  pub allow_manual_ai_review : Bool

unfoldable pub legacy_review_policy : AiReviewConfig → ReviewPolicy
legacy_review_policy review = record {
  mode =
      if review.enabled
      then (if review.auto_merge then review_policy_auto else review_policy_ai)
      else review_policy_human;
  allow_manual_ai_review = false;
}

unfoldable pub effective_review_policy : AgentConfig → ReviewPolicy
unfolding legacy_review_policy
effective_review_policy agent =
    let mode = to_lower (trim_space agent.review_policy.mode) in
    if text_eq mode (codes "") then legacy_review_policy agent.ai_review else record {
      mode =
          if not (text_eq mode review_policy_ai) && not (text_eq mode review_policy_auto)
          then review_policy_human
          else mode;
      allow_manual_ai_review = agent.review_policy.allow_manual_ai_review;
    }

unfoldable pub allows_ai_review_state : ReviewPolicy → Bool
allows_ai_review_state p =
    text_eq p.mode review_policy_ai || text_eq p.mode review_policy_auto || p.allow_manual_ai_review
