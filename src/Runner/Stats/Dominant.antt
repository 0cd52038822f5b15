-- ===== src/Runner/Stats/Dominant.antt =====
-- DominantCommandKind of internal/service/codex/runner.go finds the first of the most frequent kinds.
use symphony_go.Prelude.{
  ℕ, ltb, ltb→lt, ◌<◌, ◌≤◌, Option, none, some, List, [], ◌∷◌, ◌++◌, All, Bool-cases, inl, inr, ◌≡◌,
  refl, ap, arith,
}
use symphony_go.Runner.Commands.{Kind}
use symphony_go.Runner.Stats.{TurnStats, kinds, first_maximal, dominant_command_kind}

abbrev pub AtMost : ℕ → Kind × ℕ → Type 0
AtMost n (kind, count) = count ≤ n

abbrev pub Below : ℕ → Kind × ℕ → Type 0
Below n (kind, count) = count < n

-- What the loop returns from the leader so far: that one, if nobody has more, or the first of the best.
pub data Leader (all : List (Kind × ℕ)) (dominant : Option Kind) (max : ℕ)
    : Option Kind → Type 0 where
  stays : All (AtMost max) all → Leader all dominant max dominant
  leads :
      (before : List (Kind × ℕ)) (kind : Kind) (count : ℕ) (after : List (Kind × ℕ))
      → all ≡ before ++ ((kind, count) ∷ after)
      → max < count
      → All (Below count) before
      → All (AtMost count) after
      → Leader all dominant max (some kind)

-- A better kind in front, which leads the rest.
overtaken :
    (kind : Kind) (count : ℕ) (all : List (Kind × ℕ)) (dominant result : Option Kind) (max : ℕ)
    → max < count
    → Leader all (some kind) count result
    → Leader ((kind, count) ∷ all) dominant max result
overtaken kind count all dominant result max h (stays rest) = leads [] kind count all refl h tt rest
overtaken kind count all dominant result max h (leads before k n after e more below least) =
    leads ((kind, count) ∷ before) k n after (ap (λ ks. (kind, count) ∷ ks) e)
      (omega (arith, h, more)) (more, below) least

-- A kind in front that is no better.
passed_over :
    (kind : Kind) (count : ℕ) (all : List (Kind × ℕ)) (dominant result : Option Kind) (max : ℕ)
    → count ≤ max
    → Leader all dominant max result
    → Leader ((kind, count) ∷ all) dominant max result
passed_over kind count all dominant result max h (stays rest) = stays (h, rest)
passed_over kind count all dominant result max h (leads before k n after e more below least) =
    leads ((kind, count) ∷ before) k n after (ap (λ ks. (kind, count) ∷ ks) e) more
      (omega (arith, h, more), below) least

first_maximal-Leader :
    (all : List (Kind × ℕ)) (dominant : Option Kind) (max : ℕ)
    → Leader all dominant max (first_maximal all dominant max)
unfolding first_maximal
first_maximal-Leader [] dominant max = stays tt
first_maximal-Leader ((kind, count) ∷ all) dominant max = elim (Bool-cases (ltb max count)) [
  | inl more ↦ rw more (
      overtaken kind count all dominant (first_maximal all (some kind) count) max
        (ltb→lt max count more) (first_maximal-Leader all (some kind) count))
  | inr not_more ↦ rw not_more (
      passed_over kind count all dominant (first_maximal all dominant max) max
        (ground (arith, not_more)) (first_maximal-Leader all dominant max))
]

-- The dominant kind: without one nothing was counted; otherwise it has a positive count, each kind listed
-- before it has a smaller count, and each one behind it has no greater one.
pub dominant_command_kind-Leader :
    (s : TurnStats) → Leader (kinds s) none 0 (dominant_command_kind s)
unfolding dominant_command_kind
dominant_command_kind-Leader s = first_maximal-Leader (kinds s) none 0
