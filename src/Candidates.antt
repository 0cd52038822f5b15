-- ===== src/Candidates.antt =====
-- sortCandidates of internal/service/orchestrator/eligibility.go. sort.SliceStable is a parameter.
pub mod Order
pub mod Sorters
pub mod Sorting
use symphony_go.Prelude.{
  ℕ, ℤ, pos, negsuc, Bool, true, false, ◌||◌, not, Text, text_lt, if◌then◌else◌, Option, none, some,
  List, [], ◌∷◌, ltb, ◌==◌,
}
use symphony_go.Domain.{Issue}

unfoldable pub priority_sort_value : Option ℤ → ℕ
priority_sort_value none = 999
priority_sort_value (some (negsuc n)) = 999
priority_sort_value (some (pos n)) = if ltb n 1 || ltb 4 n then 999 else n

-- 9999-01-01T00:00:00Z in nanoseconds since the zero time.
abbrev pub far_future : ℕ
far_future = 315506361600000000000

unfoldable pub time_sort_value : Option ℕ → ℕ
time_sort_value none = far_future
time_sort_value (some t) = t

-- The three keys of the comparison.
pub record Rank : Type 0 where
  pub priority : ℕ
  pub created : ℕ
  pub identifier : Text

unfoldable pub rank : Issue → Rank
rank issue = record {
  priority = priority_sort_value issue.priority;
  created = time_sort_value issue.created_at;
  identifier = issue.identifier;
}

unfoldable pub rank_lt : Rank → Rank → Bool
rank_lt left right =
    if not (left.priority == right.priority)
    then ltb left.priority right.priority
    else if not (left.created == right.created)
    then ltb left.created right.created
    else text_lt left.identifier right.identifier

-- The function handed to sort.SliceStable.
unfoldable pub candidate_less : Issue → Issue → Bool
candidate_less left right = rank_lt (rank left) (rank right)

-- sort.SliceStable, which the caller gives.
abbrev pub Sorter : Type 0
Sorter = (Issue → Issue → Bool) → List Issue → List Issue

unfoldable pub sort_candidates : Sorter → List Issue → List Issue
sort_candidates slice_stable = slice_stable candidate_less
