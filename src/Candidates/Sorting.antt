-- ===== src/Candidates/Sorting.antt =====
-- sortCandidates of internal/service/orchestrator/eligibility.go against an order of its own: by urgency,
-- then by age, then by identifier.
use mathlib.Core.List.{Perm}
use symphony_go.Prelude.{
  ℕ, ◌<◌, ◌≤◌, leb, ◌==◌, ℤ, pos, negsuc, Bool, false, ◌≡◌, refl, sym, ◌∙◌, List, [], ◌∷◌, arith,
  All, All-weaken, ◌&&◌, not, filter, ◌⊎◌, Text, text_lt, text_eq, Option, none, some,
  if◌then◌else◌,
}
use symphony_go.Domain.{Issue}
use symphony_go.Candidates.{
  priority_sort_value, time_sort_value, far_future, rank, rank_lt, candidate_less, Sorter,
  sort_candidates,
}
use symphony_go.Candidates.Order.{candidate_less-IsStrictOrder}
use symphony_go.Candidates.Sorters.{IsStable, IsSorted, ties}

-- Linear's priorities: 1 is urgent, 4 is low; any other number, and none, is behind them.
unfoldable pub urgency : Issue → ℕ
urgency issue = elim issue.priority [ some (pos n) ↦ if leb 1 n && leb n 4 then n else 5 | _ ↦ 5 ]

-- An issue without a time counts as made in the year 9999.
unfoldable pub made_at : Issue → ℕ
made_at issue = elim issue.created_at [ none ↦ far_future | some time ↦ time ]

-- The alphabetical order of two texts.
abbrev pub TextAtMost : Text → Text → Type 0
TextAtMost [] b = Unit
TextAtMost (x ∷ xs) [] = ⊥
TextAtMost (x ∷ xs) (y ∷ ys) = (x < y) ⊎ ((x ≡ y) × TextAtMost xs ys)

-- The more urgent issue goes first, then the older one, then the one with the smaller identifier.
abbrev pub Precedes : Issue → Issue → Type 0
Precedes a b =
    (urgency a < urgency b)
    ⊎ ((urgency a ≡ urgency b)
        × ((made_at a < made_at b)
            ⊎ ((made_at a ≡ made_at b) × TextAtMost a.identifier b.identifier)))

abbrev pub InOrder : List Issue → Type 0
InOrder [] = Unit
InOrder (x ∷ xs) = All (Precedes x) xs × InOrder xs

unfoldable pub same_place : Issue → Issue → Bool
same_place a b =
    urgency a == urgency b && made_at a == made_at b && text_eq a.identifier b.identifier

text_lt-AtMost : (a b : Text) → text_lt b a ≡ false → TextAtMost a b
unfolding text_lt
text_lt-AtMost [] b h = tt
text_lt-AtMost (x ∷ xs) [] h = cc
text_lt-AtMost (x ∷ xs) (y ∷ ys) h = ground (arith, text_lt-AtMost xs ys)

text_lt-eq : (a b : Text) → (not (text_lt a b) && not (text_lt b a)) ≡ text_eq a b
unfolding text_lt text_eq
text_lt-eq [] [] = refl
text_lt-eq [] (y ∷ ys) = refl
text_lt-eq (x ∷ xs) [] = refl
text_lt-eq (x ∷ xs) (y ∷ ys) = ground (arith, text_lt-eq xs ys)

abbrev level : Option ℤ → ℕ
level (some (pos n)) = if leb 1 n && leb n 4 then n else 5
level _ = 5

-- The code's number for a priority is the urgency, or 999 for the last.
abbrev Numbers : ℕ → ℕ → Type 0
Numbers value urgent = (urgent ≤ 5) × (value ≡ (if urgent == 5 then 999 else urgent))

level-value : (p : Option ℤ) → Numbers (priority_sort_value p) (level p)
unfolding priority_sort_value
level-value none = (omega arith, refl)
level-value (some (negsuc n)) = (omega arith, refl)
level-value (some (pos n)) = (ground arith, ground arith)

urgency-value : (a : Issue) → Numbers (priority_sort_value a.priority) (urgency a)
unfolding urgency
urgency-value a = level-value a.priority

time-value : (t : Option ℕ) → time_sort_value t ≡ (elim t [ none ↦ far_future | some time ↦ time ])
unfolding time_sort_value
time-value none = refl
time-value (some t) = refl

made_at-value : (a : Issue) → time_sort_value a.created_at ≡ made_at a
unfolding made_at
made_at-value a = time-value a.created_at

less-Precedes : (a b : Issue) → candidate_less b a ≡ false → Precedes a b
unfolding candidate_less rank_lt rank
less-Precedes a b h = ground (
  arith,
  urgency-value a,
  urgency-value b,
  made_at-value a,
  made_at-value b,
  text_lt-AtMost a.identifier b.identifier,
)

ties-same_place : (a b : Issue) → ties candidate_less a b ≡ same_place a b
unfolding ties same_place candidate_less rank_lt rank
ties-same_place a b = ground (
  arith,
  urgency-value a,
  urgency-value b,
  made_at-value a,
  made_at-value b,
  text_lt-eq a.identifier b.identifier,
)

IsSorted-InOrder : (xs : List Issue) → IsSorted candidate_less xs → InOrder xs
IsSorted-InOrder [] h = tt
IsSorted-InOrder (x ∷ xs) (first, rest) = (
  All-weaken (λ y. candidate_less y x ≡ false) (Precedes x) xs (λ y. less-Precedes x y) first,
  IsSorted-InOrder xs rest,
)

filter-ties :
    (k : Issue) (xs : List Issue) → filter (ties candidate_less k) xs ≡ filter (same_place k) xs
unfolding filter
filter-ties k [] = refl
filter-ties k (x ∷ xs) = ground (arith, ties-same_place k x, filter-ties k xs)

-- Let the sort be stable, as sort.SliceStable is documented to be. sortCandidates returns a permutation of its
-- input in which every issue may stand before all later ones: the more urgent first (priorities 1 to 4, then
-- all others), then the one made earlier, then the one with the smaller identifier; and issues that agree in
-- all three keep their order.
pub sort_candidates-stable_sort :
    (slice_stable : Sorter) (stable : IsStable slice_stable) (xs : List Issue)
    → Perm (sort_candidates slice_stable xs) xs
      × InOrder (sort_candidates slice_stable xs)
      × ((k : Issue)
          → filter (same_place k) (sort_candidates slice_stable xs) ≡ filter (same_place k) xs)
unfolding sort_candidates
sort_candidates-stable_sort slice_stable stable xs =
    let order = candidate_less-IsStrictOrder in
    let sorted = slice_stable candidate_less xs in
    (
      stable.permutes candidate_less order xs,
      IsSorted-InOrder sorted (stable.sorts candidate_less order xs),
      λ k. sym (filter-ties k sorted) ∙ (stable.keeps candidate_less order k xs ∙ filter-ties k xs),
    )
