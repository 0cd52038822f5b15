-- ===== src/Candidates/Sorters.antt =====
-- What the documentation of sort.SliceStable promises, and an insertion sort that keeps the promise.
use mathlib.Core.List.{Perm}
use mathlib.Core.List.Perm
use symphony_go.Prelude.{
  Bool, true, false, ◌≡◌, refl, List, [], ◌∷◌, arith, All, ◌&&◌, not, filter, ◌∙◌, Bool-cases, inl,
  inr, if◌then◌else◌,
}
use symphony_go.Domain.{Issue}
use symphony_go.Candidates.{Sorter}

-- The requirement on the comparison.
pub record IsStrictOrder (less : Issue → Issue → Bool) : Type 0 where
  pub asymm : (a b : Issue) → less a b ≡ true → less b a ≡ false
  pub cotrans : (a b c : Issue) → less b a ≡ false → less c b ≡ false → less c a ≡ false

-- No later issue is less than an earlier one.
abbrev pub NotBefore : (Issue → Issue → Bool) → Issue → List Issue → Type 0
NotBefore less x = All (λ y. less y x ≡ false)

abbrev pub IsSorted : (Issue → Issue → Bool) → List Issue → Type 0
IsSorted less [] = Unit {0}
IsSorted less (x ∷ xs) = NotBefore less x xs × IsSorted less xs

-- Neither issue is less than the other.
unfoldable pub ties : (Issue → Issue → Bool) → Issue → Issue → Bool
ties less a b = not (less a b) && not (less b a)

-- "SliceStable sorts the slice x using the provided less function, keeping equal elements in their
-- original order."
pub record IsStable (slice_stable : Sorter) : Type 0 where
  pub permutes :
      (less : Issue → Issue → Bool)
      → IsStrictOrder less
      → (xs : List Issue) → Perm (slice_stable less xs) xs
  pub sorts :
      (less : Issue → Issue → Bool)
      → IsStrictOrder less
      → (xs : List Issue) → IsSorted less (slice_stable less xs)
  pub keeps :
      (less : Issue → Issue → Bool)
      → IsStrictOrder less
      → (k : Issue) (xs : List Issue)
      → filter (ties less k) (slice_stable less xs) ≡ filter (ties less k) xs

-- Before the first entry that is not less.
insert_before : (Issue → Issue → Bool) → Issue → List Issue → List Issue
insert_before less x [] = x ∷ []
insert_before less x (y ∷ ys) =
    let rest = insert_before less x ys in if less y x then y ∷ rest else x ∷ y ∷ ys

unfoldable pub insertion_sort : Sorter
unfolding insert_before
insertion_sort less [] = []
insertion_sort less (x ∷ xs) = insert_before less x (insertion_sort less xs)

module _ (less : Issue → Issue → Bool) (order : IsStrictOrder less) where
  NotBefore-trans :
      (x y : Issue) (zs : List Issue) → less y x ≡ false → NotBefore less y zs → NotBefore less x zs
  NotBefore-trans x y [] h k = tt
  NotBefore-trans x y (z ∷ zs) h k = (order.cotrans x y z h k.0, NotBefore-trans x y zs h k.1)

  NotBefore-insert :
      (x y : Issue) (zs : List Issue)
      → less x y ≡ false
      → NotBefore less y zs
      → NotBefore less y (insert_before less x zs)
  unfolding insert_before
  NotBefore-insert x y [] h k = (h, tt)
  NotBefore-insert x y (z ∷ zs) h k = ground (arith, NotBefore-insert x y zs h k.1)

  insert-IsSorted :
      (x : Issue) (ys : List Issue) → IsSorted less ys → IsSorted less (insert_before less x ys)
  unfolding insert_before
  insert-IsSorted x [] h = (tt, tt)
  insert-IsSorted x (y ∷ ys) h = elim (Bool-cases (less y x)) [
    | inl before ↦
        rw before (NotBefore-insert x y ys (order.asymm y x before) h.0, insert-IsSorted x ys h.1)
    | inr after ↦ rw after ((after, NotBefore-trans x y ys after h.0), h)
  ]

  insert-perm : (x : Issue) (ys : List Issue) → Perm (insert_before less x ys) (x ∷ ys)
  unfolding insert_before
  insert-perm x [] = Perm.rfl
  insert-perm x (y ∷ ys) = elim (Bool-cases (less y x)) [
    | inl before ↦ rw before (Perm.trans (Perm.cons y (insert-perm x ys)) (Perm.swap x y ys))
    | inr after ↦ rw after Perm.rfl
  ]

  insertion_sort-IsSorted : (xs : List Issue) → IsSorted less (insertion_sort less xs)
  unfolding insertion_sort
  insertion_sort-IsSorted [] = tt
  insertion_sort-IsSorted (x ∷ xs) =
      insert-IsSorted x (insertion_sort less xs) (insertion_sort-IsSorted xs)

  insertion_sort-perm : (xs : List Issue) → Perm (insertion_sort less xs) xs
  unfolding insertion_sort
  insertion_sort-perm [] = Perm.nil
  insertion_sort-perm (x ∷ xs) =
      Perm.trans (insert-perm x (insertion_sort less xs)) (Perm.cons x (insertion_sort-perm xs))

  -- An issue that is passed over ties with `k` only if the inserted one does not.
  tie_passed : (k x y : Issue) → less y x ≡ true → ties less k y ≡ true → ties less k x ≡ false
  unfolding ties
  tie_passed k x y h t = ground (arith, order.cotrans k y x, order.cotrans x k y)

  filter-insert :
      (k x : Issue) (ys : List Issue)
      → filter (ties less k) (insert_before less x ys) ≡ filter (ties less k) (x ∷ ys)
  unfolding insert_before filter
  filter-insert k x [] = refl
  filter-insert k x (y ∷ ys) = ground (arith, filter-insert k x ys, tie_passed k x y)

  insertion_sort-stable :
      (k : Issue) (xs : List Issue)
      → filter (ties less k) (insertion_sort less xs) ≡ filter (ties less k) xs
  unfolding insertion_sort filter
  insertion_sort-stable k [] = refl
  insertion_sort-stable k (x ∷ xs) =
      filter-insert k x (insertion_sort less xs) ∙ ground (arith, insertion_sort-stable k xs)

pub insertion_sort-IsStable : IsStable insertion_sort
insertion_sort-IsStable = record {
  permutes = insertion_sort-perm;
  sorts = insertion_sort-IsSorted;
  keeps = insertion_sort-stable;
}
