-- ===== src/Prelude/Keyed.antt =====
-- Slices of entries that carry a key, as snapshot.Running and snapshot.Retrying are: search, replace
-- or append, change, and drop, with the laws that keep the keys distinct.
use Prim.Native.Nat.{suc, ◌≤◌}
use mathlib.Core.Path.{◌≡◌, refl}
use mathlib.Core.Logic.{inl, inr}
use mathlib.Core.Bool.{Bool, true, false, not, ◌&&◌, ◌||◌}
use mathlib.Core.List.{List, [], ◌∷◌}
use mathlib.Core.Option.{Option, none, some}
use native.Mathlib.Omega.{arith}
use symphony_go.Prelude.Tests.{if◌then◌else◌, Bool-cases}
use symphony_go.Prelude.Texts.{Text, text_eq, text_eq_iff}
use symphony_go.Prelude.Lists.{length, any, filter}

module _ {ℓ} {A : Type ℓ} (key : A → Text) where
  unfoldable pub has_by : Text → List A → Bool
  unfolding any
  has_by id = any (λ x. text_eq (key x) id)

  -- The first entry of the same key is replaced; an entry of a new key goes to the end.
  unfoldable pub put_by : (A → A) → A → List A → List A
  put_by merge entry [] = entry ∷ []
  put_by merge entry (x ∷ xs) =
      let others = put_by merge entry xs in
      if text_eq (key x) (key entry) then merge x ∷ xs else x ∷ others

  -- A change to the first entry of a key, if there is one.
  unfoldable pub change_by : Text → (A → A) → List A → List A
  change_by id change [] = []
  change_by id change (x ∷ xs) =
      let others = change_by id change xs in
      if text_eq (key x) id then change x ∷ xs else x ∷ others

  unfoldable pub drop_by : Text → List A → List A
  unfolding filter
  drop_by id = filter (λ x. not (text_eq (key x) id))

  unfoldable pub find_by : Text → List A → Option A
  find_by id [] = none
  find_by id (x ∷ xs) = let others = find_by id xs in if text_eq (key x) id then some x else others

  abbrev pub Distinct : List A → Type 0
  Distinct [] = Unit
  Distinct (x ∷ xs) = (has_by (key x) xs ≡ false) × Distinct xs

  pub has_by-cons :
      (x : A) (j : Text) (xs : List A)
      → has_by j (x ∷ xs) ≡ true
      → (text_eq (key x) j || has_by j xs) ≡ true
  unfolding has_by
  has_by-cons x j xs h = h

  pub has_by-put_by :
      (merge : A → A) (entry : A) (j : Text) (xs : List A)
      → ((x : A) → key (merge x) ≡ key entry)
      → has_by j (put_by merge entry xs) ≡ (text_eq (key entry) j || has_by j xs)
  unfolding has_by put_by
  has_by-put_by merge entry j [] h = refl
  has_by-put_by merge entry j (x ∷ xs) h =
      ground (arith, h x, has_by-put_by merge entry j xs h, text_eq_iff (key x) (key entry))

  pub length-put_by :
      (merge : A → A) (entry : A) (xs : List A)
      → length (put_by merge entry xs)
        ≡ (if has_by (key entry) xs then length xs else suc (length xs))
  unfolding has_by put_by
  length-put_by merge entry [] = refl
  length-put_by merge entry (x ∷ xs) = ground (arith, length-put_by merge entry xs)

  pub put_by-Distinct :
      (merge : A → A) (entry : A) (xs : List A)
      → ((x : A) → key (merge x) ≡ key entry)
      → Distinct xs
      → Distinct (put_by merge entry xs)
  unfolding has_by put_by
  put_by-Distinct merge entry [] h d = ground arith
  put_by-Distinct merge entry (x ∷ xs) h d = ground (
    arith,
    h x,
    has_by-put_by merge entry (key x) xs h,
    put_by-Distinct merge entry xs h d.1,
    text_eq_iff (key x) (key entry),
    text_eq_iff (key entry) (key x),
  )

  pub has_by-change_by :
      (id : Text) (change : A → A) (j : Text) (xs : List A)
      → ((x : A) → key (change x) ≡ key x)
      → has_by j (change_by id change xs) ≡ has_by j xs
  unfolding has_by change_by
  has_by-change_by id change j [] h = refl
  has_by-change_by id change j (x ∷ xs) h = ground (arith, h x, has_by-change_by id change j xs h)

  pub length-change_by :
      (id : Text) (change : A → A) (xs : List A) → length (change_by id change xs) ≡ length xs
  unfolding change_by
  length-change_by id change [] = refl
  length-change_by id change (x ∷ xs) = ground (arith, length-change_by id change xs)

  pub change_by-Distinct :
      (id : Text) (change : A → A) (xs : List A)
      → ((x : A) → key (change x) ≡ key x)
      → Distinct xs
      → Distinct (change_by id change xs)
  unfolding has_by change_by
  change_by-Distinct id change [] h d = d
  change_by-Distinct id change (x ∷ xs) h d =
      ground
        (arith, h x, has_by-change_by id change (key x) xs h, change_by-Distinct id change xs h d.1)

  pub has_by-drop_by :
      (id j : Text) (xs : List A) → has_by j (drop_by id xs) ≡ (not (text_eq id j) && has_by j xs)
  unfolding has_by drop_by
  has_by-drop_by id j [] = ground arith
  has_by-drop_by id j (x ∷ xs) = ground (
    arith,
    has_by-drop_by id j xs,
    text_eq_iff (key x) id,
    text_eq_iff (key x) j,
    text_eq_iff id j,
  )

  pub length-drop_by-le : (id : Text) (xs : List A) → length (drop_by id xs) ≤ length xs
  unfolding drop_by
  length-drop_by-le id [] = omega arith
  length-drop_by-le id (x ∷ xs) = ground (arith, length-drop_by-le id xs)

  pub drop_by-Distinct : (id : Text) (xs : List A) → Distinct xs → Distinct (drop_by id xs)
  unfolding has_by drop_by
  drop_by-Distinct id [] d = d
  drop_by-Distinct id (x ∷ xs) d =
      ground (arith, has_by-drop_by id (key x) xs, drop_by-Distinct id xs d.1)

  pub find_by-has_by :
      (id : Text) (xs : List A)
      → has_by id xs ≡ true
      → (x : A) × (find_by id xs ≡ some x) × (key x ≡ id)
  unfolding has_by find_by
  find_by-has_by id [] h = cc
  find_by-has_by id (x ∷ xs) h = elim (Bool-cases (text_eq (key x) id)) [
    | inl hit ↦ (x, rw hit, (text_eq_iff (key x) id).0 hit)
    | inr miss ↦ rw miss (find_by-has_by id xs (rw miss at h))
  ]
