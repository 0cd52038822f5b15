-- ===== src/Prelude/Splits.antt =====
-- strings.Split and strings.Join for a separator of one byte.
use Prim.Native.Nat.{ℕ}
use mathlib.Core.Path.{◌≡◌, refl, sym, ap, ◌∙◌}
use mathlib.Core.Bool.{Bool, true, false, not, ◌&&◌}
use mathlib.Core.List.{List, [], ◌∷◌, ◌++◌}
use native.Mathlib.Omega.{arith}
use symphony_go.Prelude.Tests.{◌==◌, if◌then◌else◌, Bool-cases, if_case}
use symphony_go.Prelude.Lists.{All}
use symphony_go.Prelude.Texts.{Text}
use mathlib.Core.Logic.{◌≢◌, inl, inr}

abbrev push_first : ℕ → List Text → List Text
push_first c [] = (c ∷ []) ∷ []
push_first c (part ∷ parts) = (c ∷ part) ∷ parts

-- strings.Split(s, string(sep))
unfoldable pub split : ℕ → Text → List Text
split sep [] = [] ∷ []
split sep (c ∷ s) = let rest = split sep s in if c == sep then [] ∷ rest else push_first c rest

-- strings.Join(parts, string(sep))
unfoldable pub join : ℕ → List Text → Text
join sep [] = []
join sep (part ∷ []) = part
join sep (part ∷ next ∷ parts) = part ++ (sep ∷ join sep (next ∷ parts))

unfoldable pub lacks : ℕ → Text → Bool
lacks sep [] = true
lacks sep (c ∷ s) = not (c == sep) && lacks sep s

split-lacks : (sep : ℕ) (part : Text) → lacks sep part ≡ true → split sep part ≡ part ∷ []
unfolding split lacks
split-lacks sep [] h = refl
split-lacks sep (c ∷ s) h = ground (arith, split-lacks sep s)

-- The parts before and after a separator.
pub split-append :
    (sep : ℕ) (part s : Text)
    → lacks sep part ≡ true
    → split sep (part ++ (sep ∷ s)) ≡ part ∷ split sep s
unfolding split lacks
split-append sep [] s h = ground arith
split-append sep (c ∷ part) s h = ground (arith, split-append sep part s)

pub split-join :
    (sep : ℕ) (part : Text) (parts : List Text)
    → lacks sep part ≡ true
    → All (λ p. lacks sep p ≡ true) parts
    → split sep (join sep (part ∷ parts)) ≡ part ∷ parts
unfolding join
split-join sep part [] h hs = split-lacks sep part h
split-join sep part (next ∷ parts) h (g, gs) =
    split-append sep part (join sep (next ∷ parts)) h
    ∙ ap (λ ps. part ∷ ps) (split-join sep next parts g gs)

split-ne-nil : (sep : ℕ) (s : Text) → split sep s ≢ []
unfolding split
split-ne-nil sep [] = λ h. cc
split-ne-nil sep (c ∷ s) =
    elim (split sep s) as (λ parts. (if c == sep then [] ∷ parts else push_first c parts) ≢ []) [
      | [] ↦ if_case (λ parts. parts ≢ []) (c == sep) (λ _ h. cc) (λ _ h. cc)
      | part ∷ parts ↦ if_case (λ parts. parts ≢ []) (c == sep) (λ _ h. cc) (λ _ h. cc)
    ]

push_first-append :
    (c : ℕ) (ps qs : List Text) → ps ≢ [] → push_first c ps ++ qs ≡ push_first c (ps ++ qs)
push_first-append c [] qs ne = absurd (ne refl)
push_first-append c (p ∷ ps) qs ne = refl

push_first-lacks :
    (sep c : ℕ) (ps : List Text)
    → (c == sep) ≡ false
    → All (λ p. lacks sep p ≡ true) ps
    → All (λ p. lacks sep p ≡ true) (push_first c ps)
unfolding lacks
push_first-lacks sep c [] other h = (ground arith, tt)
push_first-lacks sep c (p ∷ ps) other (h, hs) = (ground arith, hs)

-- Any text before a separator.
pub split-append_sep :
    (sep : ℕ) (a b : Text) → split sep (a ++ (sep ∷ b)) ≡ split sep a ++ split sep b
unfolding split
split-append_sep sep [] b = ground arith
split-append_sep sep (c ∷ a) b = elim (Bool-cases (c == sep)) [
  | inl same ↦ rw (same, split-append_sep sep a b) refl
  | inr other ↦
      rw (other, split-append_sep sep a b)
        (sym (push_first-append c (split sep a) (split sep b) (split-ne-nil sep a)))
]

pub split-lacks_parts : (sep : ℕ) (s : Text) → All (λ p. lacks sep p ≡ true) (split sep s)
unfolding split lacks
split-lacks_parts sep [] = (refl, tt)
split-lacks_parts sep (c ∷ s) =
    if_case (All (λ p. lacks sep p ≡ true)) (c == sep) (λ _. (refl, split-lacks_parts sep s))
      (λ other. push_first-lacks sep c (split sep s) other (split-lacks_parts sep s))

join-push_first :
    (sep c : ℕ) (ps : List Text) → ps ≢ [] → join sep (push_first c ps) ≡ c ∷ join sep ps
unfolding join
join-push_first sep c [] ne = absurd (ne refl)
join-push_first sep c (p ∷ []) ne = refl
join-push_first sep c (p ∷ q ∷ ps) ne = refl

join-empty : (sep : ℕ) (ps : List Text) → ps ≢ [] → join sep ([] ∷ ps) ≡ sep ∷ join sep ps
unfolding join
join-empty sep [] ne = absurd (ne refl)
join-empty sep (p ∷ ps) ne = refl

-- The parts of a text, put together again.
pub join-split : (sep : ℕ) (s : Text) → join sep (split sep s) ≡ s
unfolding split join
join-split sep [] = refl
join-split sep (c ∷ s) = elim (Bool-cases (c == sep)) [
  | inl same ↦
      let c_is : c ≡ sep = ground arith in
      ap (λ b. join sep (if b then [] ∷ split sep s else push_first c (split sep s))) same
      ∙ (join-empty sep (split sep s) (split-ne-nil sep s) ∙ rw (join-split sep s, c_is) refl)
  | inr other ↦
      ap (λ b. join sep (if b then [] ∷ split sep s else push_first c (split sep s))) other
      ∙ (join-push_first sep c (split sep s) (split-ne-nil sep s)
          ∙ ap (λ t. c ∷ t) (join-split sep s))
]
