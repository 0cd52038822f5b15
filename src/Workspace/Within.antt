-- ===== src/Workspace/Within.antt =====
-- pathWithin of internal/service/workspace/workspace.go on absolute paths: the elements of the root are
-- the first elements of the path.
use symphony_go.Prelude.{
  Bool, true, false, ◌≡◌, refl, sym, ap, ◌∙◌, not, ◌&&◌, Text, text_eq, text_eq_iff, text_eq→eq,
  has_prefix, if◌then◌else◌, lacks, join, Option, none, some, List, [], ◌∷◌, ◌++◌, All, arith,
  Bool-cases, inl, inr, ◌↔◌,
}
use symphony_go.Paths.{
  slash, dot_dot, is_abs, cleaned, show_path, strip_common, ups, starts_up, rel_parts, rel,
}
use symphony_go.Paths.Cleaned.{is_element, IsElement, absolute, cleaned-elements, cleaned-absolute}
use symphony_go.Workspace.{path_within}

-- `target` continues `base`.
abbrev pub Extends : List Text → List Text → Type 0
Extends base target = (rest : List Text) × (target ≡ base ++ rest)

strip_common-Extends :
    (base target : List Text)
    → (strip_common base target).0 ≡ []
    → target ≡ base ++ (strip_common base target).1
unfolding strip_common
strip_common-Extends [] target h = refl
strip_common-Extends (b ∷ base) [] h = cc
strip_common-Extends (b ∷ base) (t ∷ target) h =
    ground (arith, strip_common-Extends base target, text_eq→eq b t)

strip_common-append : (base rest : List Text) → strip_common base (base ++ rest) ≡ ([], rest)
unfolding strip_common
strip_common-append [] rest = refl
strip_common-append (b ∷ base) rest = ground (arith, strip_common-append base rest, text_eq_iff b b)

-- The test of pathWithin on a relative path.
abbrev stays : Text → Bool
stays relative =
    not (text_eq relative dot_dot)
    && not (has_prefix relative (dot_dot ++ (slash ∷ [])))
    && not (is_abs relative)

up_leaves : (rest : List Text) → stays (join slash (dot_dot ∷ rest)) ≡ false
unfolding join text_eq has_prefix
up_leaves [] = refl
up_leaves (r ∷ rest) = refl

first-lacks : (p : Text) (parts : List Text) → IsElement p → stays (join slash (p ∷ parts)) ≡ true
unfolding is_element join text_eq has_prefix lacks is_abs
first-lacks [] parts h = ground arith
first-lacks (a ∷ []) [] h = ground arith
first-lacks (a ∷ []) (q ∷ parts) h = ground arith
first-lacks (a ∷ b ∷ []) [] h = ground arith
first-lacks (a ∷ b ∷ []) (q ∷ parts) h = ground arith
first-lacks (a ∷ b ∷ c ∷ p) [] h = ground arith
first-lacks (a ∷ b ∷ c ∷ p) (q ∷ parts) h = ground arith

elements_stay :
    (parts : List Text)
    → All IsElement parts
    → stays (show_path (record { rooted = false; parts = parts })) ≡ true
unfolding show_path text_eq has_prefix is_abs
elements_stay [] h = refl
elements_stay (p ∷ parts) (h, hs) = first-lacks p parts h

-- pathWithin behind the cleaning of the two paths.
abbrev within_parts : Option (List Text) → Bool
within_parts none = false
within_parts (some parts) = stays (show_path (record { rooted = false; parts = parts }))

-- The same on what is left of the root and of the path.
leftover : List Text → List Text → Option (List Text)
leftover down up = if starts_up down then none else some (ups down ++ up)

leftover-down : (down up : List Text) → within_parts (leftover down up) ≡ true → down ≡ []
unfolding leftover ups starts_up show_path
leftover-down [] up h = refl
leftover-down (d ∷ down) up h = elim (Bool-cases (text_eq d dot_dot)) [
  | inl e ↦ let wrong : within_parts (leftover (d ∷ down) up) ≡ false = rw e refl in ground arith
  | inr e ↦
      let wrong : within_parts (leftover (d ∷ down) up) ≡ false =
        rw e (up_leaves (ups down ++ up)) in
      ground arith
]

rel_parts-leftover :
    (base target : List Text)
    → rel_parts (absolute base) (absolute target)
      ≡ leftover (strip_common base target).0 (strip_common base target).1
unfolding rel_parts leftover
rel_parts-leftover base target = refl

All-suffix : (xs ys : List Text) → All IsElement (xs ++ ys) → All IsElement ys
All-suffix [] ys h = h
All-suffix (x ∷ xs) ys (h, hs) = All-suffix xs ys hs

extension_stays : (rest : List Text) → All IsElement rest → within_parts (leftover [] rest) ≡ true
unfolding leftover ups starts_up
extension_stays rest h = elements_stay rest h

within_parts_iff :
    (base target : List Text)
    → All IsElement target
    → (within_parts (rel_parts (absolute base) (absolute target)) ≡ true) ↔ Extends base target
within_parts_iff base target elements = (
  λ h.
      let (down, up) = strip_common base target in
      let same : within_parts (leftover (strip_common base target).0 (strip_common base target).1)
          ≡ true =
        rw (← rel_parts-leftover base target) h in
      (
        (strip_common base target).1,
        strip_common-Extends base target
            (leftover-down (strip_common base target).0 (strip_common base target).1 same),
      ),
  λ e.
      rw (rel_parts-leftover base target, e.1, strip_common-append base e.0)
        (extension_stays e.0 (All-suffix base e.0 (rw e.1 at elements))),
)

path_within-parts :
    (root path : Text)
    → path_within root path ≡ within_parts (rel_parts (cleaned root) (cleaned path))
unfolding path_within rel
path_within-parts root path = ground arith

-- pathWithin on two absolute paths.
pub path_within_iff :
    (root path : Text)
    → is_abs root ≡ true
    → is_abs path ≡ true
    → (path_within root path ≡ true) ↔ Extends (cleaned root).parts (cleaned path).parts
path_within_iff root path r p =
    let spec =
      within_parts_iff (cleaned root).parts (cleaned path).parts (cleaned-elements path p) in
    let same : path_within root path
        ≡ within_parts (rel_parts (absolute (cleaned root).parts) (absolute (cleaned path).parts)) =
      path_within-parts root path
      ∙ ap within_parts (
          ap (λ q. rel_parts q (cleaned path)) (cleaned-absolute root r)
          ∙ ap (rel_parts (absolute (cleaned root).parts)) (cleaned-absolute path p)) in
    (λ h. spec.0 (sym same ∙ h), λ e. same ∙ spec.1 e)
