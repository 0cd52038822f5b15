-- ===== src/Paths/Cleaned.antt =====
-- Absolute paths: a cleaned path is shown and cleaned again without change.
use mathlib.Core.List.{reverse, reverse-cons, append_assoc, append-nil}
use symphony_go.Prelude.{
  ℕ, ◌≡◌, refl, sym, ap, ◌∙◌, subst, Bool, true, false, not, ◌&&◌, ◌||◌, Text, text_eq, split, join,
  lacks, split-join, split-lacks_parts, split-append_sep, if_case, some, List, [], ◌∷◌, ◌++◌, All,
  All-append, All-weaken, All-reverse, arith, Bool-cases, inl, inr,
}
use symphony_go.Paths.{
  slash, dot, dot_dot, is_abs, CleanPath, go_up, resolve, resolve_all, cleaned, show_path, clean,
  join_path, abs_path,
}

-- An element of a cleaned absolute path.
unfoldable pub is_element : Text → Bool
is_element p = not (text_eq p []) && not (text_eq p dot) && not (text_eq p dot_dot) && lacks slash p

abbrev pub IsElement : Text → Type 0
IsElement p = is_element p ≡ true

abbrev pub absolute : List Text → CleanPath
absolute parts = record { rooted = true; parts = parts }

IsElement-lacks : (p : Text) → IsElement p → lacks slash p ≡ true
unfolding is_element
IsElement-lacks p h = ground arith

resolve-IsElement : (stack : List Text) (p : Text) → IsElement p → resolve true stack p ≡ p ∷ stack
unfolding resolve is_element
resolve-IsElement stack p h = ground arith

-- Elements are kept as they are.
resolve_all-elements :
    (stack parts : List Text)
    → All IsElement parts
    → resolve_all true stack parts ≡ reverse stack ++ parts
unfolding resolve_all
resolve_all-elements stack [] h = sym (append-nil (reverse stack))
resolve_all-elements stack (p ∷ parts) (h, hs) =
    rw
      (resolve-IsElement stack p h, resolve_all-elements (p ∷ stack) parts hs, reverse-cons p stack)
      (append_assoc (reverse stack) (p ∷ []) parts)

go_up-All : (stack : List Text) → All IsElement stack → All IsElement (go_up true stack)
unfolding go_up is_element
go_up-All [] hs = tt
go_up-All (top ∷ stack) (h, hs) =
    if_case (All IsElement) (text_eq top dot_dot)
      (λ wrong. let e : true ≡ false = ground arith in cc) (λ _. hs)

IsElement-of :
    (p : Text)
    → lacks slash p ≡ true
    → (text_eq p [] || text_eq p dot) ≡ false
    → text_eq p dot_dot ≡ false
    → IsElement p
unfolding is_element
IsElement-of p h plain other = ground arith

resolve-All :
    (stack : List Text) (p : Text)
    → lacks slash p ≡ true
    → All IsElement stack
    → All IsElement (resolve true stack p)
unfolding resolve
resolve-All stack p h hs =
    if_case (All IsElement) (text_eq p [] || text_eq p dot) (λ _. hs)
      (λ plain.
        if_case (All IsElement) (text_eq p dot_dot) (λ _. go_up-All stack hs)
          (λ other. (IsElement-of p h plain other, hs)))

resolve_all-All :
    (stack parts : List Text)
    → All (λ p. lacks slash p ≡ true) parts
    → All IsElement stack
    → All IsElement (resolve_all true stack parts)
unfolding resolve_all
resolve_all-All stack [] h hs = All-reverse IsElement stack hs
resolve_all-All stack (p ∷ parts) (h, hs) e =
    resolve_all-All (resolve true stack p) parts hs (resolve-All stack p h e)

-- The elements of a cleaned absolute path are elements.
pub cleaned-elements : (path : Text) → is_abs path ≡ true → All IsElement (cleaned path).parts
unfolding cleaned
cleaned-elements path h =
    rw h (resolve_all-All [] (split slash path) (split-lacks_parts slash path) tt)

resolve_all-skips :
    (rooted : Bool) (stack : List Text) (parts : List Text)
    → resolve_all rooted stack ([] ∷ parts) ≡ resolve_all rooted stack parts
unfolding resolve_all resolve text_eq join
resolve_all-skips rooted stack parts = refl

-- Cleaning what is shown of an absolute path gives the path back.
pub cleaned-show_path :
    (parts : List Text)
    → All IsElement parts
    → cleaned (show_path (absolute parts)) ≡ absolute parts
unfolding cleaned show_path is_abs split resolve_all resolve text_eq join
cleaned-show_path [] h = refl
cleaned-show_path (p ∷ parts) (h, hs) = ap absolute (
    ap (resolve_all true []) (
      ap (λ ps. [] ∷ ps)
        (split-join slash p parts (IsElement-lacks p h)
          (All-weaken IsElement _ parts IsElement-lacks hs)))
    ∙ resolve_all-elements [] (p ∷ parts) (h, hs))

split-elements :
    (p : Text) (parts : List Text)
    → All IsElement (p ∷ parts)
    → split slash (join slash (p ∷ parts)) ≡ p ∷ parts
split-elements p parts (h, hs) =
    split-join slash p parts (IsElement-lacks p h) (All-weaken IsElement _ parts IsElement-lacks hs)

child_parts :
    (parts : List Text) (name : Text)
    → All IsElement parts
    → IsElement name
    → resolve_all true [] (split slash ((slash ∷ join slash parts) ++ (slash ∷ name)))
      ≡ parts ++ (name ∷ [])
unfolding split resolve_all resolve text_eq join
child_parts [] name h e =
    let one = split-elements name [] (e, tt) in
    ap (resolve_all true []) one ∙ resolve_all-elements [] (name ∷ []) (e, tt)
child_parts (p ∷ parts) name h e =
    let before = split-append_sep slash (join slash (p ∷ parts)) name in
    let both =
      before
      ∙ (ap (λ ps. ps ++ split slash name) (split-elements p parts h)
          ∙ ap (λ ps. (p ∷ parts) ++ ps) (split-elements name [] (e, tt))) in
    ap (resolve_all true []) both
    ∙ resolve_all-elements [] ((p ∷ parts) ++ (name ∷ []))
        (All-append IsElement (p ∷ parts) (name ∷ []) h (e, tt))

name_is_not_empty : IsElement [] → ⊥
unfolding is_element text_eq
name_is_not_empty h = cc

cleaned-clean :
    (path : Text) (parts : List Text)
    → cleaned path ≡ absolute parts
    → All IsElement parts
    → cleaned (clean path) ≡ absolute parts
unfolding clean
cleaned-clean path parts same h = ap (λ p. cleaned (show_path p)) same ∙ cleaned-show_path parts h

-- A cleaned absolute path with one element more.
pub clean-child :
    (parts : List Text) (name : Text)
    → All IsElement parts
    → IsElement name
    → cleaned (join_path (show_path (absolute parts)) name) ≡ absolute (parts ++ (name ∷ []))
unfolding join_path show_path cleaned is_abs
clean-child parts [] h e = absurd (name_is_not_empty e)
clean-child parts (c ∷ cs) h e =
    cleaned-clean ((slash ∷ join slash parts) ++ (slash ∷ c ∷ cs)) (parts ++ ((c ∷ cs) ∷ []))
      (ap absolute (child_parts parts (c ∷ cs) h e))
      (All-append IsElement parts ((c ∷ cs) ∷ []) h (e, tt))

pub cleaned-absolute :
    (path : Text) → is_abs path ≡ true → cleaned path ≡ absolute (cleaned path).parts
unfolding cleaned
cleaned-absolute path h = ap (λ r. record { rooted = r; parts = (cleaned path).parts }) h

pub is_abs-clean : (path : Text) → is_abs path ≡ true → is_abs (clean path) ≡ true
unfolding clean show_path is_abs
is_abs-clean path h = subst (λ q. is_abs (show_path q) ≡ true) (sym (cleaned-absolute path h)) refl

not_abs : is_abs [] ≡ true → ⊥
unfolding is_abs
not_abs h = cc

abs_more : (c : ℕ) (dir more : Text) → is_abs (c ∷ dir) ≡ true → is_abs ((c ∷ dir) ++ more) ≡ true
unfolding is_abs
abs_more c dir more h = h

pub is_abs-join_path : (dir path : Text) → is_abs dir ≡ true → is_abs (join_path dir path) ≡ true
unfolding join_path
is_abs-join_path [] path h = absurd (not_abs h)
is_abs-join_path (c ∷ dir) [] h = is_abs-clean (c ∷ dir) h
is_abs-join_path (c ∷ dir) (d ∷ path) h =
    is_abs-clean ((c ∷ dir) ++ (slash ∷ d ∷ path)) (abs_more c dir (slash ∷ d ∷ path) h)

-- An absolute path stays absolute under Abs, Clean and Join.
pub abs_path-is_abs :
    (dir path target : Text)
    → is_abs dir ≡ true
    → abs_path (some dir) path ≡ some target
    → is_abs target ≡ true
unfolding abs_path
abs_path-is_abs dir path target h e = elim (Bool-cases (is_abs path)) [
  | inl a ↦
      let same : clean path ≡ target = ground arith in
      subst (λ t. is_abs t ≡ true) same (is_abs-clean path a)
  | inr a ↦
      let same : join_path dir path ≡ target = ground arith in
      subst (λ t. is_abs t ≡ true) same (is_abs-join_path dir path h)
]
