-- ===== src/Paths.antt =====
-- Package path/filepath on Unix, as far as the program calls it: Clean, IsAbs, Join, Abs, Dir and Rel.
pub mod Cleaned
use symphony_go.Prelude.{
  ℕ, ◌==◌, Bool, true, false, not, ◌&&◌, ◌||◌, Text, codes, text_eq, split, join, lacks,
  if◌then◌else◌, Option, none, some, List, [], ◌∷◌, ◌++◌,
}
use mathlib.Core.List.{reverse}

abbrev pub slash : ℕ
slash = b'/'

abbrev pub dot : Text
dot = codes "."

abbrev pub dot_dot : Text
dot_dot = codes ".."

-- filepath.IsAbs
unfoldable pub is_abs : Text → Bool
is_abs [] = false
is_abs (c ∷ path) = c == slash

-- A cleaned path: whether it is absolute, and its elements.
pub record CleanPath : Type 0 where
  pub rooted : Bool
  pub parts : List Text

-- The element `..` on the elements so far, the last one first.
unfoldable pub go_up : Bool → List Text → List Text
go_up true [] = []
go_up false [] = dot_dot ∷ []
go_up rooted (top ∷ stack) = if text_eq top dot_dot then dot_dot ∷ top ∷ stack else stack

unfoldable pub resolve : Bool → List Text → Text → List Text
unfolding go_up
resolve rooted stack part =
    if text_eq part [] || text_eq part dot
    then stack
    else if text_eq part dot_dot
    then go_up rooted stack
    else part ∷ stack

unfoldable pub resolve_all : Bool → List Text → List Text → List Text
unfolding resolve
resolve_all rooted stack [] = reverse stack
resolve_all rooted stack (part ∷ parts) = resolve_all rooted (resolve rooted stack part) parts

unfoldable pub cleaned : Text → CleanPath
unfolding resolve_all
cleaned path = record {
  rooted = is_abs path;
  parts = resolve_all (is_abs path) [] (split slash path);
}

unfoldable pub show_path : CleanPath → Text
show_path p =
    if p.rooted
    then slash ∷ join slash p.parts
    else elim p.parts [ [] ↦ dot | part ∷ parts ↦ join slash p.parts ]

-- filepath.Clean
unfoldable pub clean : Text → Text
unfolding cleaned show_path
clean path = show_path (cleaned path)

-- filepath.Join(a, b): an empty element is left out.
unfoldable pub join_path : Text → Text → Text
unfolding clean
join_path [] [] = []
join_path [] b = clean b
join_path a [] = clean a
join_path a b = clean (a ++ (slash ∷ b))

-- filepath.Abs; the working directory is none where os.Getwd fails.
unfoldable pub abs_path : Option Text → Text → Option Text
unfolding join_path clean
abs_path wd path =
    if is_abs path
    then some (clean path)
    else elim wd [ none ↦ none | some dir ↦ some (join_path dir path) ]

drop_base : Text → Text
drop_base [] = []
drop_base (c ∷ path) = let rest = drop_base path in if c == slash then c ∷ path else rest

-- filepath.Dir: what stands up to the last slash, cleaned.
unfoldable pub dir_path : Text → Text
unfolding drop_base clean
dir_path path = clean (reverse (drop_base (reverse path)))

-- What is left of the two lists after the elements that they share.
unfoldable pub strip_common : List Text → List Text → List Text × List Text
strip_common [] target = ([], target)
strip_common (b ∷ base) [] = (b ∷ base, [])
strip_common (b ∷ base) (t ∷ target) =
    let rest = strip_common base target in if text_eq b t then rest else (b ∷ base, t ∷ target)

unfoldable pub ups : List Text → List Text
ups [] = []
ups (b ∷ base) = dot_dot ∷ ups base

abbrev same_bool : Bool → Bool → Bool
same_bool true b = b
same_bool false b = not b

unfoldable pub starts_up : List Text → Bool
starts_up [] = false
starts_up (b ∷ base) = text_eq b dot_dot

-- filepath.Rel on cleaned paths: none is its error.
unfoldable pub rel_parts : CleanPath → CleanPath → Option (List Text)
unfolding strip_common ups starts_up
rel_parts base target =
    let (down, up) = strip_common base.parts target.parts in
    if not (same_bool base.rooted target.rooted)
    then none
    else if starts_up down
    then none
    else some (ups down ++ up)

-- filepath.Rel
unfoldable pub rel : Text → Text → Option Text
unfolding rel_parts cleaned show_path
rel base target = elim (rel_parts (cleaned base) (cleaned target)) [
  | none ↦ none
  | some parts ↦ some (show_path (record { rooted = false; parts = parts }))
]
