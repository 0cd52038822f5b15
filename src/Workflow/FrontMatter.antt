-- ===== src/Workflow/FrontMatter.antt =====
-- splitFrontMatter of internal/service/workflow/workflow.go takes apart what was put together.
use symphony_go.Prelude.{
  true, false, Text, if◌then◌else◌, none, some, List, [], ◌∷◌, ◌++◌, split, join, lacks, split-join,
  split-lacks_parts, join-split, All, All-append, All-weaken, ◌≡◌, refl,
}
use symphony_go.Workflow.{newline, is_fence, at_fence, behind_fence, split_front_matter}

-- A line of the front matter: it ends no line and is no fence.
abbrev pub FrontLine : Text → Type 0
FrontLine line = (lacks newline line ≡ true) × (is_fence line ≡ false)

at_fence-lines :
    (front : List Text) (fence : Text) (body : List Text)
    → All FrontLine front
    → is_fence fence ≡ true
    → at_fence (front ++ (fence ∷ body)) ≡ (front, some body)
unfolding at_fence
at_fence-lines [] fence body h closing = rw closing refl
at_fence-lines (line ∷ front) fence body ((_, inner), h) closing =
    rw (at_fence-lines front fence body h closing, inner) refl

no_fence : (front : List Text) → All FrontLine front → at_fence front ≡ (front, none)
unfolding at_fence
no_fence [] h = refl
no_fence (line ∷ front) ((_, inner), h) = rw (no_fence front h, inner) refl

abbrev pub Line : Text → Type 0
Line line = lacks newline line ≡ true

split-lines :
    (lines : List Text) (fence : Text) (body : Text)
    → All Line lines
    → Line fence
    → split newline (join newline (lines ++ (fence ∷ split newline body)))
      ≡ lines ++ (fence ∷ split newline body)
split-lines [] fence body h single =
    split-join newline fence (split newline body) single (split-lacks_parts newline body)
split-lines (line ∷ lines) fence body (l, h) single =
    split-join newline line (lines ++ (fence ∷ split newline body)) l (
      All-append Line lines (fence ∷ split newline body) h (single, split-lacks_parts newline body))

front_lines : (front : List Text) → All FrontLine front → All Line front
front_lines front h = All-weaken FrontLine Line front (λ line fl. fl.0) h

-- Round trip: a fence, lines that are no fences, a fence, and any text at all, put together as lines,
-- are taken apart into the lines and the text. A fence may have blanks around it.
pub split_front_matter-join :
    (opening closing : Text) (front : List Text) (body : Text)
    → Line opening
    → Line closing
    → is_fence opening ≡ true
    → is_fence closing ≡ true
    → All FrontLine front
    → split_front_matter (join newline ((opening ∷ front) ++ (closing ∷ split newline body)))
      ≡ (join newline front, body)
unfolding split_front_matter behind_fence
split_front_matter-join opening closing front body h1 h2 f1 f2 lines =
    rw
      (
        split-lines (opening ∷ front) closing body (h1, front_lines front lines) h2,
        f1,
        at_fence-lines front closing (split newline body) lines f2,
        join-split newline body,
      )
      refl

-- A file whose first line is a fence and that has no other is front matter only; one that does not begin
-- with a fence is prompt only.
pub split_front_matter-one_part :
    (first : Text) (lines : List Text)
    → Line first
    → All FrontLine lines
    → split_front_matter (join newline (first ∷ lines))
      ≡ (if is_fence first then (join newline lines, []) else ([], join newline (first ∷ lines)))
unfolding split_front_matter behind_fence
split_front_matter-one_part first lines h front =
    rw
      (
        split_front_matter,
        split-join newline first lines h (front_lines lines front),
        behind_fence,
        no_fence lines front,
      )
      refl
