-- ===== src/Workspace/Names.antt =====
-- SafeIdentifier and PathForIssue of internal/service/workspace/workspace.go: an issue's workspace is a
-- child of the root.
use symphony_go.Prelude.{
  ℕ, true, false, ◌≡◌, ◌≢◌, refl, sym, ap, ◌∙◌, subst, ◌==◌, Text, codes, text_eq, lacks, if_case,
  Option, none, some, List, [], ◌∷◌, ◌++◌, map, All, arith,
}
use symphony_go.Domain.{Issue}
use symphony_go.Paths.{slash, is_abs, cleaned, clean, show_path, join_path, abs_path}
use symphony_go.Paths.Cleaned.{
  is_element, IsElement, absolute, cleaned-elements, cleaned-absolute, clean-child, abs_path-is_abs,
  is_abs-clean, is_abs-join_path, cleaned-show_path,
}
use symphony_go.Workspace.{
  Os, Manager, is_safe_char, replace_unsafe, only_dots, safe_identifier, root_abs, static_cwd,
  path_for_issue, path_within, expand_home,
}
use symphony_go.Workspace.Within.{path_within_iff}

abbrev pub AllSafe : Text → Type 0
AllSafe = All (λ c. is_safe_char c ≡ true)

replace_unsafe-safe : (c : ℕ) → is_safe_char (replace_unsafe c) ≡ true
unfolding replace_unsafe is_safe_char
replace_unsafe-safe c = ground arith

map_safe : (s : Text) → AllSafe (map replace_unsafe s)
map_safe [] = tt
map_safe (c ∷ s) = (replace_unsafe-safe c, map_safe s)

issue_safe : AllSafe (codes "issue")
unfolding is_safe_char
issue_safe = (refl, (refl, (refl, (refl, (refl, tt)))))

-- The identifier consists of safe characters.
pub safe_identifier-AllSafe : (identifier : Text) → AllSafe (safe_identifier identifier)
unfolding safe_identifier
safe_identifier-AllSafe identifier =
    if_case AllSafe (text_eq identifier []) (λ _. issue_safe)
      (λ _.
        if_case AllSafe (only_dots (map replace_unsafe identifier)) (λ _. issue_safe)
          (λ _. map_safe identifier))

safe_is_not_slash : (c : ℕ) → is_safe_char c ≡ true → (c == slash) ≡ false
unfolding is_safe_char
safe_is_not_slash c h = ground arith

safe-lacks : (s : Text) → AllSafe s → lacks slash s ≡ true
unfolding lacks
safe-lacks [] h = refl
safe-lacks (c ∷ s) (h, hs) = ground (arith, safe_is_not_slash c h, safe-lacks s hs)

not_dots-IsElement : (s : Text) → AllSafe s → only_dots s ≡ false → IsElement s
unfolding is_element only_dots text_eq
not_dots-IsElement [] safe other = cc
not_dots-IsElement (a ∷ []) safe other = ground (arith, safe-lacks (a ∷ []) safe)
not_dots-IsElement (a ∷ b ∷ []) safe other = ground (arith, safe-lacks (a ∷ b ∷ []) safe)
not_dots-IsElement (a ∷ b ∷ c ∷ s) safe other = ground (arith, safe-lacks (a ∷ b ∷ c ∷ s) safe)

issue-IsElement : IsElement (codes "issue")
unfolding is_element text_eq lacks
issue-IsElement = refl

safe_identifier-IsElement : (identifier : Text) → IsElement (safe_identifier identifier)
unfolding safe_identifier
safe_identifier-IsElement identifier =
    if_case IsElement (text_eq identifier []) (λ _. issue-IsElement)
      (λ _.
        if_case IsElement (only_dots (map replace_unsafe identifier)) (λ _. issue-IsElement)
          (λ other. not_dots-IsElement (map replace_unsafe identifier) (map_safe identifier) other))

cleaned_some :
    (o : Option Text) (root : Text)
    → (elim o [ none ↦ none | some r ↦ some (clean r) ]) ≡ some root
    → (a : Text) × (o ≡ some a) × (clean a ≡ root)
cleaned_some none root h = cc
cleaned_some (some a) root h = (a, refl, cc)

clean-shown :
    (path : Text)
    → is_abs path ≡ true
    → clean path ≡ show_path (absolute (cleaned (clean path)).parts)
unfolding clean
clean-shown path h =
    let e = cleaned-absolute path h in
    let back = cleaned-show_path (cleaned path).parts (cleaned-elements path h) in
    let same : cleaned (show_path (cleaned path)) ≡ absolute (cleaned path).parts =
      ap (λ q. cleaned (show_path q)) e ∙ back in
    ap show_path e ∙ ap (λ q. show_path (absolute q.parts)) (sym same)

-- A root that RootAbs returns is absolute and clean.
pub root_abs-is_abs :
    (os : Os) (m : Manager) (dir root : Text)
    → os.working_dir ≡ some dir
    → is_abs dir ≡ true
    → root_abs os m ≡ some root
    → (is_abs root ≡ true) × (root ≡ show_path (absolute (cleaned root).parts))
unfolding root_abs
root_abs-is_abs os m dir root here absolute_dir found =
    let (a, e, same) =
      cleaned_some (abs_path os.working_dir (expand_home os.home_dir m.root)) root found in
    let a_abs =
      abs_path-is_abs dir (expand_home os.home_dir m.root) a absolute_dir
        (subst (λ wd. abs_path wd (expand_home os.home_dir m.root) ≡ some a) here e) in
    (
      subst (λ r. is_abs r ≡ true) same (is_abs-clean a a_abs),
      subst (λ r. r ≡ show_path (absolute (cleaned r).parts)) same (clean-shown a a_abs),
    )

one_more : (xs : List Text) (x : Text) → xs ≡ xs ++ (x ∷ []) → ⊥
one_more [] x h = cc
one_more (y ∷ xs) x h = one_more xs x (cc)

-- Let the working directory be absolute and the workspaces be separate. An issue with an identifier
-- has its workspace directly in the root: the path has the elements of the root and one more, the
-- safe identifier, which has only letters, digits, `.`, `_` and `-` and is an element by itself,
-- neither empty nor `.` nor `..`; so the path lies within the root by pathWithin, and is not the root.
pub path_for_issue-child :
    (os : Os) (m : Manager) (issue : Issue) (dir root : Text)
    → os.working_dir ≡ some dir
    → is_abs dir ≡ true
    → static_cwd m ≡ false
    → text_eq issue.identifier [] ≡ false
    → root_abs os m ≡ some root
    → (path : Text) × (path_for_issue os m issue ≡ some path)
      × ((cleaned path).parts ≡ (cleaned root).parts ++ (safe_identifier issue.identifier ∷ []))
      × AllSafe (safe_identifier issue.identifier)
      × IsElement (safe_identifier issue.identifier)
      × (path_within root path ≡ true)
      × (path ≢ root)
unfolding path_for_issue
path_for_issue-child os m issue dir root here absolute_dir separate named found =
    let (root_abs, shown) = root_abs-is_abs os m dir root here absolute_dir found in
    let name = safe_identifier issue.identifier in
    let element = safe_identifier-IsElement issue.identifier in
    let elements = cleaned-elements root root_abs in
    let child : cleaned (join_path root name) ≡ absolute ((cleaned root).parts ++ (name ∷ [])) =
      subst (λ r. cleaned (join_path r name) ≡ absolute ((cleaned root).parts ++ (name ∷ [])))
        (sym shown) (clean-child (cleaned root).parts name elements element) in
    let parts : (cleaned (join_path root name)).parts ≡ (cleaned root).parts ++ (name ∷ []) =
      ap (λ q. q.parts) child in
    (
      join_path root name,
      rw (separate, named, found) refl,
      parts,
      safe_identifier-AllSafe issue.identifier,
      element,
      (path_within_iff root (join_path root name) root_abs (is_abs-join_path root name root_abs)).1
          (name ∷ [], parts),
      λ same. one_more (cleaned root).parts name (ap (λ p. (cleaned p).parts) (sym same) ∙ parts),
    )
