-- ===== src/Ssh/Words.antt =====
-- What a shell reads of the quoting of internal/service/ssh/ssh.go. The shell's rules are an independent
-- description: a word up to a blank or the end of the line, single and double quotation marks, and none
-- where a word has a character with a meaning of its own.
use symphony_go.Prelude.{
  ℕ, zero, suc, leb, ◌==◌, Bool, false, ◌&&◌, ◌||◌, Text, codes, if◌then◌else◌, Bool-cases, Option,
  none, some, List, [], ◌∷◌, ◌++◌, ◌≡◌, refl, ap, ◌∙◌, arith, inl, inr,
}
use symphony_go.Ssh.{
  quote, replace_quotes, shell_escape, remote_shell_command, remote_launch_command,
}

pub data Quoting : Type 0 where
  bare single double : Quoting

-- A character that stands for itself outside quotation marks, as far as the program needs it.
is_plain : ℕ → Bool
is_plain c =
    (leb b'a' c && leb c b'z')
    || (leb b'A' c && leb c b'Z')
    || (leb b'0' c && leb c b'9')
    || c == b'-'
    || c == b'/'
    || c == b'.'

-- `$`, `` ` `` and `\`, which have a meaning between double quotation marks.
is_expanded : ℕ → Bool
is_expanded c = c == b'$' || c == 96 || c == 92

-- A word, and the text behind the blank that ends it: none at the end of the line.
abbrev pub Word : Type 0
Word = Text × Option Text

abbrev grow : ℕ → Option Word → Option Word
grow c none = none
grow c (some (word, behind)) = some (c ∷ word, behind)

-- How the character behind this one is read.
abbrev turn : Quoting → ℕ → Quoting
turn bare c = if c == quote then single else if c == b'"' then double else bare
turn single c = if c == quote then bare else single
turn double c = if c == b'"' then bare else double

-- What a character adds to the word that the text behind it goes on with.
abbrev add : Quoting → ℕ → Text → Option Word → Option Word
add bare c text word =
    if c == quote || c == b'"'
    then word
    else if c == b' '
    then some ([], some text)
    else if is_plain c
    then grow c word
    else none
add single c text word = if c == quote then word else grow c word
add double c text word = if c == b'"' then word else if is_expanded c then none else grow c word

unfoldable pub read_word : Quoting → Text → Option Word
unfolding is_plain is_expanded
read_word bare [] = some ([], none)
read_word single [] = none
read_word double [] = none
read_word quoting (c ∷ text) = add quoting c text (read_word (turn quoting c) text)

abbrev pub Words : Type 0
Words = List Text × Option Text

abbrev begin_with : Text → Option Words → Option Words
begin_with word none = none
begin_with word (some (words, behind)) = some (word ∷ words, behind)

abbrev words_from : (Text → Option Words) → Option Word → Option Words
words_from more none = none
words_from more (some (word, none)) = some (word ∷ [], none)
words_from more (some (word, some behind)) = begin_with word (more behind)

-- That many words of a line, or all where it has fewer, and the text behind them.
unfoldable pub read_words : ℕ → Text → Option Words
unfolding read_word
read_words zero text = some ([], some text)
read_words (suc n) text = words_from (read_words n) (read_word bare text)

abbrev grow_all : Text → Option Word → Option Word
grow_all [] word = word
grow_all (c ∷ text) word = grow c (grow_all text word)

single_step :
    (c : ℕ) (text : Text)
    → (c == quote) ≡ false
    → read_word single (c ∷ text) ≡ grow c (read_word single text)
unfolding read_word
single_step c text other = rw (read_word, other) refl

-- Between its quotation marks a value is read as it is, and the word goes on behind them.
quoted-word :
    (value rest : Text)
    → read_word single (replace_quotes value ++ (quote ∷ rest))
      ≡ grow_all value (read_word bare rest)
unfolding read_word replace_quotes
quoted-word [] rest = refl
quoted-word (c ∷ value) rest = elim (Bool-cases (c == quote)) [
  | inl same ↦ let c_is : c ≡ quote = ground arith in rw (same, quoted-word value rest, c_is) refl
  | inr other ↦
      ap
        (λ b. read_word single (
          (if b
            then quote ∷ b'"' ∷ quote ∷ b'"' ∷ quote ∷ replace_quotes value
            else c ∷ replace_quotes value)
          ++ (quote ∷ rest)))
        other
      ∙ (single_step c (replace_quotes value ++ (quote ∷ rest)) other
          ∙ ap (grow c) (quoted-word value rest))
]

grow_all-end :
    (value : Text) (behind : Option Text)
    → grow_all value (some ([], behind)) ≡ some (value, behind)
grow_all-end [] behind = refl
grow_all-end (c ∷ value) behind = ap (grow c) (grow_all-end value behind)

append_assoc : (a b c : Text) → (a ++ b) ++ c ≡ a ++ (b ++ c)
append_assoc [] b c = refl
append_assoc (x ∷ a) b c = ap (λ t. x ∷ t) (append_assoc a b c)

-- An escaped value is one word, and that word is the value, at the end and before a blank.
escaped-last : (value : Text) → read_word bare (shell_escape value) ≡ some (value, none)
unfolding read_word shell_escape
escaped-last value = quoted-word value [] ∙ grow_all-end value none

escaped-word :
    (value rest : Text)
    → read_word bare (shell_escape value ++ (b' ' ∷ rest)) ≡ some (value, some rest)
unfolding read_word shell_escape
escaped-word value rest =
    ap (read_word single) (append_assoc (replace_quotes value) (quote ∷ []) (b' ' ∷ rest))
    ∙ (quoted-word value (b' ' ∷ rest) ∙ grow_all-end value (some rest))

-- For every text as the command: a shell reads three words from the remote command line, bash, -lc and
-- the command, and nothing is behind them. For every text as the workspace's path and as Codex's command:
-- the first two words of the line that starts Codex in a workspace are cd and the path, and behind
-- their blank stands `&& exec ` with Codex's command as it was given.
pub remote_shell_command-words :
    (workspace_path command : Text)
    → (read_words 4 (remote_shell_command command)
        ≡ some (codes "bash" ∷ codes "-lc" ∷ command ∷ [], none))
      × (read_words 2 (remote_launch_command workspace_path command)
          ≡ some (codes "cd" ∷ workspace_path ∷ [], some (codes "&& exec " ++ command)))
unfolding remote_shell_command remote_launch_command read_words read_word is_plain
remote_shell_command-words workspace_path command = (
  rw (escaped-last command) refl,
  rw (escaped-word workspace_path (codes "&& exec " ++ command)) refl,
)
