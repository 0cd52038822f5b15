-- ===== src/Ssh/Targets.antt =====
-- ParseTarget of internal/service/ssh/ssh.go loses nothing of the host that it is given.
use symphony_go.Prelude.{
  true, false, Text, text_eq, trim_space, all, if_case, Option-cases, Option, none, some, [], ◌∷◌,
  ◌++◌, ◌≡◌, refl, ◌⊎◌, arith, inl, inr,
}
use symphony_go.Ssh.{
  colon, last_colon, is_digit, host_port, valid_port_destination, Target, target_of, parse_target,
}

last_colon-append :
    (s before behind : Text) → last_colon s ≡ some (before, behind) → before ++ (colon ∷ behind) ≡ s
unfolding last_colon
last_colon-append [] before behind h = cc
last_colon-append (c ∷ s) before behind h = elim (Option-cases (last_colon s)) [
  | inl missing ↦ grind (arith, missing, h)
  | inr ((a, b), found) ↦ let rest = last_colon-append s a b found in grind (arith, rest, found, h)
]

-- A destination and a port that hostPortPattern finds in a text.
abbrev pub Found : Text → Text → Text → Type 0
Found s destination port =
    (destination ++ (colon ∷ port) ≡ s) × (text_eq port [] ≡ false) × (all is_digit port ≡ true)

host_port-Found :
    (s destination port : Text) → host_port s ≡ some (destination, port) → Found s destination port
unfolding host_port
host_port-Found s destination port h = elim (Option-cases (last_colon s)) [
  | inl missing ↦ absurd (grind (arith, missing, h))
  | inr ((a, b), found) ↦
      let rest = last_colon-append s a b found in
      (grind (arith, rest, found, h), grind (arith, found, h), grind (arith, found, h))
]

-- The trimmed text as it is, or taken apart.
abbrev pub Parsed : Text → Target → Type 0
Parsed trimmed target =
    ((target.destination ≡ trimmed) × (target.port ≡ []))
    ⊎ (Found trimmed target.destination target.port
        × (valid_port_destination target.destination ≡ true))

target_of-Parsed :
    (trimmed : Text) (found : Option (Text × Text))
    → ((destination port : Text)
        → found ≡ some (destination, port)
        → Found trimmed destination port)
    → Parsed trimmed (target_of trimmed found)
unfolding target_of
target_of-Parsed trimmed none h = inl (refl, refl)
target_of-Parsed trimmed (some (destination, port)) h =
    if_case (Parsed trimmed) (valid_port_destination destination)
      (λ valid. inr (h destination port refl, valid)) (λ _. inl (refl, refl))

-- A parsed host is the trimmed text without a port, or a destination and a port that are joined by a colon
-- in the trimmed text. A port has digits only and at least one, and its destination is not empty and has
-- a colon of its own only with brackets.
pub parse_target-Parsed : (host : Text) → Parsed (trim_space host) (parse_target host)
unfolding parse_target
parse_target-Parsed host =
    target_of-Parsed (trim_space host) (host_port (trim_space host))
      (host_port-Found (trim_space host))
