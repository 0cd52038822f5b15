-- ===== src/Settings/Checks/Verdict.antt =====
-- validate of internal/runtime/config/config.go follows its table of rules.
use symphony_go.Prelude.{
  ℤ, pos, negsuc, is_positive, Bool, true, false, not, ◌&&◌, ◌||◌, Text, codes, text_eq,
  text_eq_iff, trim_space, if◌then◌else◌, List, [], ◌∷◌, ◌++◌, any, All, Result, ok, err, ◌>>◌,
  ensure, ◌≡◌, ◌≢◌, refl, ◌⊎◌, inl, inr, arith,
}
use symphony_go.Settings.{Settings, Places, Workers, Review, is_zero, is_below_zero}
use symphony_go.Settings.Checks.{
  setting, validate, validate_workspace, validate_worker, validate_review_policy, Rules, AllHold,
  FirstBroken, Follows, passes, reports, Positive, AtLeastZero, WorkspaceMode, HostLimit,
  ReviewMode, FailMode, rules, bad_tracker, no_api_key, no_project, no_command, bad_interval,
  bad_port, bad_workspace, bad_worker, bad_timeout, bad_turns, bad_backoff, bad_policy,
}

AllHold-append : (rs ss : Rules) → AllHold rs → AllHold ss → AllHold (rs ++ ss)
AllHold-append [] ss h g = g
AllHold-append ((P, c) ∷ rs) ss (p, h) g = (p, AllHold-append rs ss h g)

FirstBroken-append :
    (rs ss : Rules) (code : Text) → FirstBroken rs code → FirstBroken (rs ++ ss) code
FirstBroken-append [] ss code h = absurd h
FirstBroken-append ((P, c) ∷ rs) ss code (inl h) = inl h
FirstBroken-append ((P, c) ∷ rs) ss code (inr (p, h)) = inr (p, FirstBroken-append rs ss code h)

FirstBroken-behind :
    (rs ss : Rules) (code : Text) → AllHold rs → FirstBroken ss code → FirstBroken (rs ++ ss) code
FirstBroken-behind [] ss code h g = g
FirstBroken-behind ((P, c) ∷ rs) ss code (p, h) g = inr (p, FirstBroken-behind rs ss code h g)

-- A chain of two checks follows the rules of both.
then-Follows :
    (m k : Result (Unit {0})) (rs ss : Rules)
    → Follows m rs
    → Follows k ss
    → Follows (m >> k) (rs ++ ss)
then-Follows m k rs ss (passes e h) (passes d g) =
    passes (rw (e, d) refl) (AllHold-append rs ss h g)
then-Follows m k rs ss (passes e h) (reports code d g) =
    reports code (rw (e, d) refl) (FirstBroken-behind rs ss code h g)
then-Follows m k rs ss (reports code e h) next =
    reports code (rw e refl) (FirstBroken-append rs ss code h)

-- A test that decides a proposition.
abbrev Decides : Bool → Type 0 → Type 0
Decides b P = (b ≡ true → P) × (b ≡ false → ¬ P)

ensure-Follows :
    (b : Bool) (P : Type 0) (code : Text) → Decides b P → Follows (ensure b code) ((P, code) ∷ [])
ensure-Follows true P code (holds, fails) = passes refl (holds refl, tt)
ensure-Follows false P code (holds, fails) = reports code refl (inl (fails refl, refl))

is_text : (a b : Text) → Decides (text_eq a b) (a ≡ b)
is_text a b = ((text_eq_iff a b).0, λ h e. cc ((text_eq_iff a b).1 e))

negated : (b : Bool) {P : Type 0} → Decides b P → Decides (not b) (¬ P)
negated true (p, np) = (λ h. absurd (cc), λ _ f. f (p refl))
negated false (p, np) = (λ _. np refl, λ h. absurd (cc))

is_not_text : (a b : Text) → Decides (not (text_eq a b)) (a ≢ b)
is_not_text a b = negated (text_eq a b) (is_text a b)

is_positive_number : (n : ℤ) → Decides (is_positive n) (Positive n)
is_positive_number (pos n) = (λ h. ground arith, λ h p. ground arith)
is_positive_number (negsuc n) = (λ h. cc, λ _ p. p)

either : (a b : Bool) {P Q : Type 0} → Decides a P → Decides b Q → Decides (a || b) (P ⊎ Q)
either true b (p, np) (q, nq) = (λ _. inl (p refl), λ h. absurd (cc))
either false b (p, np) (q, nq) =
    (λ h. inr (q h), λ h s. elim s [ inl x ↦ np refl x | inr y ↦ nq h y ])

port_rule :
    (set : Bool) (port : ℤ)
    → Decides (not (set && is_below_zero port)) (set ≡ true → AtLeastZero port)
port_rule true (pos n) = (λ _ _. tt, λ h. absurd (cc))
port_rule true (negsuc n) = (λ h. absurd (cc), λ _ p. p refl)
port_rule false port = (λ _ h. absurd (cc), λ h. absurd (cc))

limit_rule :
    (set : Bool) (limit : ℤ)
    → Decides
        (not (is_below_zero limit || (set && is_zero limit)))
        (AtLeastZero limit × (set ≡ true → Positive limit))
limit_rule true (pos n) = (λ h. (tt, λ _. ground arith), λ h (a, p). ground (arith, p refl))
limit_rule false (pos n) = (λ _. (tt, λ h. absurd (cc)), λ h. absurd (cc))
limit_rule set (negsuc n) = (λ h. absurd (cc), λ _ (a, p). a)

neither :
    (a b : Bool) {P Q : Type 0}
    → Decides (not a) P
    → Decides (not b) Q
    → Decides (not (a || b)) (P × Q)
neither true b (p, np) (q, nq) = (λ h. absurd (cc), λ _ (x, y). np refl x)
neither false b (p, np) (q, nq) = (λ h. (p refl, q h), λ h (x, y). nq h y)

hosts_rule :
    (hosts : List Text)
    → Decides (not (any (λ host. text_eq host []) hosts)) (All (λ host. host ≢ []) hosts)
unfolding any
hosts_rule [] = (λ _. tt, λ h. absurd (cc))
hosts_rule (host ∷ hosts) =
    neither (text_eq host []) (any (λ h. text_eq h []) hosts) (is_not_text host [])
      (hosts_rule hosts)

one_of_three :
    (a b s d : Bool) {A B S D : Type 0} (code : Text)
    → Decides a A
    → Decides b B
    → Decides s S
    → Decides d D
    → Follows
        (if a || b then ok tt else if s then ensure d code else err code)
        ((A ⊎ (B ⊎ (S × D)), code) ∷ [])
one_of_three true b s d code (p, np) q r t = passes refl (inl (p refl), tt)
one_of_three false true s d code p (q, nq) r t = passes refl (inr (inl (q refl)), tt)
one_of_three false false true true code p q (r, nr) (t, nt) =
    passes refl (inr (inr (r refl, t refl)), tt)
one_of_three false false true false code (p, np) (q, nq) r (t, nt) = reports code refl (
    inl (
      λ h. elim h [ inl x ↦ np refl x | inr (inl x) ↦ nq refl x | inr (inr (x, y)) ↦ nt refl y ],
      refl,
    ))
one_of_three false false false d code (p, np) (q, nq) (r, nr) t = reports code refl (
    inl (
      λ h. elim h [ inl x ↦ np refl x | inr (inl x) ↦ nq refl x | inr (inr (x, y)) ↦ nr refl x ],
      refl,
    ))

workspace_check :
    (w : Places) → Follows (validate_workspace w) ((WorkspaceMode w, bad_workspace) ∷ [])
unfolding validate_workspace
workspace_check w =
    let mode = setting w.mode in
    one_of_three (text_eq mode []) (text_eq mode (codes "per_issue"))
      (text_eq mode (codes "static_cwd")) (not (text_eq (trim_space w.cwd) [])) bad_workspace
      (is_text mode []) (is_text mode (codes "per_issue")) (is_text mode (codes "static_cwd"))
      (is_not_text (trim_space w.cwd) [])

worker_check :
    (w : Workers)
    → Follows
        (validate_worker w)
        ((All (λ host. host ≢ []) w.ssh_hosts, bad_worker) ∷ (HostLimit w, bad_worker) ∷ [])
unfolding validate_worker
worker_check w =
    then-Follows _ _ _ _ (ensure-Follows _ _ bad_worker (hosts_rule w.ssh_hosts))
      (ensure-Follows _ _ bad_worker (limit_rule w.max_per_host_is_set w.max_per_host))

review_check :
    (r : Review)
    → Follows (validate_review_policy r) (
        (ReviewMode (setting r.mode), bad_policy)
        ∷ (FailMode (setting r.on_ai_fail), bad_policy)
        ∷ [])
unfolding validate_review_policy
review_check r =
    let mode = setting r.mode in
    let failed = setting r.on_ai_fail in
    then-Follows _ _ _ _
      (ensure-Follows _ _ bad_policy (
        either _ _
          (either _ _ (either _ _ (is_text mode []) (is_text mode (codes "human")))
            (is_text mode (codes "ai")))
          (is_text mode (codes "auto"))))
      (ensure-Follows _ _ bad_policy (
        either _ _ (either _ _ (is_text failed []) (is_text failed (codes "rework")))
          (is_text failed (codes "hold"))))

infixl 5 ◌then◌
abbrev ◌then◌ :
    {m k : Result (Unit {0})} {rs ss : Rules}
    → Follows m rs
    → Follows k ss
    → Follows (m >> k) (rs ++ ss)
f then g = then-Follows _ _ _ _ f g

test :
    {b : Bool} {P : Type 0} (code : Text) → Decides b P → Follows (ensure b code) ((P, code) ∷ [])
test code d = ensure-Follows _ _ code d

-- The checks of a configuration either succeed, and every rule holds, or they return the code of the
-- first rule, in the order of the table, that does not hold. The table has: the tracker is linear and
-- has a key and a project; the command is not blank; the interval is positive; a port that is set is
-- at least 0; the workspace's mode is known and has a directory where it needs one; no host is blank,
-- and the limit for a host is at least 0, and positive where it is set; timeout, turns and backoff are
-- positive; the modes of the review are known.
pub validate-Follows : (c : Settings) → Follows (validate c) (rules c)
unfolding validate
validate-Follows c =
    test bad_tracker (is_text c.tracker.kind (codes "linear"))
    then test no_api_key (is_not_text c.tracker.api_key [])
    then test no_project (is_not_text c.tracker.project_slug [])
    then test no_command (is_not_text (trim_space c.codex.command) [])
    then test bad_interval (is_positive_number c.interval_ms)
    then test bad_port (port_rule c.server.port_set c.server.port)
    then workspace_check c.workspace
    then worker_check c.worker
    then test bad_timeout (is_positive_number c.hooks.timeout_ms)
    then test bad_turns (is_positive_number c.agent.max_turns)
    then test bad_backoff (is_positive_number c.agent.max_retry_backoff_ms)
    then review_check c.agent.review_policy
