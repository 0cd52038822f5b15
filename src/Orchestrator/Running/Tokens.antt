-- ===== src/Orchestrator/Running/Tokens.antt =====
-- The token totals of updateRunningFromEvent of internal/service/orchestrator/orchestrator.go over the
-- events of a running issue.
use symphony_go.Prelude.{
  ℕ, ◌+◌, ◌-◌, ◌^◌, ◌<◌, ◌≤◌, ℤ, ◌+ℤ◌, pos, negsuc, to_nat, wrap_int, wrap_int-small, leb_ℤ, ◌≡◌,
  refl, ap, true, Text, Option, none, some, List, [], ◌∷◌, find_by, change_by, Option-cases, inl,
  inr, arith,
}
use symphony_go.Domain.{TokenUsage, RunningEntry, CodexTotals}
use symphony_go.Observability.{Event, extract_token_usage}
use symphony_go.Orchestrator.State.{Orchestrator}
use symphony_go.Orchestrator.Running.{
  running_key, entry_from_event, usage_delta, positive_delta, token_delta, add_totals,
  update_running_from_event,
}

-- The events of a session, one after the other.
abbrev pub update_running_from_events : ℕ → Text → List Event → Orchestrator → Orchestrator
update_running_from_events now id [] o = o
update_running_from_events now id (event ∷ events) o =
    update_running_from_events now id events (update_running_from_event now id event o)

-- `0 <= a && a <= b`
abbrev pub Rises : ℤ → ℤ → Type 0
Rises a b = (leb_ℤ (pos 0) a ≡ true) × (leb_ℤ a b ≡ true)

abbrev pub UsageRises : TokenUsage → TokenUsage → Type 0
UsageRises u v =
    Rises u.input_tokens v.input_tokens
    × Rises u.output_tokens v.output_tokens
    × Rises u.total_tokens v.total_tokens

-- No usage is negative, and each one that an event reports is at least the one before it.
pub data Grows : TokenUsage → List Event → Type 0 where
  over : {u : TokenUsage} → UsageRises u u → Grows u []
  silent :
      {u : TokenUsage} {event : Event} {events : List Event}
      → extract_token_usage event.payload ≡ none
      → Grows u events
      → Grows u (event ∷ events)
  reports :
      {u : TokenUsage} {event : Event} {events : List Event} (v : TokenUsage)
      → extract_token_usage event.payload ≡ some v
      → UsageRises u v
      → Grows v events
      → Grows u (event ∷ events)

-- A total and a counter of the entry, before and after, as numbers that are not negative: the total gained
-- what the counter gained.
abbrev pub Gain : ℤ → ℤ → ℤ → ℤ → Type 0
Gain t a t' b = (leb_ℤ (pos 0) t' ≡ true) × (to_nat t' + to_nat a ≡ to_nat t + to_nat b)

abbrev pub Gains : CodexTotals → TokenUsage → CodexTotals → TokenUsage → Type 0
Gains t u t' u' =
    Gain t.input_tokens u.input_tokens t'.input_tokens u'.input_tokens
    × Gain t.output_tokens u.output_tokens t'.output_tokens u'.output_tokens
    × Gain t.total_tokens u.total_tokens t'.total_tokens u'.total_tokens

-- A total that is not negative, and that an int holds when it has grown as the counter does, from the
-- first to the last.
abbrev pub HasRoom : ℤ → ℤ → ℤ → Type 0
HasRoom t first last = (leb_ℤ (pos 0) t ≡ true) × (to_nat t + to_nat last < 2 ^ 63 + to_nat first)

abbrev pub Room : CodexTotals → TokenUsage → TokenUsage → Type 0
Room t u last =
    HasRoom t.input_tokens u.input_tokens last.input_tokens
    × HasRoom t.output_tokens u.output_tokens last.output_tokens
    × HasRoom t.total_tokens u.total_tokens last.total_tokens

-- The usage after an event.
abbrev pub usage_after : TokenUsage → Option TokenUsage → TokenUsage
usage_after u none = u
usage_after u (some v) = v

-- The last usage that the events report.
abbrev pub last_usage : TokenUsage → List Event → TokenUsage
last_usage u [] = u
last_usage u (event ∷ events) =
    last_usage (usage_after u (extract_token_usage event.payload)) events

Rises-trans : (a b c : ℤ) → Rises a b → Rises b c → Rises a c
Rises-trans (pos a) (pos b) (pos c) h k = let x = h.1 in let y = k.1 in (ground arith, ground arith)
Rises-trans (negsuc a) b c h k = let wrong = h.0 in cc
Rises-trans (pos a) (negsuc b) c h k = let wrong = k.0 in cc
Rises-trans (pos a) (pos b) (negsuc c) h k = let wrong = k.1 in cc

Rises-left : (a b : ℤ) → Rises a b → Rises a a
Rises-left (pos a) b h = (h.0, ground arith)
Rises-left (negsuc a) b h = let wrong = h.0 in cc

Grows-last :
    (u : TokenUsage) (events : List Event) → Grows u events → UsageRises u (last_usage u events)
Grows-last u [] (over h) = h
Grows-last u (event ∷ events) (silent none_said grows) =
    rw (last_usage, none_said) (Grows-last u events grows)
Grows-last u (event ∷ events) (reports v said (a, b, c) grows) =
    let (d, e, f) = Grows-last v events grows in
    rw (last_usage, said)
      (
        Rises-trans u.input_tokens v.input_tokens (last_usage v events).input_tokens a d,
        Rises-trans u.output_tokens v.output_tokens (last_usage v events).output_tokens b e,
        Rises-trans u.total_tokens v.total_tokens (last_usage v events).total_tokens c f,
      )

-- What is added is what a counter gains.
abbrev Adds : ℤ → ℤ → ℤ → Type 0
Adds d a b = d ≡ pos (to_nat b - to_nat a)

positive_delta-Adds :
    (t a b c : ℤ) → HasRoom t a c → Rises a b → Rises b c → Adds (positive_delta b a) a b
unfolding positive_delta
positive_delta-Adds t (pos a) (pos b) (pos c) (sign, room) (low, rises) (low', last) =
    let a_le : a ≤ b = ground arith in
    let b_le : b ≤ c = ground arith in wrap_int-small (b - a) (omega (arith, room, a_le, b_le))
positive_delta-Adds t (negsuc a) b c room h k = let wrong = h.0 in cc
positive_delta-Adds t (pos a) (negsuc b) c room h k = let wrong = k.0 in cc
positive_delta-Adds t (pos a) (pos b) (negsuc c) room h k = let wrong = k.1 in cc

-- One counter that rises from `a` to `b` and at last to `c`.
Adds-Gain :
    (t a b c d : ℤ)
    → HasRoom t a c
    → Rises a b
    → Rises b c
    → Adds d a b
    → Gain t a (wrap_int (t +ℤ d)) b × HasRoom (wrap_int (t +ℤ d)) b c
Adds-Gain (pos t) (pos a) (pos b) (pos c) d (sign, room) (low, rises) (low', last) adds =
    let a_le : a ≤ b = ground arith in
    let b_le : b ≤ c = ground arith in
    let sum : wrap_int (pos (t + (b - a))) ≡ pos (t + (b - a)) =
      wrap_int-small (t + (b - a)) (omega (arith, room, a_le, b_le)) in
    rw (adds, sum)
      ((ground arith, omega (arith, a_le)), (ground arith, omega (arith, room, a_le, b_le)))
Adds-Gain (negsuc t) a b c d room h k adds = let wrong = room.0 in cc
Adds-Gain (pos t) (negsuc a) b c d room h k adds = let wrong = h.0 in cc
Adds-Gain (pos t) (pos a) (negsuc b) c d room h k adds = let wrong = k.0 in cc
Adds-Gain (pos t) (pos a) (pos b) (negsuc c) d room h k adds = let wrong = k.1 in cc

find_by-change_by :
    (id : Text) (change : RunningEntry → RunningEntry)
    → ((x : RunningEntry) → (change x).issue_id ≡ x.issue_id)
    → (xs : List RunningEntry) (entry : RunningEntry) → find_by running_key id xs ≡ some entry
    → find_by running_key id (change_by running_key id change xs) ≡ some (change entry)
unfolding find_by change_by
find_by-change_by id change keeps [] entry h = cc
find_by-change_by id change keeps (x ∷ xs) entry h =
    ground (arith, keeps x, find_by-change_by id change keeps xs entry)

entry_from_event-id :
    (now : ℕ) (event : Event) (entry : RunningEntry)
    → (entry_from_event now event entry).issue_id ≡ entry.issue_id
unfolding entry_from_event
entry_from_event-id now event entry = refl

find_by-update :
    (now : ℕ) (id : Text) (event : Event) (o : Orchestrator) (entry : RunningEntry)
    → find_by running_key id o.running ≡ some entry
    → find_by running_key id (update_running_from_event now id event o).running
      ≡ some (entry_from_event now event entry)
unfolding update_running_from_event
find_by-update now id event o entry h =
    rw (h, update_running_from_event)
      (find_by-change_by id (entry_from_event now event) (entry_from_event-id now event) o.running
        entry h)

update-totals :
    (now : ℕ) (id : Text) (event : Event) (o : Orchestrator) (entry : RunningEntry)
    → find_by running_key id o.running ≡ some entry
    → (update_running_from_event now id event o).totals
      ≡ add_totals o.totals (usage_delta (extract_token_usage event.payload) entry)
unfolding update_running_from_event
update-totals now id event o entry h = rw (h, update_running_from_event) refl

-- The usage rises from `u` to `v` and at last to `last`, and what is added to the totals is what it gains.
add_totals-Gains :
    (t d : CodexTotals) (u v last : TokenUsage)
    → Room t u last
    → UsageRises u v
    → UsageRises v last
    → Adds d.input_tokens u.input_tokens v.input_tokens
    → Adds d.output_tokens u.output_tokens v.output_tokens
    → Adds d.total_tokens u.total_tokens v.total_tokens
    → Gains t u (add_totals t d) v × Room (add_totals t d) v last
unfolding add_totals
add_totals-Gains t d u v last (r1, r2, r3) (h1, h2, h3) (k1, k2, k3) a1 a2 a3 =
    let (g1, s1) =
      Adds-Gain t.input_tokens u.input_tokens v.input_tokens last.input_tokens d.input_tokens r1 h1
        k1 a1 in
    let (g2, s2) =
      Adds-Gain t.output_tokens u.output_tokens v.output_tokens last.output_tokens d.output_tokens
        r2 h2 k2 a2 in
    let (g3, s3) =
      Adds-Gain t.total_tokens u.total_tokens v.total_tokens last.total_tokens d.total_tokens r3 h3
        k3 a3 in
    ((g1, g2, g3), (s1, s2, s3))

zero_is : (n : ℕ) → pos 0 ≡ pos (n - n)
zero_is n = let e : 0 ≡ n - n = omega arith in ap pos e

-- What an event may report: at least the usage before it, and at most the last one.
abbrev Between : TokenUsage → Option TokenUsage → TokenUsage → Type 0
Between u none last = UsageRises u last
Between u (some v) last = UsageRises u v × UsageRises v last

usage_delta-Gains :
    (t : CodexTotals) (entry : RunningEntry) (reported : Option TokenUsage) (last : TokenUsage)
    → Room t entry.tokens last
    → Between entry.tokens reported last
    → Gains t entry.tokens
        (add_totals t (usage_delta reported entry))
        (usage_after entry.tokens reported)
      × Room (add_totals t (usage_delta reported entry)) (usage_after entry.tokens reported) last
unfolding usage_delta token_delta
usage_delta-Gains t entry none last room (h1, h2, h3) =
    add_totals-Gains t (usage_delta none entry) entry.tokens entry.tokens last room
      (
        Rises-left entry.tokens.input_tokens last.input_tokens h1,
        Rises-left entry.tokens.output_tokens last.output_tokens h2,
        Rises-left entry.tokens.total_tokens last.total_tokens h3,
      )
      (h1, h2, h3) (zero_is (to_nat entry.tokens.input_tokens))
      (zero_is (to_nat entry.tokens.output_tokens)) (zero_is (to_nat entry.tokens.total_tokens))
usage_delta-Gains t entry (some v) last (r1, r2, r3) ((h1, h2, h3), (k1, k2, k3)) =
    add_totals-Gains t (token_delta v entry.tokens) entry.tokens v last (r1, r2, r3) (h1, h2, h3)
      (k1, k2, k3)
      (positive_delta-Adds t.input_tokens entry.tokens.input_tokens v.input_tokens last.input_tokens
        r1 h1 k1)
      (positive_delta-Adds t.output_tokens entry.tokens.output_tokens v.output_tokens
        last.output_tokens r2 h2 k2)
      (positive_delta-Adds t.total_tokens entry.tokens.total_tokens v.total_tokens last.total_tokens
        r3 h3 k3)

entry_tokens :
    (now : ℕ) (event : Event) (entry : RunningEntry)
    → (entry_from_event now event entry).tokens
      ≡ usage_after entry.tokens (extract_token_usage event.payload)
unfolding entry_from_event
entry_tokens now event entry = elim (Option-cases (extract_token_usage event.payload)) [
  | inl e ↦ rw (e, entry_from_event) refl
  | inr (v, e) ↦ rw (e, entry_from_event) refl
]

event-Gains :
    (now : ℕ) (id : Text) (event : Event) (o : Orchestrator) (entry : RunningEntry)
    (last : TokenUsage)
    → find_by running_key id o.running ≡ some entry
    → Room o.totals entry.tokens last
    → Between entry.tokens (extract_token_usage event.payload) last
    → Gains o.totals entry.tokens
        (update_running_from_event now id event o).totals
        (entry_from_event now event entry).tokens
      × Room
          (update_running_from_event now id event o).totals
          (entry_from_event now event entry).tokens
          last
event-Gains now id event o entry last here room between =
    rw (update-totals now id event o entry here, entry_tokens now event entry)
      (usage_delta-Gains o.totals entry (extract_token_usage event.payload) last room between)

one_event :
    (now : ℕ) (event : Event) (events : List Event) (entry : RunningEntry)
    → Grows entry.tokens (event ∷ events)
    → Between entry.tokens
        (extract_token_usage event.payload)
        (last_usage entry.tokens (event ∷ events))
      × Grows (entry_from_event now event entry).tokens events
one_event now event events entry (silent none_said grows) = (
  rw (last_usage, none_said) (Grows-last entry.tokens events grows),
  rw (entry_tokens now event entry, none_said) grows,
)
one_event now event events entry (reports v said rises grows) = (
  rw (last_usage, said) (rises, Grows-last v events grows),
  rw (entry_tokens now event entry, said) grows,
)

Gain-trans : (t t' t'' a b c : ℤ) → Gain t a t' b → Gain t' b t'' c → Gain t a t'' c
Gain-trans t t' t'' a b c h k = let x = h.1 in let y = k.1 in (k.0, omega (arith, x, y))

Gains-trans :
    (t t' t'' : CodexTotals) (u u' u'' : TokenUsage)
    → Gains t u t' u'
    → Gains t' u' t'' u''
    → Gains t u t'' u''
Gains-trans t t' t'' u u' u'' (a, b, c) (d, e, f) = (
  Gain-trans t.input_tokens t'.input_tokens t''.input_tokens u.input_tokens u'.input_tokens
      u''.input_tokens a d,
  Gain-trans t.output_tokens t'.output_tokens t''.output_tokens u.output_tokens u'.output_tokens
      u''.output_tokens b e,
  Gain-trans t.total_tokens t'.total_tokens t''.total_tokens u.total_tokens u'.total_tokens
      u''.total_tokens c f,
)

none_yet : (t u : ℤ) → HasRoom t u u → Gain t u t u
none_yet t u room = (room.0, refl)

-- Let the usages of a running issue and of the events that it gets be at least 0 and never fall in any of
-- the three counters; let the totals be at least 0, and each small enough that a 64-bit int holds it
-- when it has grown as the counter does up to the last usage. Then after these events the issue is still
-- running, no total has wrapped around, and each of the three has grown by exactly what the counter of the
-- issue has grown: no usage is counted twice.
pub update_running_from_events-Gains :
    (now : ℕ) (id : Text) (events : List Event) (o : Orchestrator) (entry : RunningEntry)
    → find_by running_key id o.running ≡ some entry
    → Grows entry.tokens events
    → Room o.totals entry.tokens (last_usage entry.tokens events)
    → (after : RunningEntry) × (find_by running_key id
          (update_running_from_events now id events o).running
        ≡ some after)
      × Gains o.totals entry.tokens (update_running_from_events now id events o).totals after.tokens
update_running_from_events-Gains now id [] o entry here grows (a, b, c) = (
  entry,
  here,
  (
    none_yet o.totals.input_tokens entry.tokens.input_tokens a,
    none_yet o.totals.output_tokens entry.tokens.output_tokens b,
    none_yet o.totals.total_tokens entry.tokens.total_tokens c,
  ),
)
update_running_from_events-Gains now id (event ∷ events) o entry here grows room =
    let next = update_running_from_event now id event o in
    let (between, rest) = one_event now event events entry grows in
    let (gains_now, room_then) =
      event-Gains now id event o entry (last_usage entry.tokens (event ∷ events)) here room
        between in
    let (after, there, gains) =
      update_running_from_events-Gains now id events next (entry_from_event now event entry)
        (find_by-update now id event o entry here) rest
        (rw (entry_tokens now event entry) (rw (entry_tokens now event entry) at room_then)) in
    (
      after,
      there,
      Gains-trans o.totals next.totals (update_running_from_events now id events next).totals
          entry.tokens (entry_from_event now event entry).tokens after.tokens gains_now gains,
    )
