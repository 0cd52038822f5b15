-- ===== src/Runner/Stats/Totals.antt =====
-- The counts and durations of TurnStats of internal/service/codex/runner.go against the list of events.
use symphony_go.Prelude.{
  ℕ, ◌<◌, ◌≤◌, ◌+◌, ◌^◌, ◌==◌, Bool, true, false, ◌&&◌, Text, codes, none, some, List, [], ◌∷◌,
  count_if, Option-cases, inl, inr, ◌≡◌, refl, arith,
}
use symphony_go.Observability.{Fields, get_field, as_int}
use symphony_go.Runner.Stats.Durations.{
  is_command, sum_durations, max_duration, max_duration-le-sum, observe_all-Adds,
}
use symphony_go.Runner.Commands.{
  Kind, search, read, test, build, git, other, command_kind, command_text,
}
use symphony_go.Runner.Stats.{
  TurnStats, no_stats, count_kind, count_failed, add_duration, has_failed, observe_command,
  completed_item, observe_item, observe, observe_all,
}

abbrev pub count_of : Kind → TurnStats → ℕ
count_of search s = s.search_command_count
count_of read s = s.read_command_count
count_of test s = s.test_command_count
count_of build s = s.build_command_count
count_of git s = s.git_command_count
count_of other s = s.other_command_count

abbrev index : Kind → ℕ
index search = 0
index read = 1
index test = 2
index build = 3
index git = 4
index other = 5

abbrev pub same_kind : Kind → Kind → Bool
same_kind k j = index k == index j

abbrev one_if : Bool → ℕ
one_if true = 1
one_if false = 0

count_kind-count_of :
    (k j : Kind) (s : TurnStats)
    → count_of k (count_kind j s) ≡ count_of k s + one_if (same_kind k j)
unfolding count_kind
count_kind-count_of k j s = grind arith

abbrev pub of_kind : Kind → Fields → Bool
of_kind kind item = is_command item && same_kind kind (command_kind (command_text item))

abbrev pub failing : Fields → Bool
failing item = is_command item && has_failed (as_int (get_field (codes "exitCode") item))

-- The events that complete an item with a property.
abbrev pub completes : (Fields → Bool) → Text × Fields → Bool
completes p (method, payload) = elim (completed_item method payload) [
  | none ↦ false
  | some item ↦ p item
]

observe_item-count_of :
    (k : Kind) (item : Fields) (s : TurnStats)
    → count_of k (observe_item item s) ≡ count_of k s + one_if (of_kind k item)
unfolding observe_item observe_command add_duration count_failed
observe_item-count_of k item s = grind (
  arith,
  count_kind-count_of k (command_kind (command_text item))
      (record s { command_count = s.command_count + 1 }),
)

observe_item-failed :
    (item : Fields) (s : TurnStats)
    → (observe_item item s).failed_command_count ≡ s.failed_command_count + one_if (failing item)
unfolding observe_item observe_command add_duration count_failed count_kind
observe_item-failed item s = grind arith

observe_item-commands :
    (item : Fields) (s : TurnStats)
    → (observe_item item s).command_count ≡ s.command_count + one_if (is_command item)
unfolding observe_item observe_command add_duration count_failed count_kind
observe_item-commands item s = grind arith

-- A number that each item raises by one or leaves counts the items that raise it.
count_items :
    (f : TurnStats → ℕ) (p : Fields → Bool)
    → ((item : Fields) (s : TurnStats) → f (observe_item item s) ≡ f s + one_if (p item))
    → (events : List (Text × Fields)) (s : TurnStats)
    → f (observe_all events s) ≡ f s + count_if (completes p) events
unfolding observe_all observe count_if
count_items f p h [] s = omega arith
count_items f p h ((method, payload) ∷ events) s =
    elim (Option-cases (completed_item method payload)) [
      | inl missing ↦ grind (arith, count_items f p h events s, missing)
      | inr (item, done) ↦
          grind (arith, count_items f p h events (observe_item item s), h item s, done)
    ]

abbrev pub Balanced : TurnStats → Type 0
Balanced s =
    s.command_count
    ≡ s.search_command_count + s.read_command_count + s.test_command_count + s.build_command_count
      + s.git_command_count + s.other_command_count

count_kind-Balanced :
    (k : Kind) (s : TurnStats)
    → Balanced s
    → Balanced (count_kind k (record s { command_count = s.command_count + 1 }))
unfolding count_kind
count_kind-Balanced k s h = grind (arith, h)

observe_item-Balanced :
    (item : Fields) (s : TurnStats) → Balanced s → Balanced (observe_item item s)
unfolding observe_item observe_command add_duration count_failed
observe_item-Balanced item s h =
    grind (arith, count_kind-Balanced (command_kind (command_text item)) s h)

observe-Balanced :
    (method : Text) (payload : Fields) (s : TurnStats)
    → Balanced s
    → Balanced (observe method payload s)
unfolding observe
observe-Balanced method payload s h = elim (Option-cases (completed_item method payload)) [
  | inl missing ↦ rw (observe, missing) h
  | inr (item, done) ↦ rw (observe, done) (observe_item-Balanced item s h)
]

observe_all-Balanced :
    (events : List (Text × Fields)) (s : TurnStats) → Balanced s → Balanced (observe_all events s)
unfolding observe_all
observe_all-Balanced [] s h = h
observe_all-Balanced ((method, payload) ∷ events) s h =
    observe_all-Balanced events (observe method payload s) (observe-Balanced method payload s h)

kind_count :
    (kind : Kind) (events : List (Text × Fields))
    → count_of kind (observe_all events no_stats) ≡ count_if (completes (of_kind kind)) events
kind_count kind events =
    let counted =
      count_items (count_of kind) (of_kind kind) (observe_item-count_of kind) events no_stats in
    grind (arith, counted)

failing-le :
    (events : List (Text × Fields))
    → count_if (completes failing) events ≤ count_if (completes is_command) events
unfolding count_if
failing-le [] = omega arith
failing-le ((method, payload) ∷ events) = grind (arith, failing-le events)

-- The statistics of a turn against its events: each kind's count is the number of completed commands of
-- that kind, and the six together are all completed commands; the failed ones are those with another exit
-- code than 0. Where the durations add up to less than 2 ^ 63, the duration is their sum and the slowest
-- their maximum, which is no greater.
pub observe_all-counts :
    (events : List (Text × Fields))
    → sum_durations events < 2 ^ 63
    → let s = observe_all events no_stats in
      ((kind : Kind) → count_of kind s ≡ count_if (completes (of_kind kind)) events)
      × (s.command_count ≡ count_if (completes is_command) events)
      × Balanced s
      × (s.failed_command_count ≡ count_if (completes failing) events)
      × (s.failed_command_count ≤ s.command_count)
      × (s.command_duration_ms ≡ sum_durations events)
      × (s.slowest_command_duration_ms ≡ max_duration events)
      × (s.slowest_command_duration_ms ≤ s.command_duration_ms)
observe_all-counts events h =
    let adds = observe_all-Adds events no_stats (omega (arith, h)) in
    let failed =
      count_items (λ s. s.failed_command_count) failing observe_item-failed events no_stats in
    let commands =
      count_items (λ s. s.command_count) is_command observe_item-commands events no_stats in
    (
      λ kind. kind_count kind events,
      omega (arith, commands),
      observe_all-Balanced events no_stats refl,
      omega (arith, failed),
      omega (arith, failed, commands, failing-le events),
      omega (arith, adds.0),
      ground (arith, adds.1),
      ground (arith, adds.0, adds.1, max_duration-le-sum events),
    )
