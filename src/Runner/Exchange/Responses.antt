-- ===== src/Runner/Exchange/Responses.antt =====
-- awaitResponse of internal/service/codex/runner.go, and a request with its response.
use symphony_go.Prelude.{
  ℕ, true, false, if_case, List, [], ◌∷◌, ◌++◌, All, Result, ok, err, ◌≡◌, refl, ap,
}
use symphony_go.Observability.{Fields}
use symphony_go.Runner.Exchange.{
  Incoming, message, garbage, broken, stopped, Exchange, Writes, is_response_to, response_result,
  await_response, call, notify, and_then, proceed,
}

-- A line that awaitResponse reads over.
abbrev pub Skipped : ℕ → Incoming → Type 0
Skipped id garbage = Unit
Skipped id (message payload) = is_response_to id payload ≡ false
Skipped id (broken why) = ⊥
Skipped id (stopped why) = ⊥

-- The response to a request among the lines: the first message with its number, which has a result.
abbrev pub Responds : ℕ → List Incoming → Fields → List Incoming → Type 0
Responds id lines fields rest =
    (skipped : List Incoming) × (payload : Fields) × (lines ≡ skipped ++ (message payload ∷ rest))
    × All (Skipped id) skipped
    × (is_response_to id payload ≡ true)
    × (response_result payload ≡ ok fields)

Responds-over :
    (id : ℕ) (line : Incoming) (lines : List Incoming) (fields : Fields) (rest : List Incoming)
    → Skipped id line
    → Responds id lines fields rest
    → Responds id (line ∷ lines) fields rest
Responds-over id line lines fields rest h (skipped, payload, e, over, is, result) =
    (line ∷ skipped, payload, ap (λ ls. line ∷ ls) e, (h, over), is, result)

pub await_response-Responds :
    (id : ℕ) (lines : List Incoming) (fields : Fields)
    → (await_response id lines).0 ≡ ok fields
    → Responds id lines fields (await_response id lines).1
unfolding await_response
await_response-Responds id [] fields h = cc
await_response-Responds id (stopped why ∷ lines) fields h = cc
await_response-Responds id (broken why ∷ lines) fields h = cc
await_response-Responds id (garbage ∷ lines) fields h =
    Responds-over id garbage lines fields (await_response id lines).1 tt
      (await_response-Responds id lines fields h)
await_response-Responds id (message payload ∷ lines) fields found =
    if_case
      (λ (z : Result Fields × List Incoming).
        z.0 ≡ ok fields → Responds id (message payload ∷ lines) fields z.1)
      (is_response_to id payload) (λ is h. ([], payload, refl, tt, is, h))
      (λ other h.
        Responds-over id (message payload) lines fields (await_response id lines).1 other
          (await_response-Responds id lines fields h))
      found

-- A call that succeeds sent its request and got the response.
pub call-Responds :
    (writes : Writes) (id : ℕ) (request : Fields) (lines : List Incoming) (fields : Fields)
    → (call writes id request lines).result ≡ ok fields
    → ((call writes id request lines).sent ≡ request ∷ [])
      × Responds id lines fields (call writes id request lines).rest
unfolding call
call-Responds writes id request lines fields =
    if_case
      (λ (x : Exchange Fields).
        x.result ≡ ok fields → (x.sent ≡ request ∷ []) × Responds id lines fields x.rest)
      (writes request) (λ _ h. (refl, await_response-Responds id lines fields h))
      (λ _ h. absurd (cc))

pub notify-sent :
    (writes : Writes) (note : Fields) (lines : List Incoming)
    → (notify writes note lines).result ≡ ok tt
    → ((notify writes note lines).sent ≡ note ∷ []) × ((notify writes note lines).rest ≡ lines)
unfolding notify
notify-sent writes note lines =
    if_case
      (λ (x : Exchange (Unit {0})). x.result ≡ ok tt → (x.sent ≡ note ∷ []) × (x.rest ≡ lines))
      (writes note) (λ _ h. (refl, refl)) (λ _ h. absurd (cc))

-- A chain that succeeds succeeds in both parts.
proceed-ok {ℓ κ} :
    {A : Type ℓ} {B : Type κ} (sent : List Fields) (lines : List Incoming) (r : Result A)
    (next : A → List Incoming → Exchange B) (b : B)
    → (proceed sent lines r next).result ≡ ok b
    → (a : A) × (r ≡ ok a)
      × ((next a lines).result ≡ ok b)
      × ((proceed sent lines r next).sent ≡ sent ++ (next a lines).sent)
      × ((proceed sent lines r next).rest ≡ (next a lines).rest)
proceed-ok sent lines (err e) next b h = cc
proceed-ok sent lines (ok a) next b h = (a, refl, h, refl, refl)

pub and_then-ok {ℓ κ} :
    {A : Type ℓ} {B : Type κ} (x : Exchange A) (next : A → List Incoming → Exchange B) (b : B)
    → (and_then x next).result ≡ ok b
    → (a : A) × (x.result ≡ ok a)
      × ((next a x.rest).result ≡ ok b)
      × ((and_then x next).sent ≡ x.sent ++ (next a x.rest).sent)
      × ((and_then x next).rest ≡ (next a x.rest).rest)
and_then-ok x next b h = proceed-ok x.sent x.rest x.result next b h
