-- ===== src/Llm/Failover.antt =====
-- internal/burrow/llm/failover.go: routing by model name, then one provider after the other.
pub mod Routes
pub mod Order
use capyclaw.Prelude.{
  ℕ, zero, suc, ◌+◌, String, Bool, true, false, ltb, Option, none, some, List, [], ◌∷◌, ◌++◌,
  length, Map, lookup, insert, concat, Int64, String_eq,
}
use capyclaw.Action.{Result, Action, ok, err, panicked, fail, panic}
use capyclaw.Llm.{Client, Request, Chunk, Message}

-- The breaker is a gobreaker circuit breaker, of which the code only asks whether it is open.
pub record ProviderEntry (W : Type 0) : Type 0 where
  pub client : Client W
  pub is_open : W → Bool

pub record FailoverClient (W : Type 0) : Type 0 where
  pub providers : List (ProviderEntry W)
  pub model_to_index : Map String ℕ

pub record ProviderWithModels (W : Type 0) : Type 0 where
  pub client : Client W
  pub models : List String

-- the `ReadyToTrip` callback, on the count of consecutive failures
unfoldable pub ready_to_trip : ℕ → Bool
ready_to_trip consecutive_failures = ltb 3 consecutive_failures

-- `xs[i]`, where out of range is a panic
abbrev pub at {ℓ} : {A : Type ℓ} → ℕ → List A → Option A
at i [] = none
at zero (x ∷ xs) = some x
at (suc i) (x ∷ xs) = at i xs

-- `NewCircuitBreaker` of gobreaker: from a name and the trip test to the reading of its state.
module _ {W : Type 0} (new_breaker : String → (ℕ → Bool) → W → Bool) where
  unfoldable pub new_entry : Client W → ProviderEntry W
  new_entry c = record { client = c; is_open = new_breaker c.provider ready_to_trip }

  unfoldable pub add_clients : FailoverClient W → List (Client W) → FailoverClient W
  add_clients fc [] = fc
  add_clients fc (c ∷ cs) =
      add_clients (record fc { providers = fc.providers ++ new_entry c ∷ [] }) cs

  unfoldable pub new_failover_client : List (Client W) → FailoverClient W
  unfolding new_entry add_clients
  new_failover_client = add_clients (record { providers = []; model_to_index = [] })

unfoldable pub add_models : ℕ → Map String ℕ → List String → Map String ℕ
add_models idx m [] = m
add_models idx m (model ∷ models) = add_models idx (insert model idx m) models

module _ {W : Type 0} (new_breaker : String → (ℕ → Bool) → W → Bool) where
  unfoldable pub add_provider : FailoverClient W → ProviderWithModels W → FailoverClient W
  unfolding new_entry add_models
  add_provider fc pwm = record {
    providers = fc.providers ++ new_entry new_breaker pwm.client ∷ [];
    model_to_index = add_models (length fc.providers) fc.model_to_index pwm.models;
  }

  unfoldable pub add_providers : FailoverClient W → List (ProviderWithModels W) → FailoverClient W
  unfolding add_provider
  add_providers fc [] = fc
  add_providers fc (pwm ∷ pwms) = add_providers (add_provider fc pwm) pwms

  unfoldable pub new_routed_failover_client : List (ProviderWithModels W) → FailoverClient W
  unfolding add_providers
  new_routed_failover_client = add_providers (record { providers = []; model_to_index = [] })

-- how `%w` prints the last error; no provider was tried if it is nil
abbrev pub error_text : Option String → String
error_text none = "%!w(<nil>)"
error_text (some e) = e

-- the answer is returned; on an error the code goes on with `k`
abbrev pub on_error : {W A : Type 0} → Result A × W → (String → Action W A) → Result A × W
on_error (ok a, w) k = (ok a, w)
on_error (err e, w) k = k e w
on_error (panicked, w) k = (panicked, w)

module _ {W : Type 0} (req : Request) where
  -- the loop over `fc.providers`, with `lastErr`
  unfoldable pub failover : List (ProviderEntry W) → Option String → Action W (List Chunk)
  failover [] last_err w = (err (concat ("all providers failed: " ∷ error_text last_err ∷ [])), w)
  failover (p ∷ ps) last_err w = elim (p.is_open w) [
    | true ↦ failover ps last_err w
    | false ↦ on_error (p.client.stream req w) (λ e. failover ps (some e))
  ]

  -- the direct route; on an error, or an open breaker, the rest of `Stream`
  unfoldable pub try_routed : ProviderEntry W → Action W (List Chunk) → Action W (List Chunk)
  try_routed p rest w = elim (p.is_open w) [
    | true ↦ rest w
    | false ↦ on_error (p.client.stream req w) (λ _. rest)
  ]

  unfoldable pub route :
      Option ℕ → List (ProviderEntry W) → Action W (List Chunk) → Action W (List Chunk)
  unfolding try_routed panic
  route none ps rest = rest
  route (some idx) ps rest = elim (at idx ps) [ none ↦ panic | some p ↦ try_routed p rest ]

  unfoldable pub stream : FailoverClient W → Action W (List Chunk)
  unfolding route failover
  stream fc = route (lookup req.model fc.model_to_index) fc.providers (failover fc.providers none)

module _ {W : Type 0} where
  first_count : List (ProviderEntry W) → List Message → Action W Int64
  first_count [] messages = fail "no providers available"
  first_count (p ∷ _) messages = p.client.count_tokens messages

  unfoldable pub count_tokens : FailoverClient W → List Message → Action W Int64
  unfolding first_count fail
  count_tokens fc = first_count fc.providers

  -- a `FailoverClient` is a `Client` itself
  unfoldable pub as_client : FailoverClient W → Client W
  unfolding stream count_tokens
  as_client fc = record {
    stream = λ req. stream req fc;
    count_tokens = count_tokens fc;
    provider = "failover";
  }
