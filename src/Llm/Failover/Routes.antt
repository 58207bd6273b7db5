-- ===== src/Llm/Failover/Routes.antt =====
-- The routes of NewRoutedFailoverClient.
use mathlib.Core.List.{append_assoc, append-nil}
use native.Mathlib.Numerals.{add-one}
use native.Mathlib.Nat.{zero-add}
use capyclaw.Prelude.{
  ℕ, zero, suc, ◌+◌, ◌≡◌, refl, ap, sym, ◌∙◌, String, Bool, true, false, ◌||◌, Option, none, some,
  List, [], ◌∷◌, ◌++◌, map, arith, length, length-append, Map, lookup, insert, lookup-insert, ◌==◌,
  String_eq, if◌then◌else◌, Option-cases, Bool-cases, inl, inr, some_inj,
}
use capyclaw.Llm.Failover.{
  ProviderEntry, FailoverClient, ProviderWithModels, at, new_entry, add_models, add_provider,
  add_providers, new_routed_failover_client,
}

abbrev pub contains : String → List String → Bool
contains s [] = false
contains s (t ∷ ts) = t == s || contains s ts

lookup-add_models :
    (model : String) (idx : ℕ) (m : Map String ℕ) (models : List String)
    → lookup model (add_models idx m models)
      ≡ (if contains model models then some idx else lookup model m)
unfolding add_models
lookup-add_models model idx m [] = refl
lookup-add_models model idx m (t ∷ ts) =
    lookup-add_models model idx (insert t idx m) ts ∙ ground (arith, lookup-insert t model idx m)

module _ {W : Type 0} (new_breaker : String → (ℕ → Bool) → W → Bool) where
  -- the provider at `idx` was made from an entry of `pwms` that lists the model
  pub data Listed (model : String) (idx : ℕ) (fc : FailoverClient W)
      (pwms : List (ProviderWithModels W)) : Type 0 where
    listed :
        (pwm : ProviderWithModels W)
        → at idx pwms ≡ some pwm
        → contains model pwm.models ≡ true
        → at idx fc.providers ≡ some (new_entry new_breaker pwm.client)
        → Listed model idx fc pwms

abbrev later : Option ℕ → Option ℕ → Option ℕ
later (some i) o = some i
later none o = o

later-if :
    (a o : Option ℕ) (b : Bool) (i : ℕ)
    → later a (if b then some i else o) ≡ later (later a (if b then some i else none)) o
later-if a o b i = ground arith

module _ {W : Type 0} where
  -- the position, counted from `i`, of the last provider that lists the model
  abbrev pub listing : String → ℕ → List (ProviderWithModels W) → Option ℕ
  listing model i [] = none
  listing model i (p ∷ ps) =
      later (listing model (suc i) ps) (if contains model p.models then some i else none)

  data Found (model : String) (i j : ℕ) (pwms : List (ProviderWithModels W)) : Type 0 where
    found :
        (k : ℕ) (pwm : ProviderWithModels W)
        → j ≡ i + k
        → at k pwms ≡ some pwm
        → contains model pwm.models ≡ true
        → Found model i j pwms

  Found-later :
      (model : String) (i j : ℕ) (p : ProviderWithModels W) (ps : List (ProviderWithModels W))
      → Found model (suc i) j ps
      → Found model i j (p ∷ ps)
  Found-later model i j p ps (found k pwm e a c) = found (suc k) pwm (omega arith) a c

  listing-Found :
      (model : String) (i j : ℕ) (pwms : List (ProviderWithModels W))
      → listing model i pwms ≡ some j
      → Found model i j pwms
  listing-Found model i j [] h = cc
  listing-Found model i j (p ∷ ps) h = elim (Option-cases (listing model (suc i) ps)) [
    | inr (j', e) ↦ Found-later model i j p ps (listing-Found model (suc i) j ps (ground arith))
    | inl e ↦ elim (Bool-cases (contains model p.models)) [
      | inl c ↦ found 0 p (ground arith) refl c
      | inr c ↦ absurd (ground arith)
    ]
  ]

module _ {W : Type 0} (new_breaker : String → (ℕ → Bool) → W → Bool) where
  entries : List (ProviderWithModels W) → List (ProviderEntry W)
  entries pwms = map (λ (p : ProviderWithModels W). new_entry new_breaker p.client) pwms

  providers-add_providers :
      (fc : FailoverClient W) (pwms : List (ProviderWithModels W))
      → (add_providers new_breaker fc pwms).providers ≡ fc.providers ++ entries pwms
  unfolding add_providers entries
  providers-add_providers fc [] = sym (append-nil fc.providers)
  providers-add_providers fc (p ∷ ps) =
      providers-add_providers (add_provider new_breaker fc p) ps
      ∙ append_assoc fc.providers (new_entry new_breaker p.client ∷ []) (entries ps)

  lookup-add_providers :
      (model : String) (fc : FailoverClient W) (pwms : List (ProviderWithModels W))
      → lookup model (add_providers new_breaker fc pwms).model_to_index
        ≡ later (listing model (length fc.providers) pwms) (lookup model fc.model_to_index)
  unfolding add_providers
  lookup-add_providers model fc [] = refl
  lookup-add_providers model fc (p ∷ ps) =
      lookup-add_providers model (add_provider new_breaker fc p) ps
      ∙ rw
          (
            length-append fc.providers (new_entry new_breaker p.client ∷ []),
            lookup-add_models model (length fc.providers) fc.model_to_index p.models,
          )
          (rw add-one (later-if _ (lookup model fc.model_to_index) (contains model p.models) _))

  at-entries :
      (k : ℕ) (pwms : List (ProviderWithModels W)) (pwm : ProviderWithModels W)
      → at k pwms ≡ some pwm
      → at k (entries pwms) ≡ some (new_entry new_breaker pwm.client)
  unfolding entries
  at-entries k [] pwm h = cc
  at-entries zero (p ∷ ps) pwm h =
      ap (λ (q : ProviderWithModels W). some (new_entry new_breaker q.client)) (some_inj h)
  at-entries (suc k) (p ∷ ps) pwm h = at-entries k ps pwm h

  -- The route of a model is the position of the last provider that lists it; a model that no
  -- provider lists has no route.
  pub lookup-new_routed :
      (model : String) (pwms : List (ProviderWithModels W))
      → lookup model (new_routed_failover_client new_breaker pwms).model_to_index
        ≡ listing model 0 pwms
  unfolding new_routed_failover_client lookup
  lookup-new_routed model pwms =
      lookup-add_providers model (record { providers = []; model_to_index = [] }) pwms
      ∙ ground arith

  Listed-of_Found :
      (model : String) (j : ℕ) (pwms : List (ProviderWithModels W))
      → Found model 0 j pwms
      → Listed new_breaker model j (new_routed_failover_client new_breaker pwms) pwms
  unfolding new_routed_failover_client
  Listed-of_Found model j pwms (found k pwm e a c) = rw e (
      rw zero-add (
        listed pwm a c (
          rw (providers-add_providers (record { providers = []; model_to_index = [] }) pwms)
            (at-entries k pwms pwm a))))

  -- Every route of the new client stays within its providers, and leads to the entry of a
  -- provider that lists the model.
  pub routes-Listed :
      (model : String) (idx : ℕ) (pwms : List (ProviderWithModels W))
      → lookup model (new_routed_failover_client new_breaker pwms).model_to_index ≡ some idx
      → Listed new_breaker model idx (new_routed_failover_client new_breaker pwms) pwms
  routes-Listed model idx pwms h =
      Listed-of_Found model idx pwms
        (listing-Found model 0 idx pwms (sym (lookup-new_routed model pwms) ∙ h))
