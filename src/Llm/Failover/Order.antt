-- ===== src/Llm/Failover/Order.antt =====
-- The order in which FailoverClient.Stream tries its providers.
use mathlib.Core.Path.{subst}
use capyclaw.Prelude.{
  some_inj, lookup, String_eq, zero, ℕ, String, ◌≡◌, refl, inl, inr, true, false, Bool-cases,
  Option, none, some, List, [], ◌∷◌, ◌++◌, concat, All, ap, ◌≢◌, suc,
}
use capyclaw.Action.{Result, Action, ok, err, panicked}
use capyclaw.Llm.{Request, Chunk}
use capyclaw.Llm.Failover.{
  ProviderEntry, FailoverClient, failover, stream, error_text, route, try_routed, at, on_error,
}

-- the call returned a stream
abbrev pub Answers : Result (List Chunk) → Type 0
Answers r = (ch : List Chunk) × (r ≡ ok ch)

module _ {ℓ κ} {A : Type ℓ} (Q : A → Type κ) where
  All-before : (l m : List A) → All Q (l ++ m) → All Q l
  All-before [] m all = tt
  All-before (y ∷ l) m (first, all) = (first, All-before l m all)

module _ {W : Type 0} (req : Request) where
  -- What turns `w` into `w'` while each provider in turn is skipped, its breaker being open, or
  -- fails; the last two lists hold the error of the provider that failed last.
  pub data Refused : List (ProviderEntry W) → W → Option String → W → Option String → Type 0 where
    nobody : {w : W} {e : Option String} → Refused [] w e w e
    skipped :
        {p : ProviderEntry W} {ps : List (ProviderEntry W)} {w w' : W} {e e' : Option String}
        → p.is_open w ≡ true
        → Refused ps w e w' e'
        → Refused (p ∷ ps) w e w' e'
    failed :
        {p : ProviderEntry W} {ps : List (ProviderEntry W)} {w w₁ w' : W} {e e' : Option String}
        {x : String}
        → p.is_open w ≡ false
        → p.client.stream req w ≡ (err x, w₁)
        → Refused ps w₁ (some x) w' e'
        → Refused (p ∷ ps) w e w' e'

  -- The three ways in which the loop over `ps` ends, and what it returns.
  pub data Outcome (ps : List (ProviderEntry W)) (e : Option String) (w : W) : Type 0 where
    served :
        (before after : List (ProviderEntry W)) (p : ProviderEntry W) (w₁ w₂ : W)
        (e₁ : Option String) (ch : List Chunk)
        → ps ≡ before ++ p ∷ after
        → Refused before w e w₁ e₁
        → p.is_open w₁ ≡ false
        → p.client.stream req w₁ ≡ (ok ch, w₂)
        → failover req ps e w ≡ (ok ch, w₂)
        → Outcome ps e w
    crashed :
        (before after : List (ProviderEntry W)) (p : ProviderEntry W) (w₁ w₂ : W)
        (e₁ : Option String)
        → ps ≡ before ++ p ∷ after
        → Refused before w e w₁ e₁
        → p.is_open w₁ ≡ false
        → p.client.stream req w₁ ≡ (panicked, w₂)
        → failover req ps e w ≡ (panicked, w₂)
        → Outcome ps e w
    exhausted :
        (w₁ : W) (e₁ : Option String)
        → Refused ps w e w₁ e₁
        → failover req ps e w ≡ (err (concat ("all providers failed: " ∷ error_text e₁ ∷ [])), w₁)
        → Outcome ps e w

  Outcome-skip :
      (p : ProviderEntry W) (ps : List (ProviderEntry W)) (e : Option String) (w : W)
      → p.is_open w ≡ true
      → Outcome ps e w
      → Outcome (p ∷ ps) e w
  unfolding failover
  Outcome-skip p ps e w h (served before after q w₁ w₂ e₁ ch split r o s eq) =
      served (p ∷ before) after q w₁ w₂ e₁ ch (ap (λ l. p ∷ l) split) (skipped h r) o s (rw h eq)
  Outcome-skip p ps e w h (crashed before after q w₁ w₂ e₁ split r o s eq) =
      crashed (p ∷ before) after q w₁ w₂ e₁ (ap (λ l. p ∷ l) split) (skipped h r) o s (rw h eq)
  Outcome-skip p ps e w h (exhausted w₁ e₁ r eq) = exhausted w₁ e₁ (skipped h r) (rw h eq)

  Outcome-fail :
      (p : ProviderEntry W) (ps : List (ProviderEntry W)) (e : Option String) (w w' : W)
      (x : String)
      → p.is_open w ≡ false
      → p.client.stream req w ≡ (err x, w')
      → Outcome ps (some x) w'
      → Outcome (p ∷ ps) e w
  unfolding failover
  Outcome-fail p ps e w w' x h f (served before after q w₁ w₂ e₁ ch split r o s eq) =
      served (p ∷ before) after q w₁ w₂ e₁ ch (ap (λ l. p ∷ l) split) (failed h f r) o s
        (rw (h, f) eq)
  Outcome-fail p ps e w w' x h f (crashed before after q w₁ w₂ e₁ split r o s eq) =
      crashed (p ∷ before) after q w₁ w₂ e₁ (ap (λ l. p ∷ l) split) (failed h f r) o s
        (rw (h, f) eq)
  Outcome-fail p ps e w w' x h f (exhausted w₁ e₁ r eq) =
      exhausted w₁ e₁ (failed h f r) (rw (h, f) eq)

  Outcome-try :
      (p : ProviderEntry W) (ps : List (ProviderEntry W)) (e : Option String) (w w' : W)
      (r : Result (List Chunk))
      → p.is_open w ≡ false
      → p.client.stream req w ≡ (r, w')
      → ((x : String) → Outcome ps (some x) w')
      → Outcome (p ∷ ps) e w
  unfolding failover
  Outcome-try p ps e w w' (ok ch) h f later = served [] ps p w w' e ch refl nobody h f (rw (h, f))
  Outcome-try p ps e w w' panicked h f later = crashed [] ps p w w' e refl nobody h f (rw (h, f))
  Outcome-try p ps e w w' (err x) h f later = Outcome-fail p ps e w w' x h f (later x)

  -- The loop over the providers ends in one of three ways, whatever the providers do. Either each
  -- provider before some `p` was open or failed, `p` was closed and answered, and its answer is
  -- returned; or `p` panicked; or every provider was open or failed, and the error names the last
  -- failure.
  pub failover-Outcome : (ps : List (ProviderEntry W)) (e : Option String) (w : W) → Outcome ps e w
  failover-Outcome [] e w = exhausted w e nobody (unfold failover in refl)
  failover-Outcome (p ∷ ps) e w = elim (Bool-cases (p.is_open w)) [
    | inl h ↦ Outcome-skip p ps e w h (failover-Outcome ps e w)
    | inr h ↦
        let (r, w') = p.client.stream req w in
        Outcome-try p ps e w w' r h refl (λ x. failover-Outcome ps (some x) w')
  ]

  -- `p` is never open, and answers whatever happened before
  pub record IsReliable (p : ProviderEntry W) : Type 0 where
    pub closed : (w : W) → p.is_open w ≡ false
    pub answer : W → List Chunk
    pub next : W → W
    pub answers : (w : W) → p.client.stream req w ≡ (ok (answer w), next w)

  abbrev pub NeverPanics : ProviderEntry W → Type 0
  NeverPanics p = (w : W) → (p.client.stream req w).0 ≢ panicked

  Answers-on_error :
      (x : Result (List Chunk) × W) (k : String → Action W (List Chunk))
      → x.0 ≢ panicked
      → ((e : String) (w : W) → Answers (k e w).0)
      → Answers (on_error x k).0
  Answers-on_error (ok ch, w) k h later = (ch, refl)
  Answers-on_error (err e, w) k h later = later e w
  Answers-on_error (panicked, w) k h later = absurd (h refl)

  Answers-try :
      (q : ProviderEntry W) (ps : List (ProviderEntry W)) (e : Option String) (w : W)
      → (q.client.stream req w).0 ≢ panicked
      → ((e' : Option String) (w' : W) → Answers (failover req ps e' w').0)
      → Answers (failover req (q ∷ ps) e w).0
  unfolding failover
  Answers-try q ps e w h later = elim (Bool-cases (q.is_open w)) [
    | inl o ↦ rw (o, failover) (later e w)
    | inr o ↦
        rw (o, failover)
          (Answers-on_error (q.client.stream req w) (λ x. failover req ps (some x)) h
            (λ x. later (some x)))
  ]

  -- One reliable provider is enough: if no provider panics, `failover` answers.
  pub failover-Answers :
      (before after : List (ProviderEntry W)) (p : ProviderEntry W) (e : Option String) (w : W)
      → All NeverPanics before
      → IsReliable p
      → Answers (failover req (before ++ p ∷ after) e w).0
  failover-Answers [] after p e w h good =
      unfold failover in (good.answer w, rw (good.closed w, good.answers w))
  failover-Answers (q ∷ before) after p e w h good =
      Answers-try q (before ++ p ∷ after) e w (h.0 w)
        (λ e' w'. failover-Answers before after p e' w' h.1 good)

  All-at :
      (i : ℕ) (ps : List (ProviderEntry W)) (q : ProviderEntry W)
      → All NeverPanics ps
      → at i ps ≡ some q
      → NeverPanics q
  All-at i [] q h e = cc
  All-at zero (p ∷ ps) q h e = subst NeverPanics (some_inj e) h.0
  All-at (suc i) (p ∷ ps) q h e = All-at i ps q h.1 e

  -- the model's route, if it has one, leads to a provider
  abbrev pub IsRouted : FailoverClient W → Type 0
  IsRouted fc =
      (i : ℕ)
      → lookup req.model fc.model_to_index ≡ some i
      → (q : ProviderEntry W) × (at i fc.providers ≡ some q)

  route-Answers :
      (o : Option ℕ) (ps : List (ProviderEntry W)) (rest : Action W (List Chunk)) (w : W)
      → All NeverPanics ps
      → ((i : ℕ) → o ≡ some i → (q : ProviderEntry W) × (at i ps ≡ some q))
      → ((w' : W) → Answers (rest w').0)
      → Answers (route req o ps rest w).0
  unfolding route
  route-Answers none ps rest w h r later = later w
  route-Answers (some i) ps rest w h r later =
      let (q, found) = r i refl in
      rw (found, route)
        (elim (Bool-cases (q.is_open w)) [
          | inl o ↦ rw (o, try_routed) (later w)
          | inr o ↦
              rw (o, try_routed)
                (Answers-on_error (q.client.stream req w) (λ _. rest) (All-at i ps q h found w)
                  (λ _. later))
        ])

  -- A client whose routes lead to providers, none of which panics, answers every request if one
  -- of the providers is reliable, whether the routed provider fails or not.
  pub stream-Answers :
      (fc : FailoverClient W) (before after : List (ProviderEntry W)) (p : ProviderEntry W) (w : W)
      → fc.providers ≡ before ++ p ∷ after
      → IsRouted fc
      → All NeverPanics fc.providers
      → IsReliable p
      → Answers (stream req fc w).0
  unfolding stream
  stream-Answers fc before after p w split routed calm good =
      route-Answers (lookup req.model fc.model_to_index) fc.providers
        (failover req fc.providers none) w calm routed
        (λ w'. rw split (
          failover-Answers before after p none w'
            (All-before NeverPanics before _ (subst (All NeverPanics) split calm)) good))
