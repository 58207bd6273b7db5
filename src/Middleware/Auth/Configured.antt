-- ===== src/Middleware/Auth/Configured.antt =====
-- Which keys and verifiers the closures of `Auth` remember: those of the configuration.
use capyclaw.Prelude.{◌≡◌, refl, ap, ◌∙◌, some_inj, Option, none, some}
use capyclaw.Action.{Result, ok}
use capyclaw.Middleware.Keys.{Crypto, resolve_public_key}
use capyclaw.Middleware.Keys.Configured.{ConfiguredKey, MadeKeys, resolve_public_key-Resolved}
use capyclaw.Middleware.Auth.{AuthConfig, Tokens, AuthState, once_key, once_verifier}

module _ {W K S V : Type 0} (crypto : Crypto W K S) (tokens : Tokens W K V) (cfg : AuthConfig) where
  -- the verifier is one for the issuer and the client of the configuration
  abbrev pub ConfiguredVerifier : V → Type 0
  ConfiguredVerifier v =
      (w : W) × ((tokens.new_verifier cfg.oidc.issuer_url cfg.oidc.client_id w).0 ≡ ok v)

  -- What the closure remembers was come by under its configuration; a closure that remembers nothing,
  -- with no key made, is so.
  pub record FromConfig (s : AuthState W K S V) : Type 0 where
    pub key_from : (key : K) → s.key ≡ some (ok key) → ConfiguredKey crypto cfg.jwt key
    pub verifier_from : (v : V) → s.verifier ≡ some (ok v) → ConfiguredVerifier v
    pub made_from : MadeKeys crypto cfg.jwt.signing_method s.dev

  pub FromConfig-rest :
      (s : AuthState W K S V) (w : W) → FromConfig s → FromConfig (record s { rest = w })
  FromConfig-rest s w f = record {
    key_from = f.key_from;
    verifier_from = f.verifier_from;
    made_from = f.made_from;
  }

  -- a value that fits the configuration, and a state that still does
  abbrev pub Remembers : {A : Type 0} → (A → Type 0) → Result A × AuthState W K S V → Type 0
  Remembers P x = ((a : _) → x.0 ≡ ok a → P a) × FromConfig x.1

  pub once_key-FromConfig :
      (s : AuthState W K S V)
      → FromConfig s
      → Remembers (ConfiguredKey crypto cfg.jwt) (once_key crypto tokens cfg.jwt s)
  unfolding once_key
  once_key-FromConfig s f = by s.key refl
    where
      by :
          (o : Option (Result K))
          → s.key ≡ o
          → Remembers (ConfiguredKey crypto cfg.jwt) (elim o [
            | some r ↦ (r, s)
            | none ↦
                let (r, (keys, w)) = resolve_public_key crypto cfg.jwt (s.dev, s.rest) in
                (r, record s { key = some r; dev = keys; rest = w })
          ])
      by (some r) known = ((λ key e. f.key_from key (known ∙ ap (λ x. some x) e)), f)
      by none new =
          let (configured, still) =
            resolve_public_key-Resolved crypto cfg.jwt s.dev s.rest f.made_from in
          (
            configured,
            record {
              key_from = λ key e. configured key (some_inj e);
              verifier_from = f.verifier_from;
              made_from = still;
            },
          )

  pub once_verifier-FromConfig :
      (s : AuthState W K S V)
      → FromConfig s
      → Remembers ConfiguredVerifier (once_verifier crypto tokens cfg.oidc s)
  unfolding once_verifier
  once_verifier-FromConfig s f = by s.verifier refl
    where
      by :
          (o : Option (Result V))
          → s.verifier ≡ o
          → Remembers ConfiguredVerifier (elim o [
            | some r ↦ (r, s)
            | none ↦
                let (r, w) = tokens.new_verifier cfg.oidc.issuer_url cfg.oidc.client_id s.rest in
                (r, record s { verifier = some r; rest = w })
          ])
      by (some r) known = ((λ v e. f.verifier_from v (known ∙ ap (λ x. some x) e)), f)
      by none new = (
        (λ v e. (s.rest, e)),
        record {
          key_from = f.key_from;
          verifier_from = λ v e. (s.rest, some_inj e);
          made_from = f.made_from;
        },
      )
