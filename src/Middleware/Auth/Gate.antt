-- ===== src/Middleware/Auth/Gate.antt =====
-- Whom the authentication lets through.
use capyclaw.Prelude.{
  ◌≤◌, ◌≡◌, ◌≢◌, refl, arith, String, String_eq, ◌==◌, ==_neq, Bool-cases, inl, inr, [], ◌∷◌,
}
use capyclaw.Action.{Result, ok, err, panicked}
use capyclaw.Middleware.Http.{Request, Context, Exchange, Response, Handler}
use capyclaw.Middleware.Keys.{Crypto, signing_method_from_string}
use capyclaw.Middleware.Auth.{
  Token, JwtClaims, AuthConfig, Tokens, AuthState, with_claims, key_for, validate_jwt, jwt_claims,
  extract_token, verified, jwt_next, jwt_with_key, by_jwt, oidc_next, oidc_with, by_oidc,
  by_provider, auth,
}
use capyclaw.Middleware.Auth.Taken.{Taken, check_token-Taken, parsed-ok}
use capyclaw.Middleware.Keys.Configured.{ConfiguredKey}
use capyclaw.Middleware.Auth.Configured.{
  ConfiguredVerifier, FromConfig, FromConfig-rest, once_key-FromConfig, once_verifier-FromConfig,
}

module _ {W K S V : Type 0} (crypto : Crypto W K S) (tokens : Tokens W K V) where
  -- how the claims were come by: from a valid token that was parsed for the configured algorithm alone,
  -- whose key function hands out the configured key, or from a token that the verifier for the
  -- configured issuer and client took
  pub data Genuine (bearer : String) (cfg : AuthConfig) (claims : JwtClaims) : Type 0 where
    signed :
        (key : K) (w : W) (token : Token)
        → (tokens.parse bearer
            (key_for crypto tokens (signing_method_from_string cfg.jwt.signing_method) key)
            (signing_method_from_string cfg.jwt.signing_method ∷ [])
            w).0
          ≡ ok token
        → cfg.provider ≡ "jwt"
        → ConfiguredKey crypto cfg.jwt key
        → Taken token claims
        → Genuine bearer cfg claims
    vouched :
        (v : V) (w : W)
        → cfg.provider ≡ "oidc"
        → ConfiguredVerifier crypto tokens cfg v
        → (tokens.verify v bearer w).0 ≡ ok (ok claims)
        → claims.user_id ≢ ""
        → Genuine bearer cfg claims

  validate_jwt-Genuine :
      (bearer : String) (cfg : AuthConfig) (key : K) (w : W) (claims : JwtClaims)
      → cfg.provider ≡ "jwt"
      → ConfiguredKey crypto cfg.jwt key
      → (validate_jwt crypto tokens bearer cfg.jwt key w).0 ≡ ok claims
      → Genuine bearer cfg claims
  unfolding validate_jwt
  validate_jwt-Genuine bearer cfg key w claims jwt from h =
      let (token, parsed, checked) = parsed-ok (tokens.parse bearer _ _) _ w claims h in
      Genuine.signed key w token parsed jwt from (check_token-Taken token claims checked)

  -- an answer of the authentication itself, or what the next handler makes of genuine claims
  pub data Gate (next : Handler (AuthState W K S V)) (bearer : String) (cfg : AuthConfig)
      (r : Request) (ctx : Context) : Result Response × Exchange (AuthState W K S V) → Type 0 where
    refused :
        (response : Response) (x : Exchange (AuthState W K S V))
        → 400 ≤ response.status
        → FromConfig crypto tokens cfg x.world
        → Gate next bearer cfg r ctx (ok response, x)
    broken : (x : Exchange (AuthState W K S V)) → Gate next bearer cfg r ctx (panicked, x)
    passed :
        (claims : JwtClaims) (x : Exchange (AuthState W K S V))
        → Genuine bearer cfg claims
        → FromConfig crypto tokens cfg x.world
        → Gate next bearer cfg r ctx (next r (with_claims claims ctx) x)

  module _ (next : Handler (AuthState W K S V)) (bearer : String) (cfg : AuthConfig) (r : Request)
      (ctx : Context) where
    jwt_next-Gate :
        (claims : Result JwtClaims) (x : Exchange (AuthState W K S V))
        → FromConfig crypto tokens cfg x.world
        → ((c : JwtClaims) → claims ≡ ok c → Genuine bearer cfg c)
        → Gate next bearer cfg r ctx (jwt_next crypto tokens next r ctx claims x)
    unfolding jwt_next
    jwt_next-Gate (ok claims) x f genuine = Gate.passed claims x (genuine claims refl) f
    jwt_next-Gate (err e) x f genuine = Gate.refused _ x (omega arith) f
    jwt_next-Gate panicked x f genuine = Gate.broken x

    jwt_with_key-Gate :
        (key : Result K) (x : Exchange (AuthState W K S V))
        → cfg.provider ≡ "jwt"
        → FromConfig crypto tokens cfg x.world
        → ((k : K) → key ≡ ok k → ConfiguredKey crypto cfg.jwt k)
        → Gate next bearer cfg r ctx (jwt_with_key crypto tokens next bearer cfg r ctx key x)
    unfolding jwt_with_key jwt_claims
    jwt_with_key-Gate (ok key) x jwt f from =
        jwt_next-Gate _ _ (FromConfig-rest crypto tokens cfg x.world _ f)
          (λ c e. validate_jwt-Genuine bearer cfg key x.world.rest c jwt (from key refl) e)
    jwt_with_key-Gate (err e) x jwt f from = Gate.refused _ x (omega arith) f
    jwt_with_key-Gate panicked x jwt f from = Gate.broken x

    oidc_next-Gate :
        (claims : Result (Result JwtClaims)) (x : Exchange (AuthState W K S V))
        → FromConfig crypto tokens cfg x.world
        → ((c : JwtClaims) → claims ≡ ok (ok c) → c.user_id ≢ "" → Genuine bearer cfg c)
        → Gate next bearer cfg r ctx (oidc_next crypto tokens next r ctx claims x)
    unfolding oidc_next
    oidc_next-Gate (ok (ok claims)) x f genuine = elim (Bool-cases (claims.user_id == "")) [
      | inl nameless ↦ rw nameless (Gate.refused _ x (omega arith) f)
      | inr named ↦ rw named (Gate.passed claims x (genuine claims refl (==_neq named)) f)
    ]
    oidc_next-Gate (ok (err e)) x f genuine = Gate.refused _ x (omega arith) f
    oidc_next-Gate (ok panicked) x f genuine = Gate.broken x
    oidc_next-Gate (err e) x f genuine = Gate.refused _ x (omega arith) f
    oidc_next-Gate panicked x f genuine = Gate.broken x

    oidc_with-Gate :
        (v : Result V) (x : Exchange (AuthState W K S V))
        → cfg.provider ≡ "oidc"
        → FromConfig crypto tokens cfg x.world
        → ((u : V) → v ≡ ok u → ConfiguredVerifier crypto tokens cfg u)
        → Gate next bearer cfg r ctx (oidc_with crypto tokens next bearer r ctx v x)
    unfolding oidc_with verified
    oidc_with-Gate (ok v) x oidc f from =
        oidc_next-Gate _ _ (FromConfig-rest crypto tokens cfg x.world _ f)
          (λ c e named. Genuine.vouched v x.world.rest oidc (from v refl) e named)
    oidc_with-Gate (err e) x oidc f from = Gate.refused _ x (omega arith) f
    oidc_with-Gate panicked x oidc f from = Gate.broken x

    by_provider-Gate :
        (x : Exchange (AuthState W K S V))
        → FromConfig crypto tokens cfg x.world
        → cfg.provider ≢ "device-pairing"
        → Gate next bearer cfg r ctx (by_provider crypto tokens next bearer cfg r ctx x)
    unfolding by_provider by_jwt by_oidc
    by_provider-Gate x f other = elim (Bool-cases (cfg.provider == "jwt")) [
      | inl jwt ↦
          let (from, still) = once_key-FromConfig crypto tokens cfg x.world f in
          rw jwt (jwt_with_key-Gate _ _ ((String_eq.same_iff cfg.provider "jwt").0 jwt) still from)
      | inr not_jwt ↦ elim (Bool-cases (cfg.provider == "oidc")) [
        | inl oidc ↦
            let (from, still) = once_verifier-FromConfig crypto tokens cfg x.world f in
            rw (not_jwt, oidc)
              (oidc_with-Gate _ _ ((String_eq.same_iff cfg.provider "oidc").0 oidc) still from)
        | inr not_oidc ↦ elim (Bool-cases (cfg.provider == "device-pairing")) [
          | inl pairing ↦
              absurd (other ((String_eq.same_iff cfg.provider "device-pairing").0 pairing))
          | inr not_pairing ↦ rw (not_jwt, not_oidc, not_pairing) (Gate.refused _ x (omega arith) f)
        ]
      ]
    ]

  -- If what the closure remembers was come by under the configuration, as it is at the start, and the
  -- provider is not device-pairing: Auth runs the next handler only with a user's id that is not empty and
  -- with the claims of the request's own token, which, by the provider, is valid and was parsed under the
  -- configured algorithm alone and with the configured key (that of the file, of the method's kind, or
  -- one that the program made if no file is configured), or was taken by a verifier for the configured
  -- issuer and client. Otherwise it answers with a status of 400 or more, or something panics. What the
  -- closure remembers still is of the configuration when the handler runs, and after such an answer.
  pub auth-Gate :
      (next : Handler (AuthState W K S V)) (cfg : AuthConfig) (r : Request) (ctx : Context)
      (x : Exchange (AuthState W K S V))
      → FromConfig crypto tokens cfg x.world
      → cfg.provider ≢ "device-pairing"
      → Gate next (extract_token crypto tokens r) cfg r ctx (auth crypto tokens next cfg r ctx x)
  unfolding auth
  auth-Gate next cfg r ctx x f other = elim (Bool-cases (extract_token crypto tokens r == "")) [
    | inl missing ↦ rw missing (Gate.refused _ x (omega arith) f)
    | inr present ↦
        rw present (by_provider-Gate next (extract_token crypto tokens r) cfg r ctx x f other)
  ]
