-- ===== src/Middleware/Auth.antt =====
-- internal/riverbank/middleware/auth.go. The packages golang-jwt and go-oidc are parameters.
pub mod Taken
pub mod Configured
pub mod Gate
use capyclaw.Prelude.{
  ℕ, String, String_eq, ◌==◌, Bool, true, false, Option, none, some, List, [], ◌∷◌, concat, Map,
  lookup, if◌then◌else◌,
}
use capyclaw.Action.{Result, ok, err, panicked, Action, pure, within, ◌>>=◌}
use capyclaw.Middleware.Http.{
  Request, Context, Exchange, Response, Handler, header, answer, strip_text,
}
use capyclaw.Middleware.Keys.{
  JwtConfig, Crypto, DevKeys, resolve_public_key, signing_method_from_string,
}

-- a claim that is not a text is `other_claim`
pub data Claim : Type 0 where
  text_claim : String → Claim
  other_claim : Claim

-- `jwt.Token`: whether it is valid, and its claims if they are a map
pub record Token : Type 0 where
  pub valid : Bool
  pub claims : Option (Map String Claim)

pub record JwtClaims : Type 0 where
  pub user_id : String
  pub tenant_id : String
  pub role : String

pub record OidcConfig : Type 0 where
  pub issuer_url : String
  pub client_id : String

pub record AuthConfig : Type 0 where
  pub provider : String
  pub oidc : OidcConfig
  pub jwt : JwtConfig

-- `jwt.Parse` with its key function (from the token's algorithm to the key), the valid methods and a
-- required expiration; `oidc.NewProvider` with `Verifier`, `Verify` and `Claims` (sub, tid, role)
pub record Tokens (W : Type 0) (K : Type 0) (V : Type 0) : Type 0 where
  pub parse : String → (String → Result K) → List String → Action W Token
  pub new_verifier : String → String → Action W V
  pub verify : V → String → Action W (Result JwtClaims)

-- the closure's `sync.Once` values, with what they left; and the keys of the development mode
pub record AuthState (W : Type 0) (K : Type 0) (S : Type 0) (V : Type 0) : Type 0 where
  pub key : Option (Result K)
  pub verifier : Option (Result V)
  pub dev : DevKeys K S
  pub rest : W

abbrev pub claim_text : String → Map String Claim → String
claim_text name claims = elim (lookup name claims) [ some (Claim.text_claim t) ↦ t | _ ↦ "" ]

-- the claims of a token
unfoldable pub claims_of : Map String Claim → Result JwtClaims
claims_of claims =
    if claim_text "sub" claims == ""
    then err "missing sub claim"
    else ok (record {
      user_id = claim_text "sub" claims;
      tenant_id = claim_text "tid" claims;
      role = claim_text "role" claims;
    })

unfoldable pub check_token : Token → Result JwtClaims
unfolding claims_of
check_token token =
    if token.valid
    then elim token.claims [ none ↦ err "invalid claims type" | some claims ↦ claims_of claims ]
    else err "invalid token"

-- `context.WithValue` three times
abbrev pub with_claims : JwtClaims → Context → Context
with_claims claims ctx = record ctx {
  user_id = some claims.user_id;
  tenant_id = some claims.tenant_id;
  role = some claims.role;
}

abbrev pub error_body : String → String → String
error_body code message =
    concat ("{\"error\":{\"code\":\"" ∷ code ∷ "\",\"message\":\"" ∷ message ∷ "\"}}" ∷ [])

module _ {W K S V : Type 0} (crypto : Crypto W K S) (tokens : Tokens W K V) where
  abbrev pub World : Type 0
  World = AuthState W K S V

  -- the key function: only the configured algorithm gets the key
  abbrev pub key_for : String → K → String → Result K
  key_for expected key algorithm =
      if algorithm == expected
      then ok key
      else err (concat ("unexpected signing method: " ∷ algorithm ∷ ", expected " ∷ expected ∷ []))

  -- `validateJWT`
  unfoldable pub validate_jwt : String → JwtConfig → K → Action W JwtClaims
  unfolding check_token
  validate_jwt text cfg key = do
    token ← within "parsing token: " (
        tokens.parse text (key_for (signing_method_from_string cfg.signing_method) key)
          (signing_method_from_string cfg.signing_method ∷ []))
    λ w. (check_token token, w)

  -- `ValidateJWTToken`
  unfoldable pub validate_jwt_token :
      String → AuthConfig → DevKeys K S × W → Result JwtClaims × (DevKeys K S × W)
  unfolding validate_jwt
  validate_jwt_token text cfg before =
      let (r, (keys, w)) = resolve_public_key crypto cfg.jwt before in
      elim r [
        | ok key ↦ (let (claims, w') = validate_jwt text cfg.jwt key w in (claims, (keys, w')))
        | err e ↦ (err (concat ("resolving public key: " ∷ e ∷ [])), (keys, w))
        | panicked ↦ (panicked, (keys, w))
      ]

  -- `extractToken`
  unfoldable pub extract_token : Request → String
  unfolding strip_text
  extract_token r = elim (strip_text "Bearer " (header "Authorization" r)) [
    | none ↦ ""
    | some t ↦ t
  ]

  -- `keyOnce.Do`
  unfoldable pub once_key : JwtConfig → World → Result K × World
  once_key cfg s = elim s.key [
    | some r ↦ (r, s)
    | none ↦
        let (r, (keys, w)) = resolve_public_key crypto cfg (s.dev, s.rest) in
        (r, record s { key = some r; dev = keys; rest = w })
  ]

  -- `oidcOnce.Do`
  unfoldable pub once_verifier : OidcConfig → World → Result V × World
  once_verifier cfg s = elim s.verifier [
    | some r ↦ (r, s)
    | none ↦
        let (r, w) = tokens.new_verifier cfg.issuer_url cfg.client_id s.rest in
        (r, record s { verifier = some r; rest = w })
  ]

  unfoldable pub jwt_claims : String → JwtConfig → K → World → Result JwtClaims × World
  unfolding validate_jwt
  jwt_claims text cfg key s =
      let (r, w) = validate_jwt text cfg key s.rest in (r, record s { rest = w })

  unfoldable pub verified : V → String → World → Result (Result JwtClaims) × World
  verified v text s = let (r, w) = tokens.verify v text s.rest in (r, record s { rest = w })

  module _ (next : Handler World) where
    abbrev unauthorized : String → Action (Exchange World) Response
    unauthorized message = answer 401 (error_body "unauthorized" message)

    abbrev internal : String → Action (Exchange World) Response
    internal message = answer 500 (error_body "internal" message)

    unfoldable pub jwt_next :
        Request → Context → Result JwtClaims → Action (Exchange World) Response
    jwt_next r ctx (ok claims) = next r (with_claims claims ctx)
    jwt_next r ctx (err e) = unauthorized "invalid token"
    jwt_next r ctx panicked = λ x. (panicked, x)

    unfoldable pub jwt_with_key :
        String → AuthConfig → Request → Context → Result K → Action (Exchange World) Response
    unfolding jwt_next jwt_claims
    jwt_with_key text cfg r ctx (ok key) x =
        let (claims, s) = jwt_claims text cfg.jwt key x.world in
        jwt_next r ctx claims (record x { world = s })
    jwt_with_key text cfg r ctx (err e) x = internal "auth configuration error" x
    jwt_with_key text cfg r ctx panicked x = (panicked, x)

    -- the case "jwt"
    unfoldable pub by_jwt : String → AuthConfig → Handler World
    unfolding jwt_with_key once_key
    by_jwt text cfg r ctx x =
        let (key, s) = once_key cfg.jwt x.world in
        jwt_with_key text cfg r ctx key (record x { world = s })

    unfoldable pub oidc_next :
        Request → Context → Result (Result JwtClaims) → Action (Exchange World) Response
    oidc_next r ctx (ok (ok claims)) =
        if claims.user_id == ""
        then unauthorized "missing sub claim"
        else next r (with_claims claims ctx)
    oidc_next r ctx (ok (err e)) = unauthorized "invalid token claims"
    oidc_next r ctx (ok panicked) = λ x. (panicked, x)
    oidc_next r ctx (err e) = unauthorized "invalid OIDC token"
    oidc_next r ctx panicked = λ x. (panicked, x)

    unfoldable pub oidc_with :
        String → Request → Context → Result V → Action (Exchange World) Response
    unfolding oidc_next verified
    oidc_with text r ctx (ok v) x =
        let (claims, s) = verified v text x.world in oidc_next r ctx claims (record x { world = s })
    oidc_with text r ctx (err e) x = internal "OIDC configuration error" x
    oidc_with text r ctx panicked x = (panicked, x)

    -- the case "oidc"
    unfoldable pub by_oidc : String → AuthConfig → Handler World
    unfolding oidc_with once_verifier
    by_oidc text cfg r ctx x =
        let (v, s) = once_verifier cfg.oidc x.world in
        oidc_with text r ctx v (record x { world = s })

    unfoldable pub by_provider : String → AuthConfig → Handler World
    unfolding by_jwt by_oidc
    by_provider text cfg r ctx =
        if cfg.provider == "jwt"
        then by_jwt text cfg r ctx
        else if cfg.provider == "oidc"
        then by_oidc text cfg r ctx
        else if cfg.provider == "device-pairing"
        then next r ctx
        else internal "unsupported auth provider"

    -- `Auth`
    unfoldable pub auth : AuthConfig → Handler World
    unfolding by_provider
    auth cfg r ctx =
        if extract_token r == ""
        then unauthorized "missing authentication token"
        else by_provider (extract_token r) cfg r ctx
