-- ===== src/Middleware/Chain/Gate.antt =====
-- Under which identity and for which tenant the handlers of the API run.
use capyclaw.Prelude.{
  ◌≤◌, ◌≡◌, ◌≢◌, refl, sym, ap, ◌∙◌, ◌⊎◌, inl, inr, arith, String, String_eq, ◌==◌, ◌&&◌, ◌||◌, not,
  Bool-cases, some, if◌then◌else◌,
}
use capyclaw.Action.{Result, ok, panicked}
use capyclaw.Middleware.Http.{Request, Context, Exchange, Response, Handler, header}
use capyclaw.Middleware.Auth.{JwtClaims, AuthState, with_claims, extract_token, auth}
use capyclaw.Middleware.Auth.Configured.{FromConfig}
use capyclaw.Middleware.Auth.Gate.{Genuine, Gate, auth-Gate}
use capyclaw.Middleware.Headers.{
  request_id, cors, after_origin, contains, no_origins, tenant, tenant_context,
}
use capyclaw.Middleware.Chain.{Gateway, guarded, api}

-- the token's tenant, or the header's if the token has none
abbrev pub tenant_of : Request → JwtClaims → String
tenant_of r claims = if claims.tenant_id == "" then header "X-Tenant-ID" r else claims.tenant_id

abbrev pub context_with : String → JwtClaims → String → Context
context_with id claims tenant_id = record {
  user_id = some claims.user_id;
  tenant_id = some tenant_id;
  role = some claims.role;
  request_id = some id;
}

abbrev pub context_of : Request → String → JwtClaims → Context
context_of r id claims = context_with id claims (tenant_of r claims)

tenant_context-of :
    (r : Request) (ctx : Context) (id : String) (claims : JwtClaims)
    → tenant_context r (with_claims claims (record ctx { request_id = some id }))
      ≡ context_of r id claims
unfolding tenant_context
tenant_context-of r ctx id claims = elim (Bool-cases (claims.tenant_id == "")) [
  | inr in_token ↦ rw in_token refl
  | inl not_in_token ↦ elim (Bool-cases (header "X-Tenant-ID" r == "")) [
    | inr in_header ↦ rw (not_in_token, in_header) refl
    | inl nowhere ↦
        let same = (String_eq.same_iff claims.tenant_id "").0 not_in_token in
        let empty = (String_eq.same_iff (header "X-Tenant-ID" r) "").0 nowhere in
        rw (not_in_token, nowhere) (ap (λ t. context_with id claims t) (same ∙ sym empty))
  ]
]

module _ {W K S V : Type 0} (g : Gateway W K S V) (h : Handler (AuthState W K S V))
    (r : Request) where
  -- an answer of the middleware, or what the routes' group makes of the request under a context that
  -- genuine claims give
  pub data Served : Result Response × Exchange (AuthState W K S V) → Type 0 where
    turned_away :
        (response : Response) (x : Exchange (AuthState W K S V))
        → (response.status ≡ 204) ⊎ (400 ≤ response.status)
        → Served (ok response, x)
    broken : (x : Exchange (AuthState W K S V)) → Served (panicked, x)
    served :
        (claims : JwtClaims) (id : String) (x : Exchange (AuthState W K S V))
        → Genuine g.crypto g.tokens (extract_token g.crypto g.tokens r) g.auth_config claims
        → Served (guarded g h r (context_of r id claims) x)

  Gate-Served :
      (ctx : Context) (id : String) (t : Result Response × Exchange (AuthState W K S V))
      → Gate g.crypto g.tokens
          (tenant (guarded g h))
          (extract_token g.crypto g.tokens r)
          g.auth_config
          r
          (record ctx { request_id = some id })
          t
      → Served t
  unfolding tenant
  Gate-Served ctx id _ (Gate.refused response x bad f) = Served.turned_away response x (inr bad)
  Gate-Served ctx id _ (Gate.broken x) = Served.broken x
  Gate-Served ctx id _ (Gate.passed claims x genuine f) =
      rw (tenant_context-of r ctx id claims) (Served.served claims id x genuine)

  -- what the authentication remembers was come by under its configuration
  abbrev pub Configured : AuthState W K S V → Type 0
  Configured s = FromConfig g.crypto g.tokens g.auth_config s

  module _ (other : g.auth_config.provider ≢ "device-pairing") where
    after_origin-Served :
        (ctx : Context) (id : String) (x : Exchange (AuthState W K S V))
        → Configured x.world
        → Served (
            after_origin
              (auth g.crypto g.tokens (tenant (guarded g h)) g.auth_config)
              r
              (record ctx { request_id = some id })
              x)
    unfolding after_origin
    after_origin-Served ctx id x f = elim (Bool-cases (r.method == "OPTIONS")) [
      | inl preflight ↦ rw preflight (Served.turned_away _ x (inl refl))
      | inr method ↦ rw method (
          Gate-Served ctx id _ (
            auth-Gate g.crypto g.tokens (tenant (guarded g h)) g.auth_config r
              (record ctx { request_id = some id }) x f other))
    ]

    cors-Served :
        (ctx : Context) (id : String) (x : Exchange (AuthState W K S V))
        → Configured x.world
        → Served (
            cors g.origins
              (auth g.crypto g.tokens (tenant (guarded g h)) g.auth_config)
              r
              (record ctx { request_id = some id })
              x)
    unfolding cors
    cors-Served ctx id x f =
        elim (Bool-cases (not (header "Origin" r == "") && not (no_origins g.origins))) [
          | inl checked ↦
              elim (Bool-cases (contains g.origins "*" || contains g.origins (header "Origin" r))) [
                | inl allowed ↦ rw (checked, allowed) (after_origin-Served ctx id _ f)
                | inr foreign ↦ rw (checked, foreign) (Served.turned_away _ x (inr (omega arith)))
              ]
          | inr unchecked ↦ rw unchecked (after_origin-Served ctx id x f)
        ]

    -- If what the authentication remembers was come by under its configuration, as it is at the start,
    -- the making of an identifier leaves that so, and the provider is not device-pairing: a request to
    -- the API is answered with 204 or with a status of 400 or more, or something panics, or the rate limit
    -- and the handler run for it in a context whose user and role are those of genuine claims of the
    -- request's own token, by the configured key or verifier, and whose tenant is the token's, or the one
    -- that the header X-Tenant-ID names if the token has none.
    pub api-Served :
        (ctx : Context) (x : Exchange (AuthState W K S V))
        → Configured x.world
        → ((s : AuthState W K S V) → Configured s → Configured (g.new_id s).1)
        → Served (api g h r ctx x)
    unfolding api request_id
    api-Served ctx x f fresh = elim (Bool-cases (header "X-Request-ID" r == "")) [
      | inl missing ↦ rw missing (cors-Served ctx _ _ (fresh x.world f))
      | inr given ↦ rw given (cors-Served ctx _ _ f)
    ]
