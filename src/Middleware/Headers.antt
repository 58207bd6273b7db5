-- ===== src/Middleware/Headers.antt =====
-- internal/riverbank/middleware/requestid.go, cors.go and tenant.go.
use capyclaw.Prelude.{
  String, String_eq, ◌==◌, ◌||◌, ◌&&◌, not, Bool, true, false, some, List, [], ◌∷◌, if◌then◌else◌,
}
use capyclaw.Middleware.Http.{
  Request, Context, Exchange, Handler, header, set_header, answer, value_or_empty,
}

-- `slices.Contains`
unfoldable pub contains : List String → String → Bool
contains [] s = false
contains (t ∷ ts) s = t == s || contains ts s

abbrev pub no_origins : List String → Bool
no_origins [] = true
no_origins (_ ∷ _) = false

abbrev pub cors_headers : {W : Type 0} → String → Exchange W → Exchange W
cors_headers origin x = set_header "Access-Control-Max-Age" "86400" (
    set_header "Access-Control-Allow-Headers"
      "Authorization, Content-Type, X-Tenant-ID, X-Request-ID"
      (set_header "Access-Control-Allow-Methods" "GET, POST, PATCH, DELETE, OPTIONS"
        (set_header "Access-Control-Allow-Origin" origin x)))

-- the context that `Tenant` hands on: the header counts only if there is no tenant yet
unfoldable pub tenant_context : Request → Context → Context
tenant_context r ctx =
    if not (value_or_empty ctx.tenant_id == "")
    then ctx
    else if not (header "X-Tenant-ID" r == "")
    then record ctx { tenant_id = some (header "X-Tenant-ID" r) }
    else ctx

module _ {W : Type 0} where
  abbrev pub identified : Handler W → String → Handler W
  identified next id r ctx x =
      next r (record ctx { request_id = some id }) (set_header "X-Request-ID" id x)

  -- `RequestID`, with `uuid.New`
  unfoldable pub request_id : (W → String × W) → Handler W → Handler W
  request_id new_id next r ctx x =
      let (fresh, w) = new_id x.world in
      if header "X-Request-ID" r == ""
      then identified next fresh r ctx (record x { world = w })
      else identified next (header "X-Request-ID" r) r ctx x

  -- the part of `CORS` after the check of the origin
  unfoldable pub after_origin : Handler W → Handler W
  after_origin next r ctx = if r.method == "OPTIONS" then answer 204 "" else next r ctx

  -- `CORS`
  unfoldable pub cors : List String → Handler W → Handler W
  unfolding contains after_origin
  cors allowed_origins next r ctx x =
      let origin = header "Origin" r in
      if not (origin == "") && not (no_origins allowed_origins)
      then (if contains allowed_origins "*" || contains allowed_origins origin
          then after_origin next r ctx (cors_headers origin x)
          else answer 403 "{\"error\":\"origin not allowed\"}" x)
      else after_origin next r ctx x

  -- `Tenant`
  unfoldable pub tenant : Handler W → Handler W
  unfolding tenant_context
  tenant next r ctx = next r (tenant_context r ctx)
