-- ===== src/Middleware/Chain.antt =====
-- The order of the middleware in internal/riverbank/router.go, for the routes of the API: RequestID and
-- CORS for all requests, then Auth, Tenant, RateLimit and Audit. The three of chi come before them and
-- are left out.
pub mod Gate
use capyclaw.Prelude.{ℕ, String, List, Option, none, some}
use capyclaw.Action.{Result, ok, err, panicked, Action}
use capyclaw.Wetland.Footprint.{AuditDb}
use capyclaw.Middleware.Http.{
  Request, Context, Exchange, Response, Handler, set_header, answer, at_world, value_or_empty,
}
use capyclaw.Middleware.Keys.{Crypto}
use capyclaw.Middleware.Auth.{AuthConfig, AuthState, Tokens, auth, error_body}
use capyclaw.Middleware.Headers.{request_id, cors, tenant}
use capyclaw.Middleware.Audit.{Texts, audit}
use capyclaw.Middleware.RateLimit.{Redis, RapidsConfig, Outcome, rate_limit}

module _ {W : Type 0} (number_text : ℕ → String) where
  unfoldable pub limit_headers : ℕ → ℕ → Exchange W → Exchange W
  limit_headers limit left x =
      set_header "X-RateLimit-Remaining" (number_text left)
        (set_header "X-RateLimit-Limit" (number_text limit) x)

  -- what `RateLimit` does at each of its outcomes
  unfoldable pub limited :
      Handler W → Request → Context → Result Outcome → Action (Exchange W) Response
  unfolding limit_headers
  limited next r ctx (ok (Outcome.passed none)) x = next r ctx x
  limited next r ctx (ok (Outcome.passed (some (limit, left)))) x =
      next r ctx (limit_headers limit left x)
  limited next r ctx (ok (Outcome.limited seconds limit message)) x =
      answer 429 (error_body "rate_limited" message)
        (limit_headers limit 0 (set_header "Retry-After" (number_text seconds) x))
  limited next r ctx (err e) x = (err e, x)
  limited next r ctx panicked x = (panicked, x)

  unfoldable pub limit : RapidsConfig → Option (Redis W) → Handler W → Handler W
  unfolding limited
  limit cfg redis next r ctx x =
      let (outcome, x') =
        at_world (rate_limit cfg redis (value_or_empty ctx.tenant_id) (value_or_empty ctx.user_id))
          x in
      limited next r ctx outcome x'

pub record Gateway (W K S V : Type 0) : Type 0 where
  pub crypto : Crypto W K S
  pub tokens : Tokens W K V
  pub texts : Texts
  pub number_text : ℕ → String
  pub new_id : AuthState W K S V → String × AuthState W K S V
  pub redis : Option (Redis (AuthState W K S V))
  pub audits : AuditDb (AuthState W K S V)
  pub origins : List String
  pub auth_config : AuthConfig
  pub rapids : RapidsConfig

module _ {W K S V : Type 0} (g : Gateway W K S V) where
  -- the group of the authenticated routes, from the rate limit on
  unfoldable pub guarded : Handler (AuthState W K S V) → Handler (AuthState W K S V)
  guarded h = limit g.number_text g.rapids g.redis (audit g.texts g.audits h)

  -- `setupRouter`, for a handler of that group
  unfoldable pub api : Handler (AuthState W K S V) → Handler (AuthState W K S V)
  unfolding guarded
  api h =
      request_id g.new_id
        (cors g.origins (auth g.crypto g.tokens (tenant (guarded h)) g.auth_config))
