-- ===== src/Wetland/Quota.antt =====
-- internal/wetland/marsh/quota.go: QuotaManager. The month of a statement is that of the database.
pub mod Budget
use capyclaw.Prelude.{
  ℕ, String, Bool, true, false, ◌&&◌, Int64, Float64, add_int, int_lt, if◌then◌else◌, List,
}
use capyclaw.Action.{Result, Action, pure, within, ◌>>=◌}

pub record UsageRequest : Type 0 where
  pub tokens_used : Int64
  pub cost_usd : Float64

pub record TenantQuota : Type 0 where
  pub max_agents : Int64
  pub max_sessions_per_agent : Int64
  pub monthly_token_budget : Int64
  pub monthly_cost_limit_usd : Float64
  pub alert_threshold : Float64

-- the statements: the quota's JSON text of a tenant, the sums of its sessions in this month, and the
-- record of a use of a model; and `json.Unmarshal` of a quota
pub record QuotaDb (W : Type 0) : Type 0 where
  pub quota_json : String → Action W (List ℕ)
  pub parse : List ℕ → Result TenantQuota
  pub month_usage : String → Action W (Int64 × Float64)
  pub month_tokens : String → Action W Int64
  pub add_usage : String → String → Int64 → Int64 → Float64 → Action W (Unit {0})

-- the operations of float64 that the code uses, and the constant 0.8
pub record CostOps : Type 0 where
  pub of_int : Int64 → Float64
  pub add : Float64 → Float64 → Float64
  pub div : Float64 → Float64 → Float64
  pub lt : Float64 → Float64 → Bool
  pub le : Float64 → Float64 → Bool
  pub eight_tenths : Float64

-- step 3 of `CheckQuota` for the tokens: `budget > 0 && current+used > budget`
unfoldable pub over_budget : Int64 → Int64 → Int64 → Bool
over_budget budget current used = int_lt 0 budget && int_lt budget (add_int current used)

module _ {W : Type 0} (float : CostOps) (db : QuotaDb W) where
  unfoldable pub over_cost : Float64 → Float64 → Float64 → Bool
  over_cost limit current used = float.lt 0 limit && float.lt limit (float.add current used)

  -- the quota of a tenant, which `CheckQuota` and `CheckAlert` fetch
  unfoldable pub fetch_quota : String → Action W TenantQuota
  fetch_quota tenant_id = do
    json ← within "fetching tenant quota: " (db.quota_json tenant_id)
    within "parsing tenant quota: " (λ w. (db.parse json, w))

  unfoldable pub allowed : TenantQuota → UsageRequest → Int64 × Float64 → Bool
  unfolding over_budget over_cost
  allowed quota usage current =
      if over_budget quota.monthly_token_budget current.0 usage.tokens_used
      then false
      else if over_cost quota.monthly_cost_limit_usd current.1 usage.cost_usd
      then false
      else true

  -- `CheckQuota`
  unfoldable pub check_quota : String → UsageRequest → Action W Bool
  unfolding fetch_quota allowed
  check_quota tenant_id usage = do
    quota ← fetch_quota tenant_id
    current ← within "aggregating monthly usage: " (db.month_usage tenant_id)
    pure (allowed quota usage current)

  -- `RecordUsage`
  unfoldable pub record_usage : String → String → Int64 → Int64 → Float64 → Action W (Unit {0})
  record_usage tenant_id model input_tokens output_tokens cost =
      within "recording usage: " (db.add_usage tenant_id model input_tokens output_tokens cost)

  -- whether to alert, and the share of the budget that is used
  unfoldable pub alert_of : TenantQuota → Int64 → Bool × Float64
  alert_of quota current =
      let share = float.div (float.of_int current) (float.of_int quota.monthly_token_budget) in
      let threshold =
        if float.le quota.alert_threshold 0 then float.eight_tenths else quota.alert_threshold in
      (float.le threshold share, share)

  unfoldable pub alert_for : String → TenantQuota → Action W (Bool × Float64)
  unfolding alert_of
  alert_for tenant_id quota = if int_lt quota.monthly_token_budget 1 then pure (false, 0) else (do
    current ← within "aggregating monthly usage: " (db.month_tokens tenant_id)
    pure (alert_of quota current))

  -- `CheckAlert`
  unfoldable pub check_alert : String → Action W (Bool × Float64)
  unfolding fetch_quota alert_for
  check_alert tenant_id = do quota ← fetch_quota tenant_id; alert_for tenant_id quota
