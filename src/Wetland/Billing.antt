-- ===== src/Wetland/Billing.antt =====
-- internal/wetland/marsh/billing.go: BillingTracker.
pub mod Report
use capyclaw.Prelude.{
  ℕ, String, Bool, Option, none, some, List, [], ◌∷◌, ◌++◌, concat, Int64, Float64, add_int,
}
use capyclaw.Action.{Result, ok, err, panicked, Action, pure, within, attempt, ◌>>=◌, ◌>>◌}
use capyclaw.Wetland.Quota.{QuotaDb, CostOps, record_usage, check_alert}
use capyclaw.Wetland.Footprint.{AuditDb, AuditEvent, log, action_llm_request}

pub record ModelUsage : Type 0 where
  pub model : String
  pub session_count : Int64
  pub input_tokens : Int64
  pub output_tokens : Int64
  pub cost_usd : Float64

pub record UsageTotals : Type 0 where
  pub session_count : Int64
  pub input_tokens : Int64
  pub output_tokens : Int64
  pub cost_usd : Float64

pub record UsageReport : Type 0 where
  pub tenant_id : String
  pub start_date : ℕ
  pub end_date : ℕ
  pub models : List ModelUsage
  pub totals : UsageTotals

-- the query of the report, with a scan of each row; and the JSON text of an event's details
pub record BillingDb (W : Type 0) : Type 0 where
  pub usage_rows : String → ℕ → ℕ → Action W (List (Result ModelUsage))
  pub details_json : String → String → Int64 → Int64 → Float64 → List ℕ

module _ {W : Type 0} (float : CostOps) (quotas : QuotaDb W) (billing : BillingDb W) where
  -- an error is logged or dropped, and the code goes on
  abbrev pub ignore_error : {A : Type 0} → Action W A → Action W (Unit {0})
  ignore_error m = attempt (λ _. tt) (λ _. tt) m

  -- the event of a use of a model; the fields that the code leaves out are empty
  abbrev pub usage_event : String → List ℕ → AuditEvent
  usage_event tenant_id details = record {
    id = 0;
    tenant_id = tenant_id;
    actor_id = none;
    actor_type = "system";
    action = action_llm_request;
    resource_type = "";
    resource_id = none;
    details = details;
    ip_address = "";
    user_agent = "";
    request_id = "";
  }

  -- `if b.auditLogger != nil { _ = b.auditLogger.Log(…) }`
  unfoldable pub log_usage : Option (AuditDb W) → AuditEvent → Action W (Unit {0})
  log_usage none event = pure tt
  log_usage (some audit) event = ignore_error (log audit event)

  -- `RecordLLMUsage`; an alert is only logged
  unfoldable pub record_llm_usage :
      Option (AuditDb W) → String → String → String → Int64 → Int64 → Float64 → Action W (Unit {0})
  unfolding log_usage
  record_llm_usage audit tenant_id provider model input_tokens output_tokens cost = do
    ignore_error (record_usage float quotas tenant_id model input_tokens output_tokens cost)
    log_usage audit (
        usage_event tenant_id (billing.details_json provider model input_tokens output_tokens cost))
    ignore_error (check_alert float quotas tenant_id)

  -- the body of the loop over the rows
  unfoldable pub add_model : ModelUsage → UsageReport → UsageReport
  add_model mu report = record report {
    models = report.models ++ mu ∷ [];
    totals = record {
      session_count = add_int report.totals.session_count mu.session_count;
      input_tokens = add_int report.totals.input_tokens mu.input_tokens;
      output_tokens = add_int report.totals.output_tokens mu.output_tokens;
      cost_usd = float.add report.totals.cost_usd mu.cost_usd;
    };
  }

  unfoldable pub add_rows : List (Result ModelUsage) → UsageReport → Result UsageReport
  unfolding add_model
  add_rows [] report = ok report
  add_rows (ok mu ∷ rows) report = add_rows rows (add_model mu report)
  add_rows (err e ∷ rows) report = err (concat ("scanning usage row: " ∷ e ∷ []))
  add_rows (panicked ∷ rows) report = panicked

  abbrev pub empty_report : String → ℕ → ℕ → UsageReport
  empty_report tenant_id start_date end_date = record {
    tenant_id = tenant_id;
    start_date = start_date;
    end_date = end_date;
    models = [];
    totals = record { session_count = 0; input_tokens = 0; output_tokens = 0; cost_usd = 0 };
  }

  -- `GenerateUsageReport`
  unfoldable pub generate_usage_report : String → ℕ → ℕ → Action W UsageReport
  unfolding add_rows
  generate_usage_report tenant_id start_date end_date = do
    rows ← within "generating usage report: " (billing.usage_rows tenant_id start_date end_date)
    λ w. (add_rows rows (empty_report tenant_id start_date end_date), w)
