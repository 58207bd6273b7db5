-- ===== src/Tests/Tenants.antt =====
-- Examples for internal/wetland.
use capyclaw.Prelude.{
  ℕ, ◌+◌, ltb, leb, nat_eq, if◌then◌else◌, arith, true, String, none, some, List, [], ◌∷◌, map, All,
}
use capyclaw.Action.{ok}
use capyclaw.Sql.{Arg}
use capyclaw.Sql.Numbered.{Bound}
use capyclaw.Wetland.Tenant.{TenantRow, TenantDb, TenantUpdate}
use capyclaw.Wetland.Footprint.{
  AuditDb, AuditEvent, AuditFilter, filter_statement, select_events, effective_limit,
  effective_offset,
}
use capyclaw.Wetland.Footprint.Filter.{Paged, clauses, conditions, filter_statement-Bound}
use capyclaw.Wetland.Quota.{CostOps, QuotaDb, TenantQuota, UsageRequest}
use capyclaw.Wetland.Billing.{BillingDb, ModelUsage}
use capyclaw.Wetland.Exporter.{Siem, Exporter}
use capyclaw.Wetland.Exporter.Cursor.{Above, NoRepeat, journal, run_ticks-NoRepeat}

abbrev digit : ℕ → String
digit n = if nat_eq n 1 then "1" else if nat_eq n 2 then "2" else "3"

abbrev acme : TenantRow
acme = record {
  id = "t";
  name = "Acme";
  slug = "acme";
  plan = "free";
  status = "active";
  quota = [];
  suspended_reason = none;
}

abbrev tenants : TenantDb ℕ
tenants = record {
  query_row = λ query args w. (ok acme, w + 1);
  query = λ query args w. (ok (ok acme ∷ []), w + 1);
  number_text = digit;
}

abbrev renamed : TenantUpdate
renamed = record { name = some "Acme 2"; plan = none; status = some "active"; quota = none }

abbrev event : ℕ → AuditEvent
event n = record {
  id = n;
  tenant_id = "t";
  actor_id = none;
  actor_type = "user";
  action = "agents.create";
  resource_type = "";
  resource_id = none;
  details = [];
  ip_address = "";
  user_agent = "";
  request_id = "";
}

-- the log grows by an event with each query
abbrev audits : AuditDb ℕ
audits = record {
  insert_event = λ e w. (ok tt, w + 1);
  query = λ query args w. (ok (ok (event (w + 1)) ∷ ok (event w) ∷ []), w + 1);
  number_text = digit;
}

abbrev by_action : AuditFilter
by_action = record {
  tenant_id = some "t";
  actor_id = none;
  action = "agents.create";
  resource_type = "";
  since = none;
  until = none;
  limit = 1000;
  offset = 0;
}

filter_statement-Bound_example :
    Bound digit select_events
      (clauses 1 (
        conditions by_action (
          (" ORDER BY id DESC LIMIT $", Arg.int (effective_limit 1000))
          ∷ (" OFFSET $", Arg.int (effective_offset 0))
          ∷ [])))
      (filter_statement audits by_action)
    × Paged 1000 0 (effective_limit 1000) (effective_offset 0)
filter_statement-Bound_example = filter_statement-Bound audits by_action (omega arith) (omega arith)

abbrev cents : CostOps
cents = record {
  of_int = λ n. n;
  add = λ x y. x + y;
  div = λ x y. x;
  lt = ltb;
  le = leb;
  eight_tenths = 1;
}

abbrev thousand_tokens : TenantQuota
thousand_tokens = record {
  max_agents = 1;
  max_sessions_per_agent = 1;
  monthly_token_budget = 1000;
  monthly_cost_limit_usd = 50;
  alert_threshold = 0;
}

abbrev quotas : QuotaDb ℕ
quotas = record {
  quota_json = λ t w. (ok [], w + 1);
  parse = λ json. ok thousand_tokens;
  month_usage = λ t w. (ok (900, 20), w + 1);
  month_tokens = λ t w. (ok 900, w + 1);
  add_usage = λ t model i o c w. (ok tt, w + 1);
}

abbrev request : UsageRequest
request = record { tokens_used = 100; cost_usd = 10 }

abbrev usages : List ModelUsage
usages =
    record { model = "a"; session_count = 1; input_tokens = 5; output_tokens = 6; cost_usd = 7 }
    ∷ record { model = "b"; session_count = 2; input_tokens = 8; output_tokens = 9; cost_usd = 10 }
    ∷ []

abbrev bills : BillingDb ℕ
bills = record {
  usage_rows = λ t s e w. (ok (map ok usages), w + 1);
  details_json = λ p m i o c. [];
}

abbrev siem : Siem ℕ (List ℕ)
siem = record {
  marshal = λ events. ok [];
  new_request = λ endpoint. ok tt;
  post = λ endpoint body w. (ok 200, w);
  number_text = digit;
}

abbrev exporter : Exporter
exporter = record { endpoint = "https://siem"; enabled = true; last_id = 0 }

run_ticks-NoRepeat_example :
    All (Above 0) (journal audits siem 3 exporter 1) × NoRepeat (journal audits siem 3 exporter 1)
run_ticks-NoRepeat_example = run_ticks-NoRepeat audits siem 3 exporter 1
