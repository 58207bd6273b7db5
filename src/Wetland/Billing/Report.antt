-- ===== src/Wetland/Billing/Report.antt =====
-- The totals of a report.
use capyclaw.Prelude.{
  ℕ, ◌+◌, ◌%◌, ◌^◌, ◌<◌, ◌≡◌, refl, sym, ap, ◌∙◌, arith, String, List, [], ◌∷◌, ◌++◌, map, Float64,
  add_int,
}
use mathlib.Core.List.{append_assoc, append-nil}
use capyclaw.Action.{ok, within, ◌>>=◌}
use capyclaw.Wetland.Quota.{CostOps, QuotaDb}
use capyclaw.Wetland.Billing.{
  ModelUsage, UsageTotals, UsageReport, BillingDb, add_model, add_rows, empty_report,
  generate_usage_report,
}

-- a sum of natural numbers over the rows
abbrev pub sum_of : (ModelUsage → ℕ) → List ModelUsage → ℕ
sum_of f [] = 0
sum_of f (mu ∷ mus) = f mu + sum_of f mus

-- the costs added one after the other
abbrev pub cost_from : CostOps → Float64 → List ModelUsage → Float64
cost_from float c [] = c
cost_from float c (mu ∷ mus) = cost_from float (float.add c mu.cost_usd) mus

sum_step : (a x s : ℕ) → (add_int a x + s) % 2 ^ 64 ≡ (a + (x + s)) % 2 ^ 64
sum_step a x s = omega arith

no_wrap : (a : ℕ) → a < 2 ^ 64 → a ≡ (a + 0) % 2 ^ 64
no_wrap a h = omega (arith, h)

module _ {W : Type 0} (float : CostOps) (quotas : QuotaDb W) (billing : BillingDb W) where
  -- the report's totals are the sums over the rows on top of `t`, in 64 bits
  pub record Totalled (mus : List ModelUsage) (t : UsageTotals) (report : UsageReport)
      : Type 0 where
    pub sessions :
        report.totals.session_count
        ≡ (t.session_count + sum_of (λ mu. mu.session_count) mus) % 2 ^ 64
    pub inputs :
        report.totals.input_tokens ≡ (t.input_tokens + sum_of (λ mu. mu.input_tokens) mus) % 2 ^ 64
    pub outputs :
        report.totals.output_tokens
        ≡ (t.output_tokens + sum_of (λ mu. mu.output_tokens) mus) % 2 ^ 64
    pub costs : report.totals.cost_usd ≡ cost_from float t.cost_usd mus

  abbrev Small : UsageTotals → Type 0
  Small t = (t.session_count < 2 ^ 64) × (t.input_tokens < 2 ^ 64) × (t.output_tokens < 2 ^ 64)

  add_rows-Totalled :
      (mus : List ModelUsage) (report : UsageReport)
      → Small report.totals
      → (final : UsageReport) × (add_rows float quotas billing (map ok mus) report ≡ ok final)
        × (final.models ≡ report.models ++ mus)
        × Totalled mus report.totals final
  unfolding add_rows add_model
  add_rows-Totalled [] report (a, b, c) = (
    report,
    refl,
    sym (append-nil report.models),
    record {
      sessions = no_wrap report.totals.session_count a;
      inputs = no_wrap report.totals.input_tokens b;
      outputs = no_wrap report.totals.output_tokens c;
      costs = refl;
    },
  )
  add_rows-Totalled (mu ∷ mus) report small =
      let next = add_model float quotas billing mu report in
      let (final, returned, models, t) =
        add_rows-Totalled mus next (omega arith, omega arith, omega arith) in
      (
        final,
        returned,
        models ∙ append_assoc report.models (mu ∷ []) mus,
        record {
          sessions = t.sessions ∙ sum_step report.totals.session_count mu.session_count _;
          inputs = t.inputs ∙ sum_step report.totals.input_tokens mu.input_tokens _;
          outputs = t.outputs ∙ sum_step report.totals.output_tokens mu.output_tokens _;
          costs = t.costs;
        },
      )

  -- If the query of a report answers, and each of its rows can be scanned, the report has the rows in
  -- their order, the totals of sessions and tokens are the sums over the rows in 64 bits, and the total
  -- cost is the costs added one after the other.
  pub generate_usage_report-Totalled :
      (tenant_id : String) (start_date end_date : ℕ) (mus : List ModelUsage) (w w' : W)
      → billing.usage_rows tenant_id start_date end_date w ≡ (ok (map ok mus), w')
      → (report : UsageReport) × (generate_usage_report float quotas billing tenant_id start_date
            end_date w
          ≡ (ok report, w'))
        × (report.models ≡ mus)
        × Totalled mus
            (empty_report float quotas billing tenant_id start_date end_date).totals
            report
  unfolding generate_usage_report within ◌>>=◌
  generate_usage_report-Totalled tenant_id start_date end_date mus w w' h =
      let (report, returned, models, t) =
        add_rows-Totalled mus (empty_report float quotas billing tenant_id start_date end_date)
          (omega arith, omega arith, omega arith) in
      (report, rw h (ap (λ r. (r, w')) returned), models, t)
