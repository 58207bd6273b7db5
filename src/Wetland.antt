-- ===== src/Wetland.antt =====
-- internal/wetland: tenants, their quotas and bills, and the audit log.
pub mod Tenant
pub mod Quota
pub mod Billing
pub mod Footprint
pub mod Exporter
