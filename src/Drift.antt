-- ===== src/Drift.antt =====
-- internal/lodge/drift: scheduled jobs.
pub mod Cron
