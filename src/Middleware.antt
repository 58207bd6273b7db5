-- ===== src/Middleware.antt =====
-- The middleware of the HTTP server in internal/riverbank/middleware.
pub mod Http
pub mod RateLimit
pub mod Keys
pub mod Auth
pub mod Headers
pub mod Audit
pub mod Chain
