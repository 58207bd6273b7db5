-- ===== src/Riverbank.antt =====
-- The HTTP handlers in internal/riverbank/handlers.go.
pub mod Errors
pub mod Pairing
