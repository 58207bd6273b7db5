-- ===== src/Burrow.antt =====
-- internal/burrow: the agent runtime.
pub mod Types
pub mod Deps
pub mod Sends
pub mod Session
pub mod Stages
pub mod Pipeline
