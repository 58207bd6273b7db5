-- ===== src/Herd.antt =====
-- internal/burrow/herd: agents that work for an agent.
pub mod Manager
pub mod Router
pub mod Workflow
