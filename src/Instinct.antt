-- ===== src/Instinct.antt =====
-- internal/burrow/instinct: the system prompt, the context window, and compaction.
pub mod Builder
pub mod Context
pub mod Compaction
