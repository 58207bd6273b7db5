-- ===== src/Nibble.antt =====
-- internal/burrow/nibble: tools, the policy that filters them, and the executor that runs them.
pub mod Policy
pub mod Registry
pub mod Executor
pub mod FsTools
