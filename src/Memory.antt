-- ===== src/Memory.antt =====
-- The agents' memories in internal/pond/memory.
pub mod Consolidator
pub mod Entries
pub mod Episodic
pub mod Semantic
pub mod Procedural
pub mod Manager
pub mod Extractor
