-- ===== src/Tests.antt =====
-- Runs of the model on concrete inputs: each applies a theorem where its conditions hold.
mod Files
mod Fixtures
mod Herd
mod Requests
mod Servers
mod Sockets
mod Tenants
mod Wire
mod Jobs
mod Limits
mod Memories
mod Pairings
mod Pipeline
mod Recall
mod Providers
mod Tools
