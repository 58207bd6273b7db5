-- ===== src/Burrow/Stages.antt =====
-- The eight stages of internal/burrow/pipeline.go, in their order.
pub mod SessionResolver
pub mod WorkspaceLoader
pub mod ModelSelector
pub mod PromptBuilder
pub mod ToolPolicyFilter
pub mod Stream
pub mod LlmInvoker
pub mod ToolExecutor
pub mod SessionPersister
