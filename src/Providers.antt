-- ===== src/Providers.antt =====
-- The clients of the language models in internal/burrow/llm/providers. Each converts a request to
-- the body of an HTTP request and the lines of the answer to chunks.
pub mod Http
pub mod Pairs
pub mod Anthropic
pub mod OpenAi
pub mod Ollama
pub mod Google
