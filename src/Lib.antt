-- ===== src/Lib.antt =====
-- A model of the core of CapyClaw, a server for chat agents, with theorems about it.
--
-- The program. A message for an agent runs through a pipeline of eight stages (SessionResolver,
-- WorkspaceLoader, ModelSelector, PromptBuilder, ToolPolicyFilter, LLMInvoker, ToolExecutor,
-- SessionPersister; internal/burrow/pipeline.go). The stages fill a request record, call a
-- provider of a language model through a failover client, run the tools that the model asks for
-- in sandboxes, and send chunks on an output channel. A goroutine runs them and sends the chunk
-- that ends the stream. A client of the web socket server asks for a run by a JSON-RPC request and
-- is sent the chunks as events.
--
-- The files, and the code that each models:
--   Action           a Go function that changes a state and may fail or panic
--   Llm              internal/burrow/llm/client.go: requests, chunks, the provider interface
--   Llm/Failover     internal/burrow/llm/failover.go: FailoverClient, with its two constructors
--   Llm/Sse          internal/burrow/llm/streaming.go: SSEParser
--   Llm/Accumulator  internal/burrow/llm/streaming.go: OpenAIStreamAccumulator, ParseOpenAIChunk
--   Providers        internal/burrow/llm/providers: Anthropic, OpenAi (with volcengine.go), Google,
--                    Ollama; Http has what they use of net/http
--   Mcp              pkg/mcp/types.go; Mcp/Client is pkg/mcp/client.go, and Mcp/Manager is
--                    internal/burrow/mcp_manager.go: MCPConnectionManager
--   Mudbath          internal/burrow/mudbath/sandbox.go: tiers, SelectTier, NewSandbox
--   Nibble/Policy    internal/burrow/nibble/policy.go: EvaluatePolicy
--   Nibble/Registry  internal/burrow/nibble/registry.go: Registry
--   Nibble/Executor  internal/burrow/nibble/executor.go: Executor
--   Nibble/FsTools   internal/burrow/nibble/tools_fs.go: read, write and edit
--   Instinct         internal/burrow/instinct: the prompt's text, compaction, the context window
--   Burrow/Types     the data of internal/burrow/agent.go, session.go and pipeline.go
--   Burrow/Deps      PipelineDeps, over the calls of the repositories that the stages make
--   Burrow/Session   internal/burrow/session.go: SessionManager
--   Burrow/Stages    the eight stages, a module each; Stream holds the loop over a provider's
--                    chunks, which LLMInvoker and ToolExecutor share
--   Herd             internal/burrow/herd: Manager, MessageRouter, the three workflows
--   Ws/Hub           internal/riverbank/ws/hub.go, and the clients' channels of handler.go
--   Ws/Protocol      internal/riverbank/ws/protocol.go: the frames
--   Ws/Client        internal/riverbank/ws/handler.go: replies and events
--   Ws/Chat          internal/riverbank/ws/chat_handler.go: chat.send and chat.cancel
--   Ws/Requests      internal/riverbank/ws/chat_handler.go: the queries
--   Ws/Read          internal/riverbank/ws/handler.go: the routing of a client's messages
--   Middleware       internal/riverbank/middleware: Keys and Auth (auth.go), Headers (requestid.go,
--                    cors.go, tenant.go), Audit; Chain is their order in router.go, Http net/http
--   Middleware/RateLimit   internal/riverbank/middleware/ratelimit.go, over the commands of Redis
--   Memory           internal/pond/memory, over its SQL statements: Consolidator, Extractor, Manager, and
--                    the stores Episodic, Semantic and Procedural
--   Riverbank        internal/riverbank/handlers.go: Pairing has the handlers of the device pairing, and
--                    Errors is internal/shared/errors/errors.go
--   Drift/Cron       internal/lodge/drift/cron.go: CronManager, over the scheduler of asynq
--   Sql              the statements that TenantManager.Update and Logger.Query put together
--   Wetland          internal/wetland: Tenant, Quota, Billing (marsh), Footprint, Exporter (footprint)
--   Burrow/Pipeline  Pipeline.Execute, ExecutePrompt, Agent.ProcessMessage
-- A child module with another name than a part of the code holds proofs: Llm/Failover/Order is about
-- the order of the providers. Burrow/Sends has the rules by which a stage's chunks are known.
-- Tests holds examples.
--
-- State and effects. The outside world is a type `W`, on which the calls of providers,
-- repositories, sandboxes, MCP servers and built-in handlers act; they are fields of records
-- (Client, SessionRepository, Sandbox, Executor, Codec), and a theorem about code that uses them
-- holds for all of them, or names what it needs. The pipeline's state is the world, the shared
-- tool registry, the cache of sandboxes, and the list of the chunks sent so far. A result is a
-- value, an error with its message, or a panic.
--
-- A request to a provider is the value that the code encodes as JSON, and its answer the bytes, which
-- a client reads to the end before the chunks are handed on.
--
-- Numbers. An `int` is a pattern of 64 bits, and its sums wrap. A `float64` is its pattern, and its
-- operations are a parameter.
--
-- Loops. The tool loop runs on the count of iterations that the configuration gives, as the
-- code's does. SSEParser.Parse runs on a count of turns, after which its context is found done; each
-- turn but the last takes a byte at least, so that a count above the number of bytes is enough
-- (Llm/Sse/Cancel). All other loops are over lists.
--
-- Concurrency. The goroutine of Execute is run at the call, and its reader takes every chunk, so a
-- send never waits; the goroutine of CompactAsync is run at the call too, since the caller waits
-- for it. The goroutines of the memories (ExtractAsync, and the storing of an embedding) are run
-- at the call: they share nothing with their caller but the database. The goroutines of a workflow
-- run one after the other, in the order in which they end, which is a parameter. What happens to
-- the hub of web sockets is a step relation, in any order, and so are the calls of an MCP client
-- with its loop. The handlers of one connection's requests, which the server starts with
-- `go`, run one after the other here, so the numbers of the events of overlapping chats are not
-- modelled; how far the handler of a chat comes before a stage panics is a parameter, and so
-- is the order in which Go ranges over a map.
--
-- Left out: time stamps, durations and logging; net/http, github.com/coder/websocket,
-- github.com/hibiken/asynq, the sandboxes' processes, the built-in tools but those of files, SQL,
-- Redis, encoding/json and gobreaker, which are parameters; and the rest of pkg, of internal/wetland, of
-- internal/lodge, of internal/pond and of internal/riverbank, which the modelled code does not call,
-- or calls as parameters.
pub mod Prelude
pub mod Action
pub mod Llm
pub mod Mudbath
pub mod Nibble
pub mod Instinct
pub mod Burrow
pub mod Sql
pub mod Mcp
pub mod Wetland
pub mod Drift
pub mod Herd
pub mod Ws
pub mod Providers
pub mod Middleware
pub mod Memory
pub mod Riverbank
pub mod Tests
