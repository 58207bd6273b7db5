-- ===== src/Llm.antt =====
-- internal/burrow/llm/client.go: what a provider is asked and what it answers.
pub mod Failover
pub mod Sse
pub mod Accumulator
use capyclaw.Prelude.{String, Bool, Option, List, Int64, Float64}
use capyclaw.Action.{Action}

-- a tool's JSON schema is only handed on: it is the text of the schema
pub record Tool : Type 0 where
  pub name : String
  pub description : String
  pub parameters : String

pub record ToolCall : Type 0 where
  pub id : String
  pub name : String
  pub input : String

pub record ToolResult : Type 0 where
  pub tool_use_id : String
  pub content : String

pub record Message : Type 0 where
  pub role : String
  pub content : String
  pub tool_calls : List ToolCall
  pub tool_results : List ToolResult

pub record Request : Type 0 where
  pub model : String
  pub messages : List Message
  pub max_tokens : Int64
  pub temperature : Float64
  pub tools : List Tool
  pub stream : Bool

pub record Usage : Type 0 where
  pub input_tokens : Int64
  pub output_tokens : Int64
  pub cost_usd : Float64

-- The `Type` strings that the code writes or tests; `other` is any further string.
pub data ChunkType : Type 0 where
  text tool_call usage done error : ChunkType
  other : String → ChunkType

pub record Chunk : Type 0 where
  pub kind : ChunkType
  pub content : String
  pub tool_call : Option ToolCall
  pub usage : Option Usage
  pub finish_reason : String

-- The interface that the providers implement, over the outside world `W` that they talk to. A
-- stream is the chunks that its channel yields until it is closed.
pub record Client (W : Type 0) : Type 0 where
  pub stream : Request → Action W (List Chunk)
  pub count_tokens : List Message → Action W Int64
  pub provider : String
