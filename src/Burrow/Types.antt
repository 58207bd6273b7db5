-- ===== src/Burrow/Types.antt =====
-- The data of internal/burrow/agent.go, session.go and pipeline.go.
use capyclaw.Prelude.{ℕ, String, Bool, Option, List, Map, Int64, Float64}
use capyclaw.Llm
use capyclaw.Instinct.Builder.{SkillPrompt}

-- a uuid is compared and printed, and never looked into; 0 is `uuid.Nil`
abbrev pub Uuid : Type 0
Uuid = ℕ

abbrev pub nil_uuid : Uuid
nil_uuid = 0

pub record IncomingMessage : Type 0 where
  pub session_key : String
  pub content : String
  pub role : String
  pub user_id : String

pub record AgentConfig : Type 0 where
  pub name : String
  pub slug : String
  pub model : String
  pub fallback_models : List String
  pub system_prompt : String
  pub identity_md : String
  pub soul_md : String
  pub user_md : String
  pub tool_policy : Map String String
  pub skills : List SkillPrompt
  pub memory_context : String

-- the two time stamps are left out: no modelled code reads them
pub record Session : Type 0 where
  pub id : Uuid
  pub agent_id : Uuid
  pub tenant_id : Uuid
  pub session_key : String
  pub compaction_count : Int64
  pub total_input_tokens : Int64
  pub total_output_tokens : Int64
  pub total_cost_usd : Float64
  pub context_summary : String
  pub status : String

-- the `Type` strings that the pipeline sends; its comment also names "tool_call"
pub data StreamType : Type 0 where
  text tool_result done error : StreamType

pub record StreamChunk : Type 0 where
  pub kind : StreamType
  pub content : String
  pub error : String

pub record ToolCall : Type 0 where
  pub id : String
  pub name : String
  pub input : String

pub record ToolResult : Type 0 where
  pub tool_use_id : String
  pub content : String

pub record Message : Type 0 where
  pub role : String
  pub content : String
  pub tool_calls : List ToolCall
  pub tool_results : List ToolResult

-- `Message` is a pointer that every caller sets, and `Response` a field that no code reads or
-- writes. The output channel is in the pipeline's state; here stands whether it is there.
pub record PipelineRequest : Type 0 where
  pub agent_id : Uuid
  pub tenant_id : Uuid
  pub message : IncomingMessage
  pub agent_config : AgentConfig
  pub session : Option Session
  pub system_prompt : String
  pub messages : List Message
  pub tool_calls : List ToolCall
  pub available_tools : List Llm.Tool
  pub model : String
  pub has_output : Bool
  pub assistant_content : String
  pub usage : Option Llm.Usage
