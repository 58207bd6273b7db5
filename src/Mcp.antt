-- ===== src/Mcp.antt =====
-- pkg/mcp and internal/burrow/mcp_manager.go: tools of MCP servers. The types of pkg/mcp/types.go; a
-- JSON value is its text.
pub mod Client
pub mod Manager
use capyclaw.Prelude.{String, Bool, List}

pub record ToolDefinition : Type 0 where
  pub name : String
  pub description : String
  pub input_schema : String

pub record ToolCall : Type 0 where
  pub name : String
  pub arguments : String

-- `type` of a block, whose text, media type and data follow
pub record ContentBlock : Type 0 where
  pub block_type : String
  pub text : String
  pub mime_type : String
  pub data_text : String

pub record ToolResult : Type 0 where
  pub content : List ContentBlock
  pub is_error : Bool

pub record ServerInfo : Type 0 where
  pub name : String
  pub version : String
  pub instructions : String
