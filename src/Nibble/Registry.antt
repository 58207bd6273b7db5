-- ===== src/Nibble/Registry.antt =====
-- internal/burrow/nibble/registry.go. The registry is shared by pointer: the pipeline's state
-- holds the one value, and every part reads and writes it there.
use capyclaw.Prelude.{String, Option, List, [], Map, lookup, insert, delete, values, String_eq}

pub record ToolDef : Type 0 where
  pub name : String
  pub description : String
  pub parameters : String
  pub sandbox_tier : String
  pub source : String
  pub mcp_server_id : String
  pub mcp_tool_name : String

pub record Registry : Type 0 where
  pub tools : Map String ToolDef

unfoldable pub new_registry : Registry
new_registry = record { tools = [] }

unfoldable pub register : ToolDef → Registry → Registry
register def r = record { tools = insert def.name def r.tools }

unfoldable pub get : String → Registry → Option ToolDef
get name r = lookup name r.tools

-- `range` is the order in which Go ranges over the map
unfoldable pub list : (List ToolDef → List ToolDef) → Registry → List ToolDef
list range r = range (values r.tools)

unfoldable pub unregister : String → Registry → Registry
unregister name r = record { tools = delete name r.tools }
