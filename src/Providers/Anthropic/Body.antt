-- ===== src/Providers/Anthropic/Body.antt =====
-- The body of a request to the Anthropic API: the first part of `Stream` in
-- internal/burrow/llm/providers/anthropic.go, and what the file decodes.
use capyclaw.Prelude.{
  String, String_eq, ◌==◌, Bool, true, false, Option, none, some, List, [], ◌∷◌, ◌++◌, map,
  if◌then◌else◌, Int64, int_lt, Float64, FloatOps,
}
use capyclaw.Action.{Result}
use capyclaw.Llm
use capyclaw.Llm.{Chunk, ChunkType}
use capyclaw.Providers.Http.{if_positive}

-- the blocks of a message's content; a tool's input is the text of its JSON value
pub data Block : Type 0 where
  text_block : String → Block
  tool_use : Llm.ToolCall → Block
  tool_result : Llm.ToolResult → Block

pub data Content : Type 0 where
  plain : String → Content
  blocks : List Block → Content

pub record WireMessage : Type 0 where
  pub role : String
  pub content : Content

-- a schema with no entries, the entries as the properties of an object, or a schema as it is
pub data InputSchema : Type 0 where
  no_properties : InputSchema
  properties : String → InputSchema
  whole : String → InputSchema

pub record WireTool : Type 0 where
  pub name : String
  pub description : String
  pub input_schema : InputSchema

-- the map that is encoded as the body; a key that is not set is `none`
pub record Body : Type 0 where
  pub model : String
  pub max_tokens : Int64
  pub messages : List WireMessage
  pub system : Option String
  pub temperature : Option Float64
  pub tools : Option (List WireTool)

pub record BlockStart : Type 0 where
  pub kind : String
  pub id : String
  pub name : String

pub record BlockDelta : Type 0 where
  pub kind : String
  pub text : String
  pub partial_json : String

pub record MessageDelta : Type 0 where
  pub stop_reason : String
  pub output_tokens : Int64

-- `encoding/json` on these types. `has_type` is none for a nil map, and else whether there
-- is a key "type"; `normal` is a JSON text decoded and encoded again, `none` if it does not decode.
pub record Json : Type 0 where
  pub encode : Body → Result String
  pub has_type : String → Option Bool
  pub normal : String → Option String
  pub decode_message_start : String → Option Int64
  pub decode_block_start : String → Option BlockStart
  pub decode_block_delta : String → Option BlockDelta
  pub decode_message_delta : String → Option MessageDelta

module _ (json : Json) where
  abbrev pub input_of : Llm.ToolCall → Llm.ToolCall
  input_of tc = record tc { input = elim (json.normal tc.input) [ none ↦ "{}" | some v ↦ v ] }

  abbrev pub text_blocks : String → List Block
  text_blocks t = if t == "" then [] else text_block t ∷ []

  abbrev pub plain_message : Llm.Message → WireMessage
  plain_message m = record { role = m.role; content = plain m.content }

  -- a message with tool calls or with tool results becomes blocks
  unfoldable pub with_results : Llm.Message → List Llm.ToolResult → WireMessage
  with_results m [] = plain_message m
  with_results m (r ∷ rs) =
      if m.role == "tool"
      then record { role = "user"; content = blocks (map tool_result (r ∷ rs)) }
      else plain_message m

  unfoldable pub with_calls : Llm.Message → List Llm.ToolCall → WireMessage
  unfolding with_results
  with_calls m [] = with_results m m.tool_results
  with_calls m (tc ∷ tcs) =
      if m.role == "assistant"
      then record {
        role = "assistant";
        content = blocks (text_blocks m.content ++ map (λ c. tool_use (input_of c)) (tc ∷ tcs));
      }
      else with_results m m.tool_results

  unfoldable pub to_wire : Llm.Message → WireMessage
  unfolding with_calls
  to_wire m = with_calls m m.tool_calls

  -- the loop over the messages: the last system prompt, and the messages that are no system prompt
  unfoldable pub convert : String → List Llm.Message → String × List WireMessage
  convert system [] = (system, [])
  convert system (m ∷ ms) =
      let is_system = m.role == "system" in
      let (last, rest) = convert (if is_system then m.content else system) ms in
      (last, if is_system then rest else to_wire m ∷ rest)

  -- `convertToolsToAnthropic`
  unfoldable pub to_schema : String → InputSchema
  to_schema parameters = elim (json.has_type parameters) [
    | none ↦ no_properties
    | some true ↦ whole parameters
    | some false ↦ properties parameters
  ]

  unfoldable pub convert_tools : List Llm.Tool → List WireTool
  convert_tools = map (λ t. record {
    name = t.name;
    description = t.description;
    input_schema = to_schema t.parameters;
  })

  abbrev pub some_tools : List Llm.Tool → Option (List WireTool)
  some_tools [] = none
  some_tools (t ∷ ts) = some (convert_tools (t ∷ ts))

  unfoldable pub make_body : FloatOps → Llm.Request → Body
  make_body float req =
      let (system, messages) = convert "" req.messages in
      record {
        model = req.model;
        max_tokens = if int_lt 0 req.max_tokens then req.max_tokens else 4096;
        messages = messages;
        system = if system == "" then none else some system;
        temperature = if_positive float req.temperature;
        tools = some_tools req.tools;
      }
