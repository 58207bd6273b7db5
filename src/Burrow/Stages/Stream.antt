-- ===== src/Burrow/Stages/Stream.antt =====
-- What LLMInvoker and ToolExecutor share: the messages for the provider, and the loop over the
-- chunks of its answer. The two loops differ in how they add a usage and in the error's prefix.
pub mod Output
use Prim.Native.String.{◌++◌ as append}
use capyclaw.Prelude.{
  String, String_eq, ◌==◌, Bool, true, false, Option, none, some, List, [], ◌∷◌, ◌++◌, map, concat,
  Int64, int_lt, if◌then◌else◌,
}
use capyclaw.Action.{Action, ok, err}
use capyclaw.Llm
use capyclaw.Llm.{Chunk, ChunkType}
use capyclaw.Burrow.Types.{ToolCall, ToolResult, Message, StreamChunk, StreamType, PipelineRequest}
use capyclaw.Burrow.Deps.{State, emit}

abbrev pub to_llm_call : ToolCall → Llm.ToolCall
to_llm_call tc = record { id = tc.id; name = tc.name; input = tc.input }

abbrev pub to_llm_result : ToolResult → Llm.ToolResult
to_llm_result tr = record { tool_use_id = tr.tool_use_id; content = tr.content }

unfoldable pub to_llm_message : Message → Llm.Message
to_llm_message m = record {
  role = m.role;
  content = m.content;
  tool_calls = map to_llm_call m.tool_calls;
  tool_results = map to_llm_result m.tool_results;
}

abbrev pub system_message : String → List Llm.Message
system_message prompt =
    if prompt == ""
    then []
    else record { role = "system"; content = prompt; tool_calls = []; tool_results = [] } ∷ []

unfoldable pub llm_messages : PipelineRequest → List Llm.Message
llm_messages req = system_message req.system_prompt ++ map to_llm_message req.messages

unfoldable pub llm_request : PipelineRequest → List Llm.Message → Llm.Request
llm_request req messages = record {
  model = req.model;
  messages = messages;
  max_tokens = 0;
  temperature = 0;
  tools = req.available_tools;
  stream = true;
}

-- the variables of the loop; a usage counts what was positive
pub record Collected : Type 0 where
  pub content : String
  pub tool_calls : List ToolCall
  pub usage : Option Llm.Usage

abbrev pub no_usage : Llm.Usage
no_usage = record { input_tokens = 0; output_tokens = 0; cost_usd = 0 }

abbrev pub usage_or_zero : Option Llm.Usage → Llm.Usage
usage_or_zero none = no_usage
usage_or_zero (some u) = u

-- `put old new` is what a positive count writes: `=` or `+=`
unfoldable pub merge_usage :
    (Int64 → Int64 → Int64) → Option Llm.Usage → Option Llm.Usage → Option Llm.Usage
merge_usage put u none = u
merge_usage put u (some new) =
    let old = usage_or_zero u in
    some (record old {
      input_tokens =
          if int_lt 0 new.input_tokens
          then put old.input_tokens new.input_tokens
          else old.input_tokens;
      output_tokens =
          if int_lt 0 new.output_tokens
          then put old.output_tokens new.output_tokens
          else old.output_tokens;
    })

abbrev pub from_llm_call : Llm.ToolCall → ToolCall
from_llm_call tc = record { id = tc.id; name = tc.name; input = tc.input }

abbrev pub call_of : Option Llm.ToolCall → List ToolCall
call_of none = []
call_of (some tc) = from_llm_call tc ∷ []

-- the `switch` on the type of a chunk that is no error: the variables, and what is sent on
unfoldable pub take_chunk : ChunkType → Chunk → Collected → Collected
take_chunk ChunkType.text c v = record v { content = append v.content c.content }
take_chunk ChunkType.tool_call c v = record v { tool_calls = v.tool_calls ++ call_of c.tool_call }
take_chunk _ c v = v

abbrev pub text_chunk : String → StreamChunk
text_chunk content = record { kind = StreamType.text; content = content; error = "" }

module _ {W : Type 0} where
  unfoldable pub forward : Bool → ChunkType → Chunk → State W → State W
  forward has_output ChunkType.text c s = emit has_output (text_chunk c.content) s
  forward has_output _ c s = s

abbrev pub is_error : ChunkType → Bool
is_error ChunkType.error = true
is_error _ = false

module _ {W : Type 0} (put : Int64 → Int64 → Int64) (prefix : String) (has_output : Bool) where
  -- the loop over the chunks; an error ends it, and what was sent before stays sent
  unfoldable pub collect : List Chunk → Collected → Action (State W) Collected
  collect [] v s = (ok v, s)
  collect (c ∷ cs) v s = elim (is_error c.kind) [
    | true ↦ (err (concat (prefix ∷ c.content ∷ [])), s)
    | false ↦
        let v' = take_chunk c.kind c v in
        collect cs (record v' { usage = merge_usage put v'.usage c.usage })
          (forward has_output c.kind c s)
  ]
