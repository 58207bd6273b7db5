-- ===== src/Providers/Anthropic/Events.antt =====
-- parseAnthropicEvent of internal/burrow/llm/providers/anthropic.go, and the loop over the events.
use capyclaw.Prelude.{
  String, String_eq, ◌==◌, Option, none, some, List, [], ◌∷◌, if◌then◌else◌, Int64, int_lt,
}
use Prim.Native.String.{◌++◌ as append}
use capyclaw.Llm
use capyclaw.Llm.{Chunk, ChunkType}
use capyclaw.Llm.Accumulator.{plain_chunk}
use capyclaw.Providers.Anthropic.Body.{Json, BlockStart, BlockDelta, MessageDelta}

-- the variables of the loop over the events
pub record Current : Type 0 where
  pub tool_id : String
  pub tool_name : String
  pub tool_input : String

abbrev pub no_tool : Current
no_tool = record { tool_id = ""; tool_name = ""; tool_input = "" }

abbrev pub tool_chunk : Current → Chunk
tool_chunk v = record plain_chunk {
  kind = ChunkType.tool_call;
  tool_call = some (record { id = v.tool_id; name = v.tool_name; input = v.tool_input });
}

abbrev pub usage_of : Int64 → Int64 → Option Llm.Usage
usage_of i o = some (record { input_tokens = i; output_tokens = o; cost_usd = 0 })

-- an event's name and data as texts
pub record Event : Type 0 where
  pub name : String
  pub payload : String

unfoldable pub on_message_start : Option Int64 → Option Chunk
on_message_start none = none
on_message_start (some n) =
    if int_lt 0 n
    then some (record plain_chunk { kind = ChunkType.usage; usage = usage_of n 0 })
    else none

unfoldable pub on_block_start : Option BlockStart → Current → Current
on_block_start none v = v
on_block_start (some b) v =
    if b.kind == "tool_use"
    then record { tool_id = b.id; tool_name = b.name; tool_input = "" }
    else v

unfoldable pub on_block_delta : Option BlockDelta → Current → Option Chunk × Current
on_block_delta none v = (none, v)
on_block_delta (some d) v =
    if d.kind == "text_delta"
    then (some (record plain_chunk { content = d.text }), v)
    else if d.kind == "input_json_delta"
    then (none, record v { tool_input = append v.tool_input d.partial_json })
    else (none, v)

unfoldable pub on_block_stop : Current → Option Chunk × Current
on_block_stop v = if v.tool_id == "" then (none, v) else (some (tool_chunk v), no_tool)

unfoldable pub on_message_delta : Option MessageDelta → Option Chunk
on_message_delta none = none
on_message_delta (some d) =
    some (record plain_chunk { finish_reason = d.stop_reason; usage = usage_of 0 d.output_tokens })

module _ (json : Json) where
  -- `parseAnthropicEvent`
  unfoldable pub parse_event : Event → Current → Option Chunk × Current
  unfolding on_message_start on_block_start on_block_delta on_block_stop on_message_delta
  parse_event e v =
      if e.name == "message_start"
      then (on_message_start (json.decode_message_start e.payload), v)
      else if e.name == "content_block_start"
      then (none, on_block_start (json.decode_block_start e.payload) v)
      else if e.name == "content_block_delta"
      then on_block_delta (json.decode_block_delta e.payload) v
      else if e.name == "content_block_stop"
      then on_block_stop v
      else if e.name == "message_delta"
      then (on_message_delta (json.decode_message_delta e.payload), v)
      else if e.name == "message_stop"
      then (some (record plain_chunk { kind = ChunkType.done }), v)
      else if e.name == "error"
      then (some (record plain_chunk { kind = ChunkType.error; content = e.payload }), v)
      else (none, v)

  abbrev pub cons_some : Option Chunk → List Chunk → List Chunk
  cons_some none cs = cs
  cons_some (some c) cs = c ∷ cs

  -- the loop of the goroutine
  unfoldable pub read_events : List Event → Current → List Chunk
  read_events [] v = []
  read_events (e ∷ es) v = let (c, v') = parse_event e v in cons_some c (read_events es v')
