-- ===== src/Providers/OpenAi.antt =====
-- internal/burrow/llm/providers/openai.go, and volcengine.go, which speaks the same protocol. The
-- base address is the one that the constructors leave in the client.
pub mod Pairs
pub mod Truncated
use Prim.Native.String.{◌++◌ as append}
use capyclaw.Prelude.{
  ℕ, String, String_eq, ◌==◌, Bool, true, false, Option, none, some, List, [], ◌∷◌, ◌++◌, map,
  concat, if◌then◌else◌, Int64, int_lt, Float64, FloatOps,
}
use capyclaw.Action.{Result, ok, err, panicked, Action, pure, within, ◌>>=◌, ◌>>◌}
use capyclaw.Llm
use capyclaw.Llm.{Chunk, ChunkType}
use capyclaw.Llm.Sse.{Bytes, ReadError, no_event, parse, SseEvent}
use capyclaw.Llm.Accumulator.{Accumulator, RawChunk, new_accumulator, plain_chunk, parse_chunk}
use capyclaw.Providers.Http.{Http, HttpResponse, post, estimate, if_positive}

-- an assistant's message with calls, of which an empty content is left out; a tool's result; or
-- any other message
pub data WireMessage : Type 0 where
  calls : Option String → List Llm.ToolCall → WireMessage
  result : Llm.ToolResult → WireMessage
  plain : (role content : String) → WireMessage

-- the map that is encoded as the body; a key that is not set is `none`
pub record Body : Type 0 where
  pub model : String
  pub include_usage : Bool
  pub messages : List WireMessage
  pub max_tokens : Option Int64
  pub temperature : Option Float64
  pub tools : Option (List Llm.Tool)

abbrev pub unless_empty : String → Option String
unless_empty t = if t == "" then none else some t

unfoldable pub with_results : Llm.Message → List Llm.ToolResult → List WireMessage
with_results m [] = plain m.role m.content ∷ []
with_results m (r ∷ rs) =
    if m.role == "tool" then map result (r ∷ rs) else plain m.role m.content ∷ []

unfoldable pub with_calls : Llm.Message → List Llm.ToolCall → List WireMessage
unfolding with_results
with_calls m [] = with_results m m.tool_results
with_calls m (tc ∷ tcs) =
    if m.role == "assistant"
    then calls (unless_empty m.content) (tc ∷ tcs) ∷ []
    else with_results m m.tool_results

unfoldable pub to_wire : Llm.Message → List WireMessage
unfolding with_calls
to_wire m = with_calls m m.tool_calls

-- the loop over the messages
unfoldable pub convert : List Llm.Message → List WireMessage
convert [] = []
convert (m ∷ ms) = to_wire m ++ convert ms

abbrev pub some_tools : List Llm.Tool → Option (List Llm.Tool)
some_tools [] = none
some_tools (t ∷ ts) = some (t ∷ ts)

unfoldable pub make_body : FloatOps → Bool → Llm.Request → Body
make_body float include_usage req = record {
  model = req.model;
  include_usage = include_usage;
  messages = convert req.messages;
  max_tokens = if int_lt 0 req.max_tokens then some req.max_tokens else none;
  temperature = if_positive float req.temperature;
  tools = some_tools req.tools;
}

abbrev pub done_chunk : Chunk
done_chunk = record plain_chunk { kind = ChunkType.done }

-- the chunks of one event, and then the rest; an event that cannot be parsed is skipped
unfoldable pub then_rest : Result (List Chunk) → List Chunk → List Chunk
then_rest (ok chunks) rest = chunks ++ rest
then_rest (err e) rest = rest
then_rest panicked rest = []

module _ (range : List Llm.ToolCall → List Llm.ToolCall) (decode : String → Result RawChunk) where
  -- the loop of the goroutine, over the events' data
  unfoldable pub read_events : List String → Accumulator → List Chunk
  read_events [] a = []
  read_events (payload ∷ es) a = elim (payload == "[DONE]") [
    | true ↦ done_chunk ∷ []
    | false ↦ let (r, a') = parse_chunk range decode payload a in then_rest r (read_events es a')
  ]

module _ {W : Type 0} (http : Http W) (range : List Llm.ToolCall → List Llm.ToolCall)
    (decode : String → Result RawChunk) where
  abbrev pub payload_text : SseEvent → String
  payload_text e = http.from_bytes e.payload

  unfoldable pub read_response : ℕ → ReadError → Bytes → List Chunk
  read_response rounds last input =
      read_events range decode (map payload_text (parse rounds last no_event input)) new_accumulator

-- `encode` is `json.Marshal`
module _ {W : Type 0} (http : Http W) (range : List Llm.ToolCall → List Llm.ToolCall)
    (decode : String → Result RawChunk) (encode : Body → Result String) (float : FloatOps)
    (api_key base_url : String) where
  -- `Stream` of both clients
  unfoldable pub stream_from : String → String → Bool → Llm.Request → Action W (List Chunk)
  stream_from name path include_usage req = do
    body ← within "marshaling request: " (λ w. (encode (make_body float include_usage req), w))
    resp ← post http name (record {
      url = append base_url path;
      headers =
          ("Content-Type", "application/json") ∷ ("Authorization", append "Bearer " api_key) ∷ [];
      body = body;
    })
    pure (read_response http range decode resp.rounds resp.last resp.body)

  -- `OpenAIClient` and `VolcEngineClient`
  unfoldable pub openai_client : (String → ℕ) → Llm.Client W
  openai_client len = record {
    stream = stream_from "openai" "/v1/chat/completions" false;
    count_tokens = λ ms. pure (estimate len ms 0);
    provider = "openai";
  }

  unfoldable pub volcengine_client : (String → ℕ) → Llm.Client W
  volcengine_client len = record {
    stream = stream_from "volcengine" "/v3/chat/completions" true;
    count_tokens = λ ms. pure (estimate len ms 0);
    provider = "volcengine";
  }
