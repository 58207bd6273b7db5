-- ===== src/Providers/Anthropic.antt =====
-- AnthropicClient of internal/burrow/llm/providers/anthropic.go.
pub mod Body
pub mod Events
pub mod Blocks
pub mod Pairs
use capyclaw.Prelude.{
  ℕ, String, String_eq, ◌==◌, ◌&&◌, Bool, true, false, Option, none, some, List, [], ◌∷◌, ◌++◌, map,
  concat, if◌then◌else◌, Int64, int_lt, Float64, FloatOps,
}
use Prim.Native.String.{◌++◌ as append}
use capyclaw.Action.{Result, ok, err, Action, pure, within, ◌>>=◌, ◌>>◌}
use capyclaw.Llm
use capyclaw.Llm.{Chunk, ChunkType}
use capyclaw.Providers.Anthropic.Body.{Json, make_body}
use capyclaw.Providers.Anthropic.Events.{Event, no_tool, read_events}
use capyclaw.Llm.Sse.{Bytes, SseEvent, no_event, parse}
use capyclaw.Llm.Accumulator.{plain_chunk}
use capyclaw.Providers.Http.{Http, HttpRequest, HttpResponse, post, estimate, if_positive}

module _ {W : Type 0} (http : Http W) (json : Json) where
  abbrev pub to_event : SseEvent → Event
  to_event e = record { name = http.from_bytes e.event; payload = http.from_bytes e.payload }

  unfoldable pub read_response : HttpResponse → List Chunk
  read_response resp =
      read_events json (map to_event (parse resp.rounds resp.last no_event resp.body)) no_tool

module _ {W : Type 0} (http : Http W) (json : Json) (float : FloatOps)
    (api_key base_url : String) where
  -- `Stream`
  unfoldable pub stream : Llm.Request → Action W (List Chunk)
  stream req = do
    body ← within "marshaling request: " (λ w. (json.encode (make_body json float req), w))
    resp ← post http "anthropic" (record {
      url = append base_url "/v1/messages";
      headers =
          ("Content-Type", "application/json")
          ∷ ("x-api-key", api_key)
          ∷ ("anthropic-version", "2023-06-01")
          ∷ [];
      body = body;
    })
    pure (read_response http json resp)

  -- `AnthropicClient`
  unfoldable pub as_client : (String → ℕ) → Llm.Client W
  as_client len = record {
    stream = stream;
    count_tokens = λ ms. pure (estimate len ms 0);
    provider = "anthropic";
  }
