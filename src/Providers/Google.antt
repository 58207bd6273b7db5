-- ===== src/Providers/Google.antt =====
-- internal/burrow/llm/providers/google.go: GoogleClient.
use capyclaw.Prelude.{
  ℕ, nat_eq, String, String_eq, ◌==◌, true, false, Option, none, some, List, [], ◌∷◌, ◌++◌, map,
  concat, if◌then◌else◌, Int64, int_lt, Float64, FloatOps,
}
use capyclaw.Action.{Result, Action, pure, within, ◌>>=◌}
use capyclaw.Llm
use capyclaw.Llm.{Chunk, ChunkType}
use capyclaw.Llm.Sse.{SseEvent, no_event, parse}
use capyclaw.Llm.Accumulator.{plain_chunk}
use capyclaw.Providers.Http.{Http, HttpResponse, post, post_any, estimate, if_positive}

-- the arguments are the text of their JSON value
pub record GeminiFunctionCall : Type 0 where
  pub name : String
  pub args : String

pub record GeminiPart : Type 0 where
  pub text : String
  pub function_call : Option GeminiFunctionCall

pub record GeminiContent : Type 0 where
  pub role : String
  pub parts : List GeminiPart

-- the parameters are those of an object
pub record GeminiFunctionDecl : Type 0 where
  pub name : String
  pub description : String
  pub properties : String

pub record GeminiRequest : Type 0 where
  pub contents : List GeminiContent
  pub system_instruction : Option GeminiContent
  pub max_output_tokens : Int64
  pub temperature : Option Float64
  pub tools : List GeminiFunctionDecl

pub record GeminiCandidate : Type 0 where
  pub content : GeminiContent
  pub finish_reason : String

pub record GeminiUsageMetadata : Type 0 where
  pub prompt_token_count : Int64
  pub candidates_token_count : Int64

pub record GeminiStreamResponse : Type 0 where
  pub candidates : List GeminiCandidate
  pub usage_metadata : Option GeminiUsageMetadata

-- `encoding/json` on these types
pub record Json : Type 0 where
  pub encode : GeminiRequest → Result String
  pub encode_contents : List GeminiContent → Result String
  pub decode : String → Option GeminiStreamResponse
  pub decode_total : String → Result Int64

abbrev pub text_content : String → String → GeminiContent
text_content role text = record {
  role = role;
  parts = record { text = text; function_call = none } ∷ [];
}

abbrev pub model_role : String → String
model_role role = if role == "assistant" then "model" else role

-- the loop over the messages: the last system prompt, and the contents
unfoldable pub convert : String → List Llm.Message → String × List GeminiContent
convert system [] = (system, [])
convert system (m ∷ ms) =
    let is_system = m.role == "system" in
    let (last, rest) = convert (if is_system then m.content else system) ms in
    (last, if is_system then rest else text_content (model_role m.role) m.content ∷ rest)

unfoldable pub convert_tools : List Llm.Tool → List GeminiFunctionDecl
convert_tools =
    map (λ t. record { name = t.name; description = t.description; properties = t.parameters })

unfoldable pub make_request : FloatOps → Llm.Request → GeminiRequest
make_request float req =
    let (system, contents) = convert "" req.messages in
    record {
      contents = contents;
      system_instruction = if system == "" then none else some (text_content "" system);
      max_output_tokens = if int_lt 0 req.max_tokens then req.max_tokens else 4096;
      temperature = if_positive float req.temperature;
      tools = convert_tools req.tools;
    }

abbrev pub text_chunks : String → List Chunk
text_chunks t = if t == "" then [] else record plain_chunk { content = t } ∷ []

abbrev pub call_chunks : Option GeminiFunctionCall → List Chunk
call_chunks none = []
call_chunks (some f) =
    record plain_chunk {
      kind = ChunkType.tool_call;
      tool_call = some (record { id = f.name; name = f.name; input = f.args });
    }
    ∷ []

unfoldable pub part_chunks : List GeminiPart → List Chunk
part_chunks [] = []
part_chunks (p ∷ ps) = text_chunks p.text ++ (call_chunks p.function_call ++ part_chunks ps)

abbrev pub reason_chunks : String → List Chunk
reason_chunks r =
    if r == ""
    then []
    else if r == "STOP"
    then []
    else record plain_chunk { finish_reason = r } ∷ []

unfoldable pub candidate_chunks : List GeminiCandidate → List Chunk
candidate_chunks [] = []
candidate_chunks (c ∷ cs) =
    part_chunks c.content.parts ++ (reason_chunks c.finish_reason ++ candidate_chunks cs)

abbrev pub usage_chunks : Option GeminiUsageMetadata → List Chunk
usage_chunks none = []
usage_chunks (some u) =
    record plain_chunk {
      kind = ChunkType.usage;
      usage = some (record {
        input_tokens = u.prompt_token_count;
        output_tokens = u.candidates_token_count;
        cost_usd = 0;
      });
    }
    ∷ []

unfoldable pub done_chunks : List GeminiCandidate → List Chunk
done_chunks [] = []
done_chunks (c ∷ cs) =
    if c.finish_reason == "STOP"
    then record plain_chunk { kind = ChunkType.done } ∷ []
    else done_chunks cs

-- `parseGeminiEvent` on what its data decodes to
unfoldable pub event_chunks : Option GeminiStreamResponse → List Chunk
event_chunks none = []
event_chunks (some r) =
    candidate_chunks r.candidates ++ (usage_chunks r.usage_metadata ++ done_chunks r.candidates)

module _ {W : Type 0} (http : Http W) (json : Json) where
  -- the loop of the goroutine; an error ends it
  unfoldable pub read_events : List SseEvent → List Chunk
  read_events [] = []
  read_events (e ∷ es) = elim (http.from_bytes e.event == "error") [
    | true ↦ record plain_chunk { kind = ChunkType.error; content = http.from_bytes e.payload } ∷ []
    | false ↦ event_chunks (json.decode (http.from_bytes e.payload)) ++ read_events es
  ]

module _ {W : Type 0} (http : Http W) (json : Json) (float : FloatOps)
    (api_key base_url : String) where
  -- `Stream`
  unfoldable pub stream : Llm.Request → Action W (List Chunk)
  stream req = do
    body ← within "marshaling request: " (λ w. (json.encode (make_request float req), w))
    resp ← post http "gemini" (record {
      url = concat (
          base_url ∷ "/v1beta/models/" ∷ req.model ∷ ":streamGenerateContent?alt=sse&key=" ∷ api_key
          ∷ []);
      headers = ("Content-Type", "application/json") ∷ [];
      body = body;
    })
    pure (read_events http json (parse resp.rounds resp.last no_event resp.body))

  abbrev pub count_role : String → String
  count_role role =
      if role == "assistant" then "model" else if role == "system" then "user" else role

  -- any other status than 200 falls back to the estimate
  unfoldable pub counted : (String → ℕ) → List Llm.Message → HttpResponse → Action W Int64
  counted len ms resp =
      if nat_eq resp.status 200
      then within "decoding count response: "
          (λ w. (json.decode_total (http.from_bytes resp.body), w))
      else pure (estimate len ms 0)

  -- `CountTokens`
  unfoldable pub count_tokens : (String → ℕ) → List Llm.Message → Action W Int64
  count_tokens len ms = do
    body ←
        within "marshaling count request: " (λ w.
          (json.encode_contents (map (λ m. text_content (count_role m.role) m.content) ms), w))
    resp ← post_any http "creating count request: " "executing count request: " (record {
      url = concat (base_url ∷ "/v1beta/models/gemini-2.0-flash:countTokens?key=" ∷ api_key ∷ []);
      headers = ("Content-Type", "application/json") ∷ [];
      body = body;
    })
    counted len ms resp

  -- `GoogleClient`
  unfoldable pub as_client : (String → ℕ) → Llm.Client W
  as_client len = record { stream = stream; count_tokens = count_tokens len; provider = "google" }
