-- ===== src/Providers/Ollama.antt =====
-- internal/burrow/llm/providers/ollama.go: OllamaClient.
use Prim.Native.String.{◌++◌ as append}
use capyclaw.Prelude.{
  ℕ, zero, suc, nat_eq, ltb, String, String_eq, ◌==◌, Bool, Option, none, some, List, [], ◌∷◌, ◌++◌,
  map, length, if◌then◌else◌, Int64, int_lt, Float64, FloatOps,
}
use capyclaw.Action.{Result, Action, pure, within, ◌>>=◌}
use capyclaw.Llm
use capyclaw.Llm.{Chunk, ChunkType}
use capyclaw.Llm.Sse.{Bytes, read_line, carriage_return}
use capyclaw.Llm.Accumulator.{plain_chunk}
use capyclaw.Providers.Http.{Http, post, estimate, if_positive}

pub record OllamaMessage : Type 0 where
  pub role : String
  pub content : String

-- the parameters are those of an object
pub record OllamaFunction : Type 0 where
  pub name : String
  pub description : String
  pub properties : String

-- a `num_predict` of 0 is left out of the body
pub record OllamaRequest : Type 0 where
  pub model : String
  pub messages : List OllamaMessage
  pub num_predict : Int64
  pub temperature : Option Float64
  pub tools : List OllamaFunction

-- the arguments are the text of their JSON value
pub record OllamaCall : Type 0 where
  pub name : String
  pub arguments : String

pub record OllamaStreamChunk : Type 0 where
  pub content : String
  pub tool_calls : List OllamaCall
  pub is_done : Bool
  pub prompt_eval_count : Int64
  pub eval_count : Int64

unfoldable pub make_request : FloatOps → Llm.Request → OllamaRequest
make_request float req = record {
  model = req.model;
  messages = map (λ m. record { role = m.role; content = m.content }) req.messages;
  num_predict = if int_lt 0 req.max_tokens then req.max_tokens else 0;
  temperature = if_positive float req.temperature;
  tools =
      map (λ t. record { name = t.name; description = t.description; properties = t.parameters })
        req.tools;
}

-- the largest token of the `bufio.Scanner`
abbrev pub max_line : ℕ
max_line = 1048576

-- a line without the carriage return at its end
unfoldable pub drop_return : Bytes → Bytes
drop_return [] = []
drop_return (b ∷ []) = if nat_eq b carriage_return then [] else b ∷ []
drop_return (b ∷ c ∷ bs) = b ∷ drop_return (c ∷ bs)

abbrev pub last_line : Bytes → List Bytes
last_line [] = []
last_line (b ∷ bs) = if ltb (length (b ∷ bs)) max_line then drop_return (b ∷ bs) ∷ [] else []

-- `Scanner.Scan` with `Bytes`, until the context is done after `rounds` lines: the lines, the last
-- one also without a newline; a line that is too long ends them
unfoldable pub scan : ℕ → Bytes → List Bytes
scan zero input = []
scan (suc rounds) input = elim (read_line input) [
  | none ↦ last_line input
  | some (line, rest) ↦
      let more = scan rounds rest in
      if ltb (length line) max_line then drop_return line ∷ more else []
]

abbrev pub text_chunks : String → List Chunk
text_chunks t = if t == "" then [] else record plain_chunk { content = t } ∷ []

abbrev pub call_chunk : OllamaCall → Chunk
call_chunk c = record plain_chunk {
  kind = ChunkType.tool_call;
  tool_call = some (record { id = c.name; name = c.name; input = c.arguments });
}

abbrev pub end_chunks : OllamaStreamChunk → List Chunk
end_chunks c =
    record plain_chunk {
      kind = ChunkType.usage;
      usage = some (record {
        input_tokens = c.prompt_eval_count;
        output_tokens = c.eval_count;
        cost_usd = 0;
      });
    }
    ∷ record plain_chunk { kind = ChunkType.done }
    ∷ []

-- the chunks of one line, and then the rest unless the line is the last one
unfoldable pub line_chunks : Option OllamaStreamChunk → List Chunk → List Chunk
line_chunks none rest = rest
line_chunks (some c) rest =
    text_chunks c.content
    ++ (map call_chunk c.tool_calls ++ (if c.is_done then end_chunks c else rest))

-- the loop over the lines; an empty line does not decode either
unfoldable pub read_lines : (Bytes → Option OllamaStreamChunk) → List Bytes → List Chunk
read_lines decode [] = []
read_lines decode ([] ∷ lines) = read_lines decode lines
read_lines decode ((b ∷ line) ∷ lines) = line_chunks (decode (b ∷ line)) (read_lines decode lines)

module _ {W : Type 0} (http : Http W) (encode : OllamaRequest → Result String)
    (decode : Bytes → Option OllamaStreamChunk) (float : FloatOps) (base_url : String) where
  -- `Stream`
  unfoldable pub stream : Llm.Request → Action W (List Chunk)
  stream req = do
    body ← within "marshaling request: " (λ w. (encode (make_request float req), w))
    resp ← post http "ollama" (record {
      url = append base_url "/api/chat";
      headers = ("Content-Type", "application/json") ∷ [];
      body = body;
    })
    pure (read_lines decode (scan resp.rounds resp.body))

  -- `OllamaClient`
  unfoldable pub as_client : (String → ℕ) → Llm.Client W
  as_client len = record {
    stream = stream;
    count_tokens = λ ms. pure (estimate len ms 0);
    provider = "ollama";
  }
