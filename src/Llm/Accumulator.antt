-- ===== src/Llm/Accumulator.antt =====
-- internal/burrow/llm/streaming.go, OpenAIStreamAccumulator: tool calls whose parts arrive in
-- several chunks of an OpenAI-format stream.
pub mod Assembly
use Prim.Native.String.{◌++◌ as append}
use capyclaw.Prelude.{
  String, Option, none, some, List, [], ◌∷◌, ◌++◌, map, Map, lookup, insert, values, ℕ_eq,
  String_eq, ◌==◌, if◌then◌else◌, Int64,
}
use capyclaw.Action.{Result, ok, err, panicked, context}
use capyclaw.Llm.{ToolCall, Usage, Chunk, text, tool_call, usage, done}

pub record OpenAiToolCallDelta : Type 0 where
  pub index : Int64
  pub id : String
  pub call_type : String
  pub name : String
  pub arguments : String

-- the anonymous structs that `json.Unmarshal` fills
pub record RawChoice : Type 0 where
  pub content : String
  pub tool_calls : List OpenAiToolCallDelta
  pub finish_reason : Option String

pub record RawChunk : Type 0 where
  pub choices : List RawChoice
  pub usage : Option Usage

-- index → accumulated tool call
abbrev pub Accumulator : Type 0
Accumulator = Map Int64 ToolCall

unfoldable pub new_accumulator : Accumulator
new_accumulator = []

abbrev pub plain_chunk : Chunk
plain_chunk = record {
  kind = text;
  content = "";
  tool_call = none;
  usage = none;
  finish_reason = "";
}

-- the entry that the delta goes to, and what it writes there
abbrev pub existing : OpenAiToolCallDelta → Option ToolCall → ToolCall
existing d none = record { id = d.id; name = d.name; input = "" }
existing d (some tc) = tc

unfoldable pub set_parts : OpenAiToolCallDelta → ToolCall → ToolCall
set_parts d tc = record {
  id = if d.id == "" then tc.id else d.id;
  name = if d.name == "" then tc.name else d.name;
  input = append tc.input d.arguments;
}

unfoldable pub add_delta : Accumulator → OpenAiToolCallDelta → Accumulator
unfolding set_parts
add_delta a d = insert d.index (set_parts d (existing d (lookup d.index a))) a

unfoldable pub add_deltas : Accumulator → List OpenAiToolCallDelta → Accumulator
add_deltas a [] = a
add_deltas a (d ∷ ds) = add_deltas (add_delta a d) ds

abbrev pub text_chunks : String → List Chunk
text_chunks content = if content == "" then [] else record plain_chunk { content = content } ∷ []

abbrev pub tool_call_chunk : ToolCall → Chunk
tool_call_chunk tc = record plain_chunk { kind = tool_call; tool_call = some tc }

-- `range` is the order in which Go ranges over the values of the map.
module _ (range : List ToolCall → List ToolCall) where
  unfoldable pub finish : Accumulator → Option Usage → String → List Chunk × Accumulator
  finish a use_ reason = if reason == "" then ([], a) else (
    map tool_call_chunk (range (values a))
        ++ record plain_chunk { finish_reason = reason; usage = use_ } ∷ [],
    [],
  )

  unfoldable pub on_finish : Accumulator → Option Usage → Option String → List Chunk × Accumulator
  unfolding finish
  on_finish a use_ none = ([], a)
  on_finish a use_ (some reason) = finish a use_ reason

  unfoldable pub parse_choices : Accumulator → RawChunk → List RawChoice → List Chunk × Accumulator
  parse_choices a raw [] = (
    elim raw.usage [
      | some u ↦ record plain_chunk { kind = usage; usage = some u } ∷ []
      | none ↦ []
    ],
    a,
  )
  parse_choices a raw (choice ∷ _) =
      let (chunks, a') =
        on_finish (add_deltas a choice.tool_calls) raw.usage choice.finish_reason in
      (text_chunks choice.content ++ chunks, a')

  parse_decoded : Accumulator → Result RawChunk → Result (List Chunk) × Accumulator
  unfolding parse_choices
  parse_decoded a (ok raw) = let (chunks, a') = parse_choices a raw raw.choices in (ok chunks, a')
  parse_decoded a (err e) = (context "parsing chunk: " (err e), a)
  parse_decoded a panicked = (panicked, a)

  -- `decode` is `json.Unmarshal` into the raw structs.
  unfoldable pub parse_chunk :
      (String → Result RawChunk) → String → Accumulator → Result (List Chunk) × Accumulator
  unfolding parse_decoded
  parse_chunk decode payload a =
      if payload == "[DONE]"
      then (ok (record plain_chunk { kind = done } ∷ []), a)
      else parse_decoded a (decode payload)

abbrev first_content : List RawChoice → Chunk → Chunk
first_content [] c = c
first_content (choice ∷ _) c = record c {
  content = choice.content;
  finish_reason = elim choice.finish_reason [ none ↦ "" | some r ↦ r ];
}

-- without tool calls; a missing finish_reason decodes to the empty text here
unfoldable pub parse_openai_chunk : (String → Result RawChunk) → String → Result Chunk
parse_openai_chunk decode payload =
    if payload == "[DONE]" then ok (record plain_chunk { kind = done }) else elim (decode payload) [
      | ok raw ↦ ok (first_content raw.choices (record plain_chunk { usage = raw.usage }))
      | err e ↦ context "parsing chunk: " (err e)
      | panicked ↦ panicked
    ]
