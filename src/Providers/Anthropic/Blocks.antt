-- ===== src/Providers/Anthropic/Blocks.antt =====
-- The content blocks of an answer of the Anthropic API, as its events, give one chunk for each piece
-- of text and one for each tool call.
use mathlib.Core.List.{append_assoc}
use Prim.Native.String.{◌++◌ as append}
use text.Mathlib.TextLemmas.{append_assoc as str_assoc, append-nil, nil-append}
use capyclaw.Prelude.{
  String, String_eq, ◌==◌, ◌≡◌, ◌≢◌, refl, sym, ap, ◌∙◌, Bool-cases, inl, inr, none, some, List, [],
  ◌∷◌, ◌++◌, map, All, concat,
}
use capyclaw.Llm.{Chunk, ChunkType}
use capyclaw.Providers.Anthropic.Body.{Json, BlockStart, BlockDelta}
use capyclaw.Providers.Anthropic.Events.{
  Event, Current, no_tool, tool_chunk, parse_event, on_block_start, on_block_delta, on_block_stop,
  read_events,
}

-- a text or a tool call, in the pieces in which it is sent
pub data Sent : Type 0 where
  words : List String → Sent
  call : (id name : String) (parts : List String) → Sent

-- the API's side of `encoding/json`: what the code decodes is what was encoded
pub record Printer (json : Json) : Type 0 where
  pub print_start : BlockStart → String
  pub print_delta : BlockDelta → String
  pub start_lem : (b : BlockStart) → json.decode_block_start (print_start b) ≡ some b
  pub delta_lem : (d : BlockDelta) → json.decode_block_delta (print_delta d) ≡ some d

abbrev pub text_chunk : String → Chunk
text_chunk t = record {
  kind = ChunkType.text;
  content = t;
  tool_call = none;
  usage = none;
  finish_reason = "";
}

abbrev pub call_chunk : String → String → List String → Chunk
call_chunk id name parts = record {
  kind = ChunkType.tool_call;
  content = "";
  tool_call = some (record { id = id; name = name; input = concat parts });
  usage = none;
  finish_reason = "";
}

unfoldable pub chunks_of : List Sent → List Chunk
chunks_of [] = []
chunks_of (words ts ∷ bs) = map text_chunk ts ++ chunks_of bs
chunks_of (call id name parts ∷ bs) = call_chunk id name parts ∷ chunks_of bs

-- a call has an id
abbrev pub HasId : Sent → Type 0
HasId (words ts) = Unit
HasId (call id name parts) = id ≢ ""

module _ (json : Json) (p : Printer json) where
  abbrev pub start_event : String → String → String → Event
  start_event kind id name = record {
    name = "content_block_start";
    payload = p.print_start (record { kind = kind; id = id; name = name });
  }

  abbrev pub text_delta : String → Event
  text_delta t = record {
    name = "content_block_delta";
    payload = p.print_delta (record { kind = "text_delta"; text = t; partial_json = "" });
  }

  abbrev pub json_delta : String → Event
  json_delta t = record {
    name = "content_block_delta";
    payload = p.print_delta (record { kind = "input_json_delta"; text = ""; partial_json = t });
  }

  abbrev pub stop_event : Event
  stop_event = record { name = "content_block_stop"; payload = "" }

  -- the events of the blocks, with what follows
  unfoldable pub events_of : List Sent → List Event → List Event
  events_of [] rest = rest
  events_of (words ts ∷ bs) rest =
      start_event "text" "" "" ∷ (map text_delta ts ++ stop_event ∷ events_of bs rest)
  events_of (call id name parts ∷ bs) rest =
      start_event "tool_use" id name ∷ (map json_delta parts ++ stop_event ∷ events_of bs rest)

  text_deltas :
      (ts : List String) (es : List Event) (v : Current)
      → read_events json (map text_delta ts ++ es) v ≡ map text_chunk ts ++ read_events json es v
  unfolding read_events parse_event on_block_delta
  text_deltas [] es v = refl
  text_deltas (t ∷ ts) es v =
      rw (p.delta_lem (record { kind = "text_delta"; text = t; partial_json = "" }))
        (ap (λ cs. text_chunk t ∷ cs) (text_deltas ts es v))

  json_deltas :
      (ps : List String) (es : List Event) (v : Current)
      → read_events json (map json_delta ps ++ es) v
        ≡ read_events json es (record v { tool_input = append v.tool_input (concat ps) })
  unfolding read_events parse_event on_block_delta concat
  json_deltas [] es v =
      ap (λ t. read_events json es (record v { tool_input = t })) (sym (append-nil v.tool_input))
  json_deltas (t ∷ ps) es v =
      rw (p.delta_lem (record { kind = "input_json_delta"; text = ""; partial_json = t })) (
        json_deltas ps es (record v { tool_input = append v.tool_input t })
        ∙ ap (λ x. read_events json es (record v { tool_input = x }))
            (str_assoc v.tool_input t (concat ps)))

  stop-read :
      (id name parts : String) (es : List Event)
      → id ≢ ""
      → read_events json
          (stop_event ∷ es)
          (record { tool_id = id; tool_name = name; tool_input = parts })
        ≡ tool_chunk (record { tool_id = id; tool_name = name; tool_input = parts })
          ∷ read_events json es no_tool
  unfolding read_events parse_event on_block_stop
  stop-read id name parts es h = elim (Bool-cases (id == "")) [
    | inl empty ↦ absurd (h ((String_eq.same_iff id "").0 empty))
    | inr other ↦ rw other
  ]

  start-read :
      (kind id name : String) (es : List Event) (v : Current)
      → read_events json (start_event kind id name ∷ es) v
        ≡ read_events json es
            (on_block_start (some (record { kind = kind; id = id; name = name })) v)
  unfolding read_events parse_event
  start-read kind id name es v = rw (p.start_lem (record { kind = kind; id = id; name = name }))

  stop-words :
      (es : List Event) → read_events json (stop_event ∷ es) no_tool ≡ read_events json es no_tool
  unfolding read_events parse_event on_block_stop
  stop-words es = refl

  -- The events of an answer's content blocks, in which each tool call has an id, give a text chunk for
  -- each piece of text and one chunk for each tool call, with the call's id, its name and its
  -- pieces of JSON joined, all in the blocks' order; what follows is read as if from the start.
  pub read_events-blocks :
      (bs : List Sent) (rest : List Event)
      → All HasId bs
      → read_events json (events_of bs rest) no_tool ≡ chunks_of bs ++ read_events json rest no_tool
  unfolding events_of chunks_of on_block_start
  read_events-blocks [] rest h = refl
  read_events-blocks (words ts ∷ bs) rest h =
      start-read "text" "" "" _ no_tool
      ∙ text_deltas ts (stop_event ∷ events_of bs rest) no_tool
      ∙ ap (λ cs. map text_chunk ts ++ cs)
          (stop-words (events_of bs rest) ∙ read_events-blocks bs rest h.1)
      ∙ sym (append_assoc (map text_chunk ts) (chunks_of bs) _)
  read_events-blocks (call id name parts ∷ bs) rest h =
      start-read "tool_use" id name _ no_tool
      ∙ json_deltas parts (stop_event ∷ events_of bs rest) _
      ∙ ap
          (λ t.
            read_events json (stop_event ∷ events_of bs rest)
              (record { tool_id = id; tool_name = name; tool_input = t }))
          (nil-append (concat parts))
      ∙ stop-read id name (concat parts) (events_of bs rest) h.0
      ∙ ap (λ cs. call_chunk id name parts ∷ cs) (read_events-blocks bs rest h.1)
