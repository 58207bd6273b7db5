-- ===== src/Instinct/Compaction.antt =====
-- internal/burrow/instinct/compaction.go. The goroutine sends one result on its channel, and the
-- caller waits for it, so the model runs it at the call.
use Prim.Native.String.{len, ◌++◌ as append}
use capyclaw.Prelude.{
  ℕ, ◌-◌, ◌/◌, String, true, none, some, Option, List, [], ◌∷◌, concat, join, length,
}
use capyclaw.Action.{Result, ok, err, panicked, Action}
use capyclaw.Llm.{Client, Chunk, ChunkType, Request}

pub record Compactor (W : Type 0) : Type 0 where
  pub summary_model : String
  pub llm_client : Option (Client W)

-- The fields of a result without an error; `Result` holds the `Error` field. Both lengths are
-- those of texts in memory, so their difference is cut off at 0 where the code does it.
pub record CompactionResult : Type 0 where
  pub summary : String
  pub tokens_saved : ℕ
  pub messages_compacted : ℕ

abbrev pub summary_instruction : String
summary_instruction = concat (
    "Compress the following conversation history into a concise summary. "
    ∷ "Preserve all key facts, decisions, entities, numbers, code references, and context. "
    ∷ "Use bullet points for clarity. Do not lose any critical information.\n\n" ∷ [])

unfoldable pub summary_request : String → List String → Request
summary_request model messages = record {
  model = model;
  messages =
      record {
        role = "user";
        content = concat (summary_instruction ∷ join "\n" messages ∷ []);
        tool_calls = [];
        tool_results = [];
      }
      ∷ [];
  max_tokens = 2000;
  temperature = 0;
  tools = [];
  stream = true;
}

-- the loop over the chunks: texts are joined, an error ends it
unfoldable pub collect_summary : String → List Chunk → Result String
collect_summary summary [] = ok summary
collect_summary summary (c ∷ cs) = elim c.kind [
  | ChunkType.text ↦ collect_summary (append summary c.content) cs
  | ChunkType.error ↦ err (concat ("compaction LLM error: " ∷ c.content ∷ []))
  | _ ↦ collect_summary summary cs
]

abbrev pub compaction_result : List String → Result String → Result CompactionResult
compaction_result messages (ok summary) = ok (record {
  summary = summary;
  tokens_saved = len (join "\n" messages) / 4 - len summary / 4;
  messages_compacted = length messages;
})
compaction_result messages (err e) = err e
compaction_result messages panicked = panicked

summarize : List String → Result (List Chunk) → Result CompactionResult
unfolding collect_summary
summarize messages (ok chunks) = compaction_result messages (collect_summary "" chunks)
summarize messages (err e) = err (concat ("compaction LLM call: " ∷ e ∷ []))
summarize messages panicked = panicked

module _ {W : Type 0} where
  unfoldable pub compact_async : Compactor W → List String → Action W CompactionResult
  unfolding summary_request summarize
  compact_async c messages w = elim c.llm_client [
    | none ↦ (err "no LLM client configured for compaction", w)
    | some client ↦
        let (r, w') = client.stream (summary_request c.summary_model messages) w in
        (summarize messages r, w')
  ]
