-- ===== src/Burrow/Stages/LlmInvoker.antt =====
-- LLMInvoker.Process, estimateTokens and compactMessages
pub mod Output
pub mod Compact
use Prim.Native.String.{len}
use capyclaw.Prelude.{
  ℕ, ◌+◌, ◌-◌, ◌/◌, String, Bool, true, false, ◌&&◌, ltb, leb, Option, none, some, List, [], ◌∷◌,
  ◌++◌, map, concat, length, take, drop, Int64, add_int, if◌then◌else◌,
}
use capyclaw.Action.{Result, ok, err, panicked, Action, pure, fail, within, attempt, ◌>>=◌}
use capyclaw.Llm
use capyclaw.Llm.{Message, Client}
use capyclaw.Instinct.Context.{ContextManager, should_compact}
use capyclaw.Instinct.Compaction.{Compactor, CompactionResult, compact_async}
use capyclaw.Burrow.Types.{PipelineRequest}
use capyclaw.Burrow.Deps.{PipelineDeps, State, outside}
use capyclaw.Burrow.Stages.Stream.{Collected, collect, llm_messages, llm_request}

-- the rounded lengths are added one after the other, as the nested loops do
abbrev pub add_lengths : Int64 → List String → Int64
add_lengths total [] = total
add_lengths total (t ∷ ts) = add_lengths (add_int total (len t / 3)) ts

abbrev pub texts_of : Message → List String
texts_of m =
    m.content
    ∷ (map (λ (tc : Llm.ToolCall). tc.input) m.tool_calls
        ++ map (λ (tr : Llm.ToolResult). tr.content) m.tool_results)

pub estimate_from : Int64 → List Message → Int64
estimate_from total [] = total
estimate_from total (m ∷ ms) = estimate_from (add_lengths total (texts_of m)) ms

unfoldable pub estimate_tokens : List Message → Int64
estimate_tokens = estimate_from 0

abbrev pub summary_message : String → Message
summary_message summary = record {
  role = "user";
  content = concat ("[Previous conversation summary]\n" ∷ summary ∷ []);
  tool_calls = [];
  tool_results = [];
}

-- `messages[0]`, `messages[1 : n-4]` and `messages[n-4:]`, for n over 5; there the recent count is
-- 4, as the code's test for fewer never holds
abbrev pub recent_count : ℕ → ℕ
recent_count n = if ltb (n - 1) 4 then n - 1 else 4

unfoldable pub old_messages : List Message → List Message
old_messages messages = drop 1 (take (length messages - recent_count (length messages)) messages)

unfoldable pub recent_messages : List Message → List Message
recent_messages messages = drop (length messages - recent_count (length messages)) messages

unfoldable pub summary_text : Message → String
summary_text m = concat (m.role ∷ ": " ∷ m.content ∷ [])

-- what replaces the messages once the compactor has answered: an error keeps them
unfoldable pub rebuild : List Message → Result CompactionResult → Result (List Message)
rebuild messages (ok r) =
    ok (take 1 messages ++ summary_message r.summary ∷ recent_messages messages)
rebuild messages (err e) = ok messages
rebuild messages panicked = panicked

module _ {W : Type 0} where
  unfoldable pub compact_messages : Compactor W → List Message → Action (State W) (List Message)
  compact_messages c messages s =
      if leb (length messages) 5
      then (ok messages, s)
      else (let (r, s') = outside (compact_async c (map summary_text (old_messages messages))) s in
          (rebuild messages r, s'))

-- a positive count takes the place of the one before
abbrev pub overwrite : Int64 → Int64 → Int64
overwrite old new = new

module _ {W : Type 0} (d : PipelineDeps W) where
  pub compact_if :
      Option ContextManager → Option (Compactor W) → List Message → Action (State W) (List Message)
  compact_if (some m) (some c) messages =
      if ltb 3 (length messages) && should_compact d.float m (estimate_tokens messages)
      then compact_messages c messages
      else pure messages
  compact_if _ _ messages = pure messages

  pub invoke_client : Client W → PipelineRequest → Action (State W) PipelineRequest
  invoke_client client req = do
    messages ← compact_if d.context_mgr d.compactor (llm_messages req)
    chunks ← within "LLM stream: " (outside (client.stream (llm_request req messages)))
    v ←
        collect overwrite "LLM error: " req.has_output chunks
          (record { content = ""; tool_calls = req.tool_calls; usage = none })
    pure (record req { tool_calls = v.tool_calls; assistant_content = v.content; usage = v.usage })

  unfoldable pub invoke_llm : PipelineRequest → Action (State W) PipelineRequest
  invoke_llm req = elim d.llm_client [
    | none ↦ fail "no LLM provider configured"
    | some client ↦ invoke_client client req
  ]
