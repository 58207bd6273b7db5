-- ===== src/Providers/OpenAi/Pairs.antt =====
-- What the tool loop of internal/burrow/pipeline.go adds to the messages, as an API of OpenAI's
-- protocol gets it: each message with calls is followed by one result for each of them.
use mathlib.Core.Path.{subst}
use mathlib.Core.List.{append_assoc, append-nil, map-append}
use capyclaw.Prelude.{ℕ, suc, String, ◌≡◌, ◌≢◌, refl, sym, ap, ◌∙◌, List, [], ◌∷◌, ◌++◌, map}
use capyclaw.Action.{ok}
use capyclaw.Llm
use capyclaw.Burrow.Types.{Message, ToolResult, PipelineRequest}
use capyclaw.Burrow.Deps.{PipelineDeps, State}
use capyclaw.Burrow.Stages.Stream.{to_llm_message, to_llm_call, to_llm_result}
use capyclaw.Burrow.Stages.ToolExecutor.{tool_message, execute_tools}
use capyclaw.Burrow.Stages.ToolExecutor.Rounds.{Rounds, Answers, execute_tools-Rounds}
use capyclaw.Providers.Pairs.{SameIds, ap2, map-ne-nil, Answers-ne-nil, llm_ids-eq}
use capyclaw.Providers.OpenAi.{
  WireMessage, unless_empty, with_results, with_calls, to_wire, convert,
}

-- one message with calls, and one with a result for each call
abbrev pub pair_messages : String → List Llm.ToolCall → List Llm.ToolResult → List WireMessage
pair_messages content tcs rs =
    WireMessage.calls (unless_empty content) tcs ∷ map WireMessage.result rs

pub data WirePairs : ℕ → List WireMessage → List WireMessage → Type 0 where
  no_pair : {n : ℕ} {ws : List WireMessage} → WirePairs n ws ws
  pair :
      {n : ℕ} {ws ws' : List WireMessage} (content : String) (tcs : List Llm.ToolCall)
      (rs : List Llm.ToolResult)
      → SameIds tcs rs
      → WirePairs n (ws ++ pair_messages content tcs rs) ws'
      → WirePairs (suc n) ws ws'

with_calls-some :
    (m : Llm.Message) (tcs : List Llm.ToolCall)
    → m.role ≡ "assistant"
    → tcs ≢ []
    → with_calls m tcs ≡ WireMessage.calls (unless_empty m.content) tcs ∷ []
unfolding with_calls
with_calls-some m [] e h = absurd (h refl)
with_calls-some m (tc ∷ tcs) e h = rw e refl

with_results-some :
    (m : Llm.Message) (rs : List Llm.ToolResult)
    → m.role ≡ "tool"
    → rs ≢ []
    → with_results m rs ≡ map WireMessage.result rs
unfolding with_results
with_results-some m [] e h = absurd (h refl)
with_results-some m (r ∷ rs) e h = rw e refl

convert-append : (ms ns : List Llm.Message) → convert (ms ++ ns) ≡ convert ms ++ convert ns
unfolding convert
convert-append [] ns = refl
convert-append (m ∷ ms) ns =
    ap (λ ws. to_wire m ++ ws) (convert-append ms ns) ∙ sym (append_assoc (to_wire m) _ _)

convert-pair :
    (asked : Message) (results : List ToolResult)
    → asked.role ≡ "assistant"
    → asked.tool_calls ≢ []
    → Answers asked.tool_calls results
    → convert (to_llm_message asked ∷ to_llm_message (tool_message results) ∷ [])
      ≡ pair_messages asked.content (map to_llm_call asked.tool_calls) (map to_llm_result results)
unfolding convert to_llm_message to_wire with_calls
convert-pair asked results role some_call answers =
    ap2 (λ xs ys. xs ++ (ys ++ []))
      (with_calls-some (to_llm_message asked) (map to_llm_call asked.tool_calls) role
        (map-ne-nil to_llm_call asked.tool_calls some_call))
      (with_results-some (to_llm_message (tool_message results)) (map to_llm_result results) refl (
        map-ne-nil to_llm_result results
          (Answers-ne-nil asked.tool_calls results some_call answers)))
    ∙ ap
        (λ ws.
          WireMessage.calls (unless_empty asked.content) (map to_llm_call asked.tool_calls) ∷ ws)
        (append-nil _)

-- the messages as the body of a request gets them
abbrev pub wire_messages : List Message → List WireMessage
wire_messages ms = convert (map to_llm_message ms)

Rounds-WirePairs :
    (n : ℕ) (ms ms' : List Message)
    → Rounds n ms ms'
    → WirePairs n (wire_messages ms) (wire_messages ms')
Rounds-WirePairs n ms ms' Rounds.no_round = no_pair
Rounds-WirePairs (suc n) ms ms' (Rounds.round asked results role some_call answers rest) =
    pair asked.content (map to_llm_call asked.tool_calls) (map to_llm_result results)
      (llm_ids-eq asked.tool_calls results answers)
      (subst (λ ws. WirePairs n ws (wire_messages ms'))
        (ap convert (
            ap (map to_llm_message) (append_assoc ms (asked ∷ []) (tool_message results ∷ []))
            ∙ map-append to_llm_message ms (asked ∷ tool_message results ∷ []))
          ∙ convert-append (map to_llm_message ms) _
          ∙ ap (λ ws. wire_messages ms ++ ws) (convert-pair asked results role some_call answers))
        (Rounds-WirePairs n ((ms ++ asked ∷ []) ++ tool_message results ∷ []) ms' rest))

-- After a tool stage that succeeded, the messages of a request to an API of OpenAI's protocol are
-- those from before it and at most `max_iter` groups: a message with the text and the calls of one
-- round, and one "tool" message for each of these calls, in their order and under their ids.
pub execute_tools-groups :
    {W : Type 0} (d : PipelineDeps W) (max_iter : ℕ) (req req' : PipelineRequest) (s : State W)
    → (execute_tools d max_iter req s).0 ≡ ok req'
    → WirePairs max_iter (wire_messages req.messages) (wire_messages req'.messages)
execute_tools-groups d max_iter req req' s done =
    Rounds-WirePairs max_iter req.messages req'.messages
      (execute_tools-Rounds d max_iter req req' s done)
