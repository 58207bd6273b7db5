-- ===== src/Providers/Anthropic/Pairs.antt =====
-- What the tool loop of internal/burrow/pipeline.go adds to the messages, as the Anthropic API gets
-- it: each message with tool_use blocks is followed by one that answers each of them.
use mathlib.Core.Path.{subst}
use mathlib.Core.List.{append_assoc, map-append}
use capyclaw.Prelude.{
  ℕ, suc, String, String_eq, ◌==◌, ◌≡◌, ◌≢◌, refl, Bool-cases, inl, inr, ap, ◌∙◌, List, [], ◌∷◌,
  ◌++◌, map,
}
use capyclaw.Action.{ok}
use capyclaw.Llm
use capyclaw.Burrow.Types.{Message, ToolResult, PipelineRequest}
use capyclaw.Burrow.Deps.{PipelineDeps, State}
use capyclaw.Burrow.Stages.Stream.{to_llm_message, to_llm_call, to_llm_result}
use capyclaw.Burrow.Stages.ToolExecutor.{tool_message, execute_tools}
use capyclaw.Burrow.Stages.ToolExecutor.Rounds.{Rounds, Answers, execute_tools-Rounds}
use capyclaw.Providers.Pairs.{SameIds, ap2, map-ne-nil, Answers-ne-nil, llm_ids-eq}
use capyclaw.Providers.Anthropic.Body.{
  Json, Block, Content, WireMessage, input_of, text_blocks, with_results, with_calls, to_wire,
  convert,
}

-- an assistant's message with its text and the calls, and the user's message that answers them
abbrev pub calls_message : Json → String → List Llm.ToolCall → WireMessage
calls_message json content tcs = record {
  role = "assistant";
  content =
      Content.blocks
        (text_blocks json content ++ map (λ tc. Block.tool_use (input_of json tc)) tcs);
}

abbrev pub results_message : List Llm.ToolResult → WireMessage
results_message rs = record { role = "user"; content = Content.blocks (map Block.tool_result rs) }

-- at most `n` pairs of messages were added, each with one result for each call
pub data WirePairs (json : Json) : ℕ → List WireMessage → List WireMessage → Type 0 where
  no_pair : {n : ℕ} {ws : List WireMessage} → WirePairs json n ws ws
  pair :
      {n : ℕ} {ws ws' : List WireMessage} (content : String) (tcs : List Llm.ToolCall)
      (rs : List Llm.ToolResult)
      → SameIds tcs rs
      → WirePairs json n (ws ++ calls_message json content tcs ∷ results_message rs ∷ []) ws'
      → WirePairs json (suc n) ws ws'

module _ (json : Json) where
  with_calls-some :
      (m : Llm.Message) (tcs : List Llm.ToolCall)
      → m.role ≡ "assistant"
      → tcs ≢ []
      → with_calls json m tcs ≡ calls_message json m.content tcs
  unfolding with_calls
  with_calls-some m [] e h = absurd (h refl)
  with_calls-some m (tc ∷ tcs) e h = rw e refl

  with_results-some :
      (m : Llm.Message) (rs : List Llm.ToolResult)
      → m.role ≡ "tool"
      → rs ≢ []
      → with_results json m rs ≡ results_message rs
  unfolding with_results
  with_results-some m [] e h = absurd (h refl)
  with_results-some m (r ∷ rs) e h = rw e refl

  convert-pair :
      (system : String) (ms : List Llm.Message) (asked answered : Llm.Message)
      → asked.role ≡ "assistant"
      → answered.role ≡ "tool"
      → convert json system (ms ++ asked ∷ answered ∷ []) ≡ (
        (convert json system ms).0,
        (convert json system ms).1 ++ to_wire json asked ∷ to_wire json answered ∷ [],
      )
  unfolding convert
  convert-pair system [] asked answered e f = rw (e, f) refl
  convert-pair system (m ∷ ms) asked answered e f = elim (Bool-cases (m.role == "system")) [
    | inl is_system ↦ rw is_system (convert-pair m.content ms asked answered e f)
    | inr other ↦ rw other (
        ap (λ (r : String × List WireMessage). (r.0, to_wire json m ∷ r.1))
          (convert-pair system ms asked answered e f))
  ]

  to_wire-pair :
      (asked : Message) (results : List ToolResult)
      → asked.role ≡ "assistant"
      → asked.tool_calls ≢ []
      → Answers asked.tool_calls results
      → to_wire json (to_llm_message asked)
          ∷ to_wire json (to_llm_message (tool_message results))
          ∷ []
        ≡ calls_message json asked.content (map to_llm_call asked.tool_calls)
          ∷ results_message (map to_llm_result results)
          ∷ []
  unfolding to_llm_message to_wire with_calls
  to_wire-pair asked results role some_call answers =
      ap2 (λ a b. a ∷ b ∷ [])
        (with_calls-some (to_llm_message asked) (map to_llm_call asked.tool_calls) role
          (map-ne-nil to_llm_call asked.tool_calls some_call))
        (with_results-some (to_llm_message (tool_message results)) (map to_llm_result results) refl
          (map-ne-nil to_llm_result results
            (Answers-ne-nil asked.tool_calls results some_call answers)))

  -- the messages as the body of a request gets them
  abbrev pub wire_messages : String → List Message → List WireMessage
  wire_messages system ms = (convert json system (map to_llm_message ms)).1

  Rounds-WirePairs :
      (system : String) (n : ℕ) (ms ms' : List Message)
      → Rounds n ms ms'
      → WirePairs json n (wire_messages system ms) (wire_messages system ms')
  Rounds-WirePairs system n ms ms' Rounds.no_round = no_pair
  Rounds-WirePairs system (suc n) ms ms' (Rounds.round asked results role some_call answers rest) =
      pair asked.content (map to_llm_call asked.tool_calls) (map to_llm_result results)
        (llm_ids-eq asked.tool_calls results answers)
        (subst (λ ws. WirePairs json n ws (wire_messages system ms'))
          (ap (λ (r : String × List WireMessage). r.1)
              (ap (convert json system) (
                  ap (map to_llm_message) (append_assoc ms (asked ∷ []) (tool_message results ∷ []))
                  ∙ map-append to_llm_message ms (asked ∷ tool_message results ∷ []))
                ∙ convert-pair system (map to_llm_message ms) (to_llm_message asked)
                    (to_llm_message (tool_message results)) (unfold to_llm_message in role)
                    (unfold to_llm_message in refl))
            ∙ ap (λ ws. wire_messages system ms ++ ws)
                (to_wire-pair asked results role some_call answers))
          (Rounds-WirePairs system n ((ms ++ asked ∷ []) ++ tool_message results ∷ []) ms' rest))

  -- After a tool stage that succeeded, the messages of a request to the Anthropic API are those from
  -- before it and at most `max_iter` pairs: an assistant's message with the text and the tool_use
  -- blocks of one round, and the user's message with one tool_result block for each of
  -- these, in their order and under their ids.
  pub execute_tools-WirePairs :
      {W : Type 0} (d : PipelineDeps W) (system : String) (max_iter : ℕ)
      (req req' : PipelineRequest) (s : State W)
      → (execute_tools d max_iter req s).0 ≡ ok req'
      → WirePairs json max_iter
          (wire_messages system req.messages)
          (wire_messages system req'.messages)
  execute_tools-WirePairs d system max_iter req req' s done =
      Rounds-WirePairs system max_iter req.messages req'.messages
        (execute_tools-Rounds d max_iter req req' s done)
