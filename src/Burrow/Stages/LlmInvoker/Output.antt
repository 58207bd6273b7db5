-- ===== src/Burrow/Stages/LlmInvoker/Output.antt =====
-- LLMInvoker sends nothing that ends the stream.
use capyclaw.Prelude.{Bool-cases, inl, inr, leb, length, map, Option, none, some, List}
use capyclaw.Llm
use capyclaw.Llm.{Client}
use capyclaw.Instinct.Context.{ContextManager}
use capyclaw.Instinct.Compaction.{Compactor, compact_async}
use capyclaw.Burrow.Types.{PipelineRequest}
use capyclaw.Burrow.Deps.{PipelineDeps}
use capyclaw.Burrow.Sends.{Sends, Sends-option, Sends-outside, sends_rules, Sent-refl}
use capyclaw.Burrow.Stages.Stream.Output.{collect-Sends}
use capyclaw.Burrow.Stages.LlmInvoker.{
  summary_text, old_messages, compact_messages, compact_if, invoke_client, invoke_llm,
}

module _ {W : Type 0} (d : PipelineDeps W) where
  compact_messages-Sends :
      (c : Compactor W) (ms : List Llm.Message) → Sends W _ (compact_messages c ms)
  unfolding compact_messages
  compact_messages-Sends c ms = record {
    at = λ s. elim (Bool-cases (leb (length ms) 5)) [
      | inl h ↦ rw (h, compact_messages) (Sent-refl s)
      | inr h ↦
          rw (h, compact_messages)
            ((Sends-outside (compact_async c (map summary_text (old_messages ms)))).at s)
    ];
  }

  compact_if-Sends :
      (m : Option ContextManager) (c : Option (Compactor W)) (ms : List Llm.Message)
      → Sends W _ (compact_if d m c ms)
  unfolding compact_if
  compact_if-Sends (some m) (some c) ms = search (sends_rules, compact_messages-Sends)
  compact_if-Sends (some m) none ms = search sends_rules
  compact_if-Sends none c ms = search sends_rules

  invoke_client-Sends :
      (client : Client W) (req : PipelineRequest) → Sends W _ (invoke_client d client req)
  unfolding invoke_client
  invoke_client-Sends client req = search (sends_rules, compact_if-Sends, collect-Sends)

  pub invoke_llm-Sends : (req : PipelineRequest) → Sends W PipelineRequest (invoke_llm d req)
  unfolding invoke_llm
  invoke_llm-Sends req =
      Sends-option d.llm_client _ _ (search sends_rules) (λ client. invoke_client-Sends client req)
