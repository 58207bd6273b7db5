-- ===== src/Burrow/Stages/PromptBuilder/Output.antt =====
-- PromptBuilder sends nothing that ends the stream.
use capyclaw.Burrow.Types.{Session, PipelineRequest}
use capyclaw.Burrow.Deps.{MessageRepository, PipelineDeps}
use capyclaw.Burrow.Sends.{Sends, Sends-option, sends_rules}
use capyclaw.Burrow.Stages.PromptBuilder.{history_of, load_history, build_prompt}

module _ {W : Type 0} (d : PipelineDeps W) where
  history_of-Sends :
      (repo : MessageRepository W) (session : Session) → Sends W _ (history_of d repo session)
  unfolding history_of
  history_of-Sends repo session = search sends_rules

  load_history-Sends : (session : Session) → Sends W _ (load_history d session)
  unfolding load_history
  load_history-Sends session =
      Sends-option d.message_repo _ _ (search sends_rules)
        (λ repo. search (sends_rules, history_of-Sends))

  pub build_prompt-Sends : (req : PipelineRequest) → Sends W PipelineRequest (build_prompt d req)
  unfolding build_prompt
  build_prompt-Sends req =
      Sends-option req.session _ _ (search sends_rules)
        (λ session. search (sends_rules, load_history-Sends))
