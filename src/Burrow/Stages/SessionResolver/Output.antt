-- ===== src/Burrow/Stages/SessionResolver/Output.antt =====
-- SessionResolver sends nothing that ends the stream.
use capyclaw.Burrow.Types.{PipelineRequest}
use capyclaw.Burrow.Deps.{SessionRepository, PipelineDeps}
use capyclaw.Burrow.Sends.{Sends, Sends-option, sends_rules}
use capyclaw.Burrow.Stages.SessionResolver.{in_memory, session_key, from_repo, resolve_session}

module _ {W : Type 0} (d : PipelineDeps W) (req : PipelineRequest) where
  in_memory-Sends : Sends W _ (in_memory d req)
  unfolding in_memory
  in_memory-Sends = search sends_rules

  session_key-Sends : Sends W _ (session_key d req)
  unfolding session_key
  session_key-Sends = search sends_rules

  from_repo-Sends : (repo : SessionRepository W) → Sends W _ (from_repo d repo req)
  unfolding from_repo
  from_repo-Sends repo = search (sends_rules, session_key-Sends)

  pub resolve_session-Sends : Sends W PipelineRequest (resolve_session d req)
  unfolding resolve_session
  resolve_session-Sends =
      Sends-option d.session_repo (in_memory d req) (λ repo. from_repo d repo req) in_memory-Sends
        from_repo-Sends
