-- ===== src/Burrow/Stages/SessionPersister/Output.antt =====
-- SessionPersister sends nothing.
use capyclaw.Prelude.{Option, none, some, List, [], ◌∷◌}
use capyclaw.Action.{Action}
use capyclaw.Llm
use capyclaw.Burrow.Types.{Session, PipelineRequest}
use capyclaw.Burrow.Deps.{
  StoredMessage, SessionRepository, MessageRepository, ExtractionInput, PipelineDeps,
}
use capyclaw.Burrow.Sends.{Sends, Sends-bind, sends_rules}
use capyclaw.Burrow.Stages.SessionPersister.{
  logged, append_all, update_counts, extract, persist_with, persist,
}

module _ {W : Type 0} (d : PipelineDeps W) (req : PipelineRequest) where
  logged-Sends : (m : Action W (Unit {0})) → Sends W _ (logged d req m)
  unfolding logged
  logged-Sends m = search sends_rules

  append_all-Sends :
      (repo : MessageRepository W) (ms : List StoredMessage) → Sends W _ (append_all d req repo ms)
  unfolding append_all
  append_all-Sends repo [] = search sends_rules
  append_all-Sends repo (m ∷ ms) =
      Sends-bind _ _ (logged-Sends (repo.append m)) (λ _. append_all-Sends repo ms)

  update_counts-Sends :
      (repo : Option (SessionRepository W)) (u : Option Llm.Usage) (session : Session)
      → Sends W _ (update_counts d req repo u session)
  unfolding update_counts
  update_counts-Sends (some repo) (some u) session = search (sends_rules, logged-Sends)
  update_counts-Sends (some repo) none session = search sends_rules
  update_counts-Sends none u session = search sends_rules

  extract-Sends :
      (o : Option (ExtractionInput → Action W (Unit {0}))) (session : Session)
      → Sends W _ (extract d req o session)
  unfolding extract
  extract-Sends none session = search sends_rules
  extract-Sends (some x) session = search (sends_rules, logged-Sends)

  persist_with-Sends :
      (o : Option (MessageRepository W)) (s : Option Session) → Sends W _ (persist_with d req o s)
  unfolding persist_with
  persist_with-Sends (some repo) (some session) =
      search (sends_rules, append_all-Sends, update_counts-Sends, extract-Sends) depth 8
  persist_with-Sends (some repo) none = search sends_rules
  persist_with-Sends none s = search sends_rules

  pub persist-Sends : Sends W PipelineRequest (persist d req)
  unfolding persist
  persist-Sends = persist_with-Sends d.message_repo req.session
