-- ===== src/Burrow/Stages/SessionPersister.antt =====
-- SessionPersister.Process. An error of a repository is only logged.
pub mod Output
pub mod Survives
use capyclaw.Prelude.{
  String, String_eq, ◌==◌, Bool, not, ◌||◌, Option, none, some, List, [], ◌∷◌, ◌++◌, if◌then◌else◌,
}
use capyclaw.Action.{Action, pure, attempt, ◌>>=◌, ◌>>◌}
use capyclaw.Llm
use capyclaw.Burrow.Types.{Session, PipelineRequest}
use capyclaw.Burrow.Deps.{
  StoredMessage, SessionRepository, MessageRepository, ExtractionInput, PipelineDeps, State,
  outside,
}

module _ {W : Type 0} (d : PipelineDeps W) (req : PipelineRequest) where
  abbrev pub user_message : Session → StoredMessage
  user_message session = record {
    session_id = session.id;
    tenant_id = req.tenant_id;
    role = "user";
    content = d.codec.encode_text req.message.content;
    model = none;
    usage = none;
  }

  abbrev pub usage_json : Option Llm.Usage → Option String
  usage_json none = none
  usage_json (some u) = some (d.codec.encode_usage u)

  abbrev pub assistant_message : Session → StoredMessage
  assistant_message session = record {
    session_id = session.id;
    tenant_id = req.tenant_id;
    role = "assistant";
    content = d.codec.encode_text req.assistant_content;
    model = some req.model;
    usage = usage_json req.usage;
  }

  -- an answer without text is not stored
  unfoldable pub to_store : Session → List StoredMessage
  to_store session =
      user_message session
      ∷ (if req.assistant_content == "" then [] else assistant_message session ∷ [])

  -- the call is made, and its error is dropped
  unfoldable pub logged : Action W (Unit {0}) → Action (State W) (Unit {0})
  logged m = attempt (λ u. u) (λ _. tt) (outside m)

  pub append_all : MessageRepository W → List StoredMessage → Action (State W) (Unit {0})
  append_all repo [] = pure tt
  append_all repo (m ∷ ms) = do logged (repo.append m); append_all repo ms

  pub update_counts :
      Option (SessionRepository W) → Option Llm.Usage → Session → Action (State W) (Unit {0})
  update_counts (some repo) (some u) session =
      logged (repo.update_token_counts session.id u.input_tokens u.output_tokens)
  update_counts _ _ session = pure tt

  abbrev pub extraction_input : Session → ExtractionInput
  extraction_input session = record {
    agent_id = req.agent_id;
    tenant_id = req.tenant_id;
    session_id = session.id;
    user_msg = req.message.content;
    assistant_msg = req.assistant_content;
  }

  pub extract :
      Option (ExtractionInput → Action W (Unit {0})) → Session → Action (State W) (Unit {0})
  extract none session = pure tt
  extract (some extract_async) session =
      if req.message.content == "" || req.assistant_content == ""
      then pure tt
      else logged (extract_async (extraction_input session))

  pub persist_with :
      Option (MessageRepository W) → Option Session → Action (State W) PipelineRequest
  persist_with (some repo) (some session) = do
    append_all repo (to_store session)
    update_counts d.session_repo req.usage session
    extract d.extract_async session
    pure req
  persist_with _ _ = pure req

  unfoldable pub persist : Action (State W) PipelineRequest
  persist = persist_with d.message_repo req.session
