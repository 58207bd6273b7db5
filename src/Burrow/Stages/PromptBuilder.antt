-- ===== src/Burrow/Stages/PromptBuilder.antt =====
-- PromptBuilder.Process: the system prompt, the stored history, and the new message. The history
-- is what `ListBySession` returns for a limit of 20 at offset 0.
pub mod Output
use capyclaw.Prelude.{
  String, ℕ_eq, ◌==◌, Option, none, some, List, [], ◌∷◌, ◌++◌, map, if◌then◌else◌,
}
use capyclaw.Action.{Result, ok, err, panicked, Action, pure, panic, attempt, ◌>>=◌}
use capyclaw.Instinct.Builder.{BuildRequest, build}
use capyclaw.Burrow.Types.{Session, Message, PipelineRequest, nil_uuid}
use capyclaw.Burrow.Deps.{StoredMessage, MessageRepository, PipelineDeps, State, outside}

abbrev pub plain_message : String → String → Message
plain_message role content = record {
  role = role;
  content = content;
  tool_calls = [];
  tool_results = [];
}

abbrev pub prompt_request : PipelineRequest → Session → BuildRequest
prompt_request req session = record {
  identity_md = req.agent_config.identity_md;
  soul_md = req.agent_config.soul_md;
  user_md = req.agent_config.user_md;
  skills = req.agent_config.skills;
  context_summary = session.context_summary;
  memory_context = req.agent_config.memory_context;
}

module _ {W : Type 0} (d : PipelineDeps W) where
  -- a stored content that is no JSON string stands as it is
  unfoldable pub from_stored : StoredMessage → Message
  from_stored m = elim (d.codec.decode_text m.content) [
    | some content ↦ plain_message m.role content
    | none ↦ plain_message m.role m.content
  ]

  pub history_of : MessageRepository W → Session → Action (State W) (List Message)
  history_of repo session =
      attempt (map from_stored) (λ _. []) (outside (repo.list_by_session session.id 20 0))

  unfoldable pub load_history : Session → Action (State W) (List Message)
  load_history session = elim d.message_repo [
    | none ↦ pure []
    | some repo ↦ if session.id == nil_uuid then pure [] else history_of repo session
  ]

  pub add_messages : PipelineRequest → Session → List Message → PipelineRequest
  add_messages req session history = record req {
    system_prompt = build (prompt_request req session);
    messages = (req.messages ++ history) ++ plain_message req.message.role req.message.content ∷ [];
  }

  -- without a session the code reads a field of a nil pointer
  unfoldable pub build_prompt : PipelineRequest → Action (State W) PipelineRequest
  build_prompt req = elim req.session [
    | none ↦ panic
    | some session ↦ do history ← load_history session; pure (add_messages req session history)
  ]
