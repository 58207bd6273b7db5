-- ===== src/Ws/Chat.antt =====
-- The handlers of internal/riverbank/ws/chat_handler.go. handler.go starts each of them with `go`;
-- here the handlers of a connection's requests run one after the other. The goroutine of
-- the pipeline runs while its chunks are forwarded; as the two share the channel alone, it is run
-- to its end first, and where a stage panics, how far the handler has come is a parameter.
pub mod Cancel
use capyclaw.Prelude.{
  ℕ, ℕ_eq, String, String_eq, ◌==◌, ◌+◌, Option, none, some, List, [], ◌∷◌, concat, take, lookup,
  insert, delete, Int64, int_lt, if◌then◌else◌, Bool, true, false,
}
use capyclaw.Action.{Result, ok, err, panicked, Action, pure, panic, modify, attempt, ◌>>=◌, ◌>>◌}
use capyclaw.Burrow.Types.{
  Uuid, nil_uuid, AgentConfig, IncomingMessage, PipelineRequest, StreamChunk, StreamType,
}
use capyclaw.Burrow.Deps.{State, StoredSession, Codec, PipelineDeps}
use capyclaw.Burrow.Pipeline.{Stage, execute, new_request, no_config}
use capyclaw.Ws.Hub.{ClientRef, Client}
use capyclaw.Ws.Protocol.{
  Request, Agent, Payload, Json, ChatSendParams, SessionsListParams, bad_request, not_found,
  internal, message_chunk, message_done, agent_error,
}
use capyclaw.Ws.Client.{
  Gateway, on_pipeline, from_world, read_client, next_seq, send_result, send_error, send_event,
}

pub record AgentRepository (W : Type 0) : Type 0 where
  pub get : Uuid → Action W Agent
  pub list_by_tenant : Uuid → Int64 → Int64 → Action W (List Agent)

pub record SessionRows (W : Type 0) : Type 0 where
  pub get : Uuid → Action W StoredSession
  pub list_by_agent : Uuid → Int64 → Int64 → Action W (List StoredSession)

-- `WSHandler`; `seen_at_panic` is how far the handler of a chat is when a stage panics: before the
-- acknowledgement, or after it and so many chunks
pub record Handler (W M : Type 0) : Type 0 where
  pub stages : List (Stage W)
  pub agent_repo : Option (AgentRepository W)
  pub session_repo : Option (SessionRows W)
  pub codec : Codec W
  pub json : Json M
  pub seen_at_panic : Option ℕ

abbrev pub or_empty : Option String → String
or_empty none = ""
or_empty (some t) = t

unfoldable pub agent_to_config : Agent → AgentConfig
agent_to_config a = record no_config {
  name = a.name;
  slug = a.slug;
  model = a.model;
  fallback_models = a.fallback_models;
  system_prompt = or_empty a.system_prompt;
  identity_md = or_empty a.identity_md;
  soul_md = or_empty a.soul_md;
  user_md = or_empty a.user_md;
}

-- `id, _ := uuid.Parse(text)`
abbrev pub id_or_nil : Result Uuid → Uuid
id_or_nil (ok id) = id
id_or_nil (err e) = nil_uuid
id_or_nil panicked = nil_uuid

abbrev pub stream_key : {M : Type 0} → Client M → String → String
stream_key client key = concat (client.user_id ∷ ":" ∷ client.device_id ∷ ":" ∷ key ∷ [])

module _ {W M : Type 0} where
  -- `context.WithCancel` and `activeStreams.Store`
  unfoldable pub track_stream : String → Action (Gateway W M) ℕ
  track_stream key s = (
    ok s.contexts,
    record s { active_streams = insert key s.contexts s.active_streams; contexts = s.contexts + 1 },
  )

  unfoldable pub end_chat : String → Action (Gateway W M) (Unit {0})
  end_chat key = modify (λ s. record s { active_streams = delete key s.active_streams })

  unfoldable pub cancel_context : ℕ → Action (Gateway W M) (Unit {0})
  cancel_context n = modify (λ s. record s { cancelled = n ∷ s.cancelled })

  -- the chunks that the reader of the output channel gets
  unfoldable pub sent_chunks : Action (Gateway W M) (List StreamChunk)
  sent_chunks s = (ok s.pipeline.out, s)

module _ {W M : Type 0} (h : Handler W M) where
  abbrev pub refuse : ClientRef → String → ℕ → String → Action (Gateway W M) (Unit {0})
  refuse c id code message = send_error h.json c id code message

  unfoldable pub fresh_key : String → Action (Gateway W M) String
  fresh_key key =
      if key == ""
      then (do id ← from_world h.codec.new_uuid; pure (h.codec.uuid_text id))
      else pure key

  -- the agent's config; `none` if the repository gives an error
  unfoldable pub load_config :
      Option (AgentRepository W) → Uuid → Action (Gateway W M) (Option AgentConfig)
  load_config none id = pure (some no_config)
  load_config (some repo) id =
      attempt (λ a. some (agent_to_config a)) (λ _. none) (from_world (repo.get id))

  unfoldable pub forward_kind :
      ClientRef → String → StreamChunk → StreamType → Action (Gateway W M) (Unit {0})
  forward_kind c key chunk StreamType.text = do
    seq ← next_seq
    send_event h.json c message_chunk (Payload.fields (("content", chunk.content) ∷ [])) seq
  forward_kind c key chunk StreamType.error = do
    seq ← next_seq
    send_event h.json c agent_error (Payload.fields (("error", chunk.error) ∷ [])) seq
  forward_kind c key chunk StreamType.done = do
    seq ← next_seq
    send_event h.json c message_done (Payload.fields (("session_key", key) ∷ [])) seq
  forward_kind c key chunk StreamType.tool_result = pure tt

  -- one chunk as an event; a chunk of another type is dropped
  unfoldable pub forward_chunk : ClientRef → String → StreamChunk → Action (Gateway W M) (Unit {0})
  unfolding forward_kind
  forward_chunk c key chunk = forward_kind c key chunk chunk.kind

  unfoldable pub forward : ClientRef → String → List StreamChunk → Action (Gateway W M) (Unit {0})
  forward c key [] = pure tt
  forward c key (chunk ∷ chunks) = do forward_chunk c key chunk; forward c key chunks

  -- `Execute` on a channel of its own, and what its goroutine does
  unfoldable pub run_pipeline : PipelineRequest → Gateway W M → Result (Unit {0}) × Gateway W M
  run_pipeline req = on_pipeline (λ p. execute h.stages req (record p { out = [] }))

  unfoldable pub acknowledge : ClientRef → String → String → Action (Gateway W M) (Unit {0})
  acknowledge c id key =
      send_result h.json c id (Payload.fields (("status", "streaming") ∷ ("session_key", key) ∷ []))

  -- what the handler does before the panic of a stage ends the process
  unfoldable pub until_panic :
      ClientRef → String → String → Option ℕ → Action (Gateway W M) (Unit {0})
  until_panic c id key none = panic
  until_panic c id key (some seen) = do
    acknowledge c id key
    chunks ← sent_chunks
    forward c key (take seen chunks)
    panic

  -- after `Execute`: the error that it returned, or the chunks
  unfoldable pub stream :
      ClientRef → String → String → String → ℕ → Result (Unit {0}) → Action (Gateway W M) (Unit {0})
  stream c id key tracked context (err e) = do
    cancel_context context
    end_chat tracked
    refuse c id internal (concat ("pipeline execution failed: " ∷ e ∷ []))
  stream c id key tracked context (ok _) = do
    acknowledge c id key
    chunks ← sent_chunks
    forward c key chunks
    end_chat tracked
  stream c id key tracked context panicked = until_panic c id key h.seen_at_panic

  -- the run of the pipeline and its stream
  unfoldable pub run_chat :
      ClientRef → String → String → String → ℕ → PipelineRequest → Action (Gateway W M) (Unit {0})
  run_chat c id key tracked context req s =
      let (r, s') = run_pipeline req s in stream c id key tracked context r s'

  unfoldable pub chat_request : Client M → Uuid → String → String → AgentConfig → PipelineRequest
  chat_request client agent_id key content config =
      new_request agent_id (id_or_nil (h.codec.parse_uuid client.tenant_id))
        (record { session_key = key; content = content; role = "user"; user_id = client.user_id })
        config

  unfoldable pub begin_chat :
      ClientRef
      → String
      → Client M
      → Uuid
      → String
      → String
      → Option AgentConfig
      → Action (Gateway W M) (Unit {0})
  begin_chat c id client agent_id key content none = refuse c id not_found "agent not found"
  begin_chat c id client agent_id key content (some config) = do
    context ← track_stream (stream_key client key)
    run_chat c id key (stream_key client key) context
        (chat_request client agent_id key content config)

  unfoldable pub chat_with :
      ClientRef → String → ChatSendParams → Result Uuid → Action (Gateway W M) (Unit {0})
  chat_with c id params (ok agent_id) = do
    client ← read_client c
    key ← fresh_key params.session_key
    config ← load_config h.agent_repo agent_id
    begin_chat c id client agent_id key params.content config
  chat_with c id params (err e) = refuse c id bad_request "invalid agent_id"
  chat_with c id params panicked = panic

  unfoldable pub chat_params :
      ClientRef → String → Option ChatSendParams → Action (Gateway W M) (Unit {0})
  chat_params c id none = refuse c id bad_request "invalid chat.send params"
  chat_params c id (some params) =
      if params.content == ""
      then refuse c id bad_request "content is required"
      else chat_with c id params (h.codec.parse_uuid params.agent_id)

  unfoldable pub handle_chat_send : ClientRef → Request → Action (Gateway W M) (Unit {0})
  handle_chat_send c req = chat_params c req.id (h.json.decode_chat req.params)

  unfoldable pub cancel_found : ClientRef → String → Option ℕ → Action (Gateway W M) (Unit {0})
  cancel_found c id (some context) = do
    cancel_context context
    send_result h.json c id (Payload.fields (("status", "cancelled") ∷ []))
  cancel_found c id none =
      send_result h.json c id (Payload.fields (("status", "no_active_stream") ∷ []))

  -- `LoadAndDelete`
  unfoldable pub cancel_key : ClientRef → String → String → Action (Gateway W M) (Unit {0})
  cancel_key c id tracked s =
      cancel_found c id (lookup tracked s.active_streams)
        (record s { active_streams = delete tracked s.active_streams })

  unfoldable pub cancel_params :
      ClientRef → String → Option String → Action (Gateway W M) (Unit {0})
  cancel_params c id none = refuse c id bad_request "invalid cancel params"
  cancel_params c id (some key) = do client ← read_client c; cancel_key c id (stream_key client key)

  unfoldable pub handle_chat_cancel : ClientRef → Request → Action (Gateway W M) (Unit {0})
  handle_chat_cancel c req = cancel_params c req.id (h.json.decode_cancel req.params)
