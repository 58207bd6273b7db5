-- ===== src/Ws/Requests.antt =====
-- The queries of internal/riverbank/ws/chat_handler.go: sessions.get, sessions.list, agents.list
-- and agents.get.
use capyclaw.Prelude.{ℕ, String, Option, none, some, Int64, int_lt, if◌then◌else◌}
use capyclaw.Action.{Result, ok, err, panicked, Action, panic, attempt, ◌>>=◌}
use capyclaw.Burrow.Types.{Uuid}
use capyclaw.Ws.Hub.{ClientRef}
use capyclaw.Ws.Protocol.{Request, Payload, SessionsListParams, bad_request, not_found, internal}
use capyclaw.Ws.Client.{Gateway, from_world, read_client, send_result}
use capyclaw.Ws.Chat.{Handler, AgentRepository, SessionRows, id_or_nil, refuse}

-- `if limit <= 0 { limit = 50 }`
unfoldable pub list_limit : Int64 → Int64
list_limit limit = if int_lt 0 limit then limit else 50

module _ {W M : Type 0} (h : Handler W M) (c : ClientRef) (id : String) where
  -- a query's answer: its rows, or the code and message for an error
  pub answer :
      {A : Type 0} → (A → Payload) → ℕ → String → Option A → Action (Gateway W M) (Unit {0})
  answer f code message (some a) = send_result h.json c id (f a)
  answer f code message none = refuse h c id code message

  unfoldable pub query :
      {A : Type 0} → (A → Payload) → ℕ → String → Action W A → Action (Gateway W M) (Unit {0})
  unfolding answer
  query f code message m = do
    rows ← attempt some (λ _. none) (from_world m)
    answer f code message rows

  -- `uuid.Parse` of a parameter, and the query by the id
  unfoldable pub by_id :
      String
      → Result Uuid
      → (Uuid → Action (Gateway W M) (Unit {0}))
      → Action (Gateway W M) (Unit {0})
  by_id message (ok i) go = go i
  by_id message (err e) go = refuse h c id bad_request message
  by_id message panicked go = panic

  unfoldable pub get_session : Option (SessionRows W) → String → Action (Gateway W M) (Unit {0})
  get_session none text = refuse h c id internal "session repo not available"
  get_session (some repo) text =
      by_id "invalid session_id" (h.codec.parse_uuid text)
        (λ i. query Payload.session not_found "session not found" (repo.get i))

  unfoldable pub session_params : Option String → Action (Gateway W M) (Unit {0})
  session_params none = refuse h c id bad_request "invalid params"
  session_params (some text) = get_session h.session_repo text

  unfoldable pub list_sessions :
      Option (SessionRows W) → SessionsListParams → Action (Gateway W M) (Unit {0})
  list_sessions none params = refuse h c id internal "session repo not available"
  list_sessions (some repo) params =
      by_id "invalid agent_id" (h.codec.parse_uuid params.agent_id) (λ i.
        query Payload.sessions internal "failed to list sessions"
          (repo.list_by_agent i (list_limit params.limit) params.offset))

  unfoldable pub sessions_params : Option SessionsListParams → Action (Gateway W M) (Unit {0})
  sessions_params none = refuse h c id bad_request "invalid params"
  sessions_params (some params) = list_sessions h.session_repo params

  unfoldable pub list_agents : Option (AgentRepository W) → Action (Gateway W M) (Unit {0})
  list_agents none = refuse h c id internal "agent repo not available"
  list_agents (some repo) = do
    client ← read_client c
    query Payload.agents internal "failed to list agents"
        (repo.list_by_tenant (id_or_nil (h.codec.parse_uuid client.tenant_id)) 50 0)

  unfoldable pub get_agent : Option (AgentRepository W) → String → Action (Gateway W M) (Unit {0})
  get_agent none text = refuse h c id internal "agent repo not available"
  get_agent (some repo) text =
      by_id "invalid agent_id" (h.codec.parse_uuid text)
        (λ i. query Payload.agent not_found "agent not found" (repo.get i))

  unfoldable pub agent_params : Option String → Action (Gateway W M) (Unit {0})
  agent_params none = refuse h c id bad_request "invalid params"
  agent_params (some text) = get_agent h.agent_repo text

module _ {W M : Type 0} (h : Handler W M) (c : ClientRef) (req : Request) where
  unfoldable pub handle_session_get : Action (Gateway W M) (Unit {0})
  handle_session_get = session_params h c req.id (h.json.decode_session req.params)

  unfoldable pub handle_sessions_list : Action (Gateway W M) (Unit {0})
  handle_sessions_list = sessions_params h c req.id (h.json.decode_sessions req.params)

  unfoldable pub handle_agents_list : Action (Gateway W M) (Unit {0})
  handle_agents_list = list_agents h c req.id h.agent_repo

  unfoldable pub handle_agents_get : Action (Gateway W M) (Unit {0})
  handle_agents_get = agent_params h c req.id (h.json.decode_agent req.params)
