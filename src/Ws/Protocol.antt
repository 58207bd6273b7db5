-- ===== src/Ws/Protocol.antt =====
-- The frames of internal/riverbank/ws/protocol.go, the rows that they carry (AgentRepository and
-- SessionRepository of internal/pond/pebble), and `encoding/json` on them.
use capyclaw.Prelude.{ℕ, String, Bool, Option, List, Int64}
use capyclaw.Burrow.Types.{Uuid}
use capyclaw.Burrow.Deps.{StoredSession}

-- `json.RawMessage`: the text as it came
pub record Request : Type 0 where
  pub kind : String
  pub id : String
  pub method : String
  pub params : String

-- `pebble.Agent`, without its time stamps
pub record Agent : Type 0 where
  pub id : Uuid
  pub tenant_id : Uuid
  pub name : String
  pub slug : String
  pub model : String
  pub fallback_models : List String
  pub system_prompt : Option String
  pub identity_md : Option String
  pub soul_md : Option String
  pub user_md : Option String
  pub settings : String
  pub tool_policy : String
  pub status : String

-- what the code passes as `payload`
pub data Payload : Type 0 where
  fields : List (String × String) → Payload
  session : StoredSession → Payload
  sessions : List StoredSession → Payload
  agent : Agent → Payload
  agents : List Agent → Payload

-- `Details` is never set
pub record ErrorPayload : Type 0 where
  pub code : ℕ
  pub message : String

-- a payload is encoded first, and then the frame around it
pub record Response : Type 0 where
  pub kind : String
  pub id : String
  pub ok : Bool
  pub payload : Option Payload
  pub error : Option ErrorPayload

pub record Event : Type 0 where
  pub kind : String
  pub event : String
  pub payload : Option Payload
  pub seq : Int64

pub data Frame : Type 0 where
  response : Response → Frame
  event : Event → Frame

abbrev pub frame_type_response : String
frame_type_response = "res"

abbrev pub frame_type_event : String
frame_type_event = "event"

abbrev pub bad_request : ℕ
bad_request = 4000

abbrev pub not_found : ℕ
not_found = 4004

abbrev pub internal : ℕ
internal = 5000

abbrev pub message_chunk : String
message_chunk = "agent.message.chunk"

abbrev pub message_done : String
message_done = "agent.message.done"

abbrev pub agent_error : String
agent_error = "agent.error"

pub record ChatSendParams : Type 0 where
  pub agent_id : String
  pub session_key : String
  pub content : String

-- the params of `sessions.list`
pub record SessionsListParams : Type 0 where
  pub agent_id : String
  pub limit : Int64
  pub offset : Int64

-- `json.Marshal` and `json.Unmarshal` on these types; a text that does not decode is `none`, and
-- the structs with one field are that field
pub record Json (M : Type 0) : Type 0 where
  pub encode : Frame → M
  pub decode_request : M → Option Request
  pub decode_chat : String → Option ChatSendParams
  pub decode_cancel : String → Option String
  pub decode_session : String → Option String
  pub decode_sessions : String → Option SessionsListParams
  pub decode_agent : String → Option String
