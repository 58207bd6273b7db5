-- ===== src/Ws/Read.antt =====
-- `readPump` of internal/riverbank/ws/handler.go: the routing of a client's messages. Each handler
-- runs in a goroutine of its own; here it runs at once, so the messages are handled in order.
use Prim.Native.String.{◌++◌ as append}
use capyclaw.Prelude.{String_eq, ◌==◌, Option, none, some, List, [], ◌∷◌, if◌then◌else◌}
use capyclaw.Action.{Action, pure, ◌>>◌}
use capyclaw.Ws.Hub.{ClientRef}
use capyclaw.Ws.Protocol.{Request, Payload, bad_request}
use capyclaw.Ws.Client.{Gateway, send_result}
use capyclaw.Ws.Chat.{Handler, refuse, handle_chat_send, handle_chat_cancel}
use capyclaw.Ws.Requests.{
  handle_session_get, handle_sessions_list, handle_agents_list, handle_agents_get,
}

module _ {W M : Type 0} (h : Handler W M) (c : ClientRef) where
  unfoldable pub route : Request → Action (Gateway W M) (Unit {0})
  route req =
      if req.method == "chat.send"
      then handle_chat_send h c req
      else if req.method == "chat.cancel"
      then handle_chat_cancel h c req
      else if req.method == "sessions.get"
      then handle_session_get h c req
      else if req.method == "sessions.list"
      then handle_sessions_list h c req
      else if req.method == "agents.list"
      then handle_agents_list h c req
      else if req.method == "agents.get"
      then handle_agents_get h c req
      else if req.method == "ping"
      then send_result h.json c req.id (Payload.fields (("pong", "ok") ∷ []))
      else refuse h c req.id bad_request (append "unknown method: " req.method)

  unfoldable pub read_message : Option Request → Action (Gateway W M) (Unit {0})
  read_message none = refuse h c "" bad_request "invalid JSON-RPC frame"
  read_message (some req) =
      if req.method == "" then refuse h c req.id bad_request "method is required" else route req

  -- the messages that are read before the connection gives an error
  unfoldable pub read_pump : List M → Action (Gateway W M) (Unit {0})
  read_pump [] = pure tt
  read_pump (msg ∷ msgs) = do read_message (h.json.decode_request msg); read_pump msgs
