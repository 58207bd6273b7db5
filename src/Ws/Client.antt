-- ===== src/Ws/Client.antt =====
-- The replies of a client (internal/riverbank/ws/handler.go), and the state that the handlers of
-- chat_handler.go share.
use capyclaw.Prelude.{
  ℕ, ℕ_eq, String, Bool, true, false, Option, none, some, List, Map, Int64, add_int, lookup,
}
use capyclaw.Action.{Action, ok, panicked}
use capyclaw.Burrow.Deps.{State, outside}
use capyclaw.Ws.Hub.{ClientRef, Client, Sockets, send}
use capyclaw.Ws.Protocol.{Frame, Payload, ErrorPayload, Json, frame_type_response, frame_type_event}

-- The pipeline's state, the sockets, and the handler's own: the counter of events, and the cancel
-- functions, by their streams' keys. A cancel function is the number of its context.
pub record Gateway (W M : Type 0) : Type 0 where
  pub pipeline : State W
  pub sockets : Sockets M
  pub seq : Int64
  pub active_streams : Map String ℕ
  pub contexts : ℕ
  pub cancelled : List ℕ

module _ {W M : Type 0} where
  unfoldable pub on_pipeline : {A : Type 0} → Action (State W) A → Action (Gateway W M) A
  on_pipeline m s = let (r, p) = m s.pipeline in (r, record s { pipeline = p })

  unfoldable pub from_world : {A : Type 0} → Action W A → Action (Gateway W M) A
  from_world m = on_pipeline (outside m)

  unfoldable pub on_sockets : {A : Type 0} → Action (Sockets M) A → Action (Gateway W M) A
  on_sockets m s = let (r, k) = m s.sockets in (r, record s { sockets = k })

  -- what a pointer to a client points to
  unfoldable pub read_client : ClientRef → Action (Gateway W M) (Client M)
  read_client c s = elim (lookup c s.sockets.store) [
    | none ↦ (panicked, s)
    | some client ↦ (ok client, s)
  ]

  -- `nextSeq`
  unfoldable pub next_seq : Action (Gateway W M) Int64
  next_seq s = let n = add_int s.seq 1 in (ok n, record s { seq = n })

  module _ (json : Json M) (c : ClientRef) where
    unfoldable pub send_frame : Frame → Action (Gateway W M) (Unit {0})
    send_frame f = on_sockets (send c (json.encode f))

    unfoldable pub send_response :
        String → Bool → Option Payload → Option ErrorPayload → Action (Gateway W M) (Unit {0})
    send_response id success payload error = send_frame (
        Frame.response (record {
          kind = frame_type_response;
          id = id;
          ok = success;
          payload = payload;
          error = error;
        }))

    unfoldable pub send_result : String → Payload → Action (Gateway W M) (Unit {0})
    send_result id payload = send_response id true (some payload) none

    unfoldable pub send_error : String → ℕ → String → Action (Gateway W M) (Unit {0})
    send_error id code message =
        send_response id false none (some (record { code = code; message = message }))

    unfoldable pub send_event : String → Payload → Int64 → Action (Gateway W M) (Unit {0})
    send_event name payload seq = send_frame (
        Frame.event
          (record { kind = frame_type_event; event = name; payload = some payload; seq = seq }))
