-- ===== src/Mcp/Client.antt =====
-- pkg/mcp/client.go. A call, the loop that receives, and the end of a call are steps of their own, since
-- the calls of several goroutines and the loop share the map of pending calls. A call's channel is
-- known by the call's number.
pub mod Entries
pub mod Reach
use capyclaw.Prelude.{
  ℕ, ◌+◌, ℕ_eq, String, String_eq, ◌==◌, Option, none, some, List, [], ◌∷◌, Map, lookup, insert,
  delete, if◌then◌else◌,
}
use capyclaw.Action.{Result, ok, err, panicked, Action, within, ◌>>=◌}
use capyclaw.Mcp.{ToolDefinition, ToolCall, ToolResult, ServerInfo}

-- where a call is: in `transport.Send`, in the `select`, or back at its caller
pub data Phase : Type 0 where
  sending : Phase
  waiting : Phase
  returned : Result String → Phase

-- a call's phase, and what its channel of capacity 1 holds
pub record CallState : Type 0 where
  pub phase : Phase
  pub buffer : Option String

pub record Client : Type 0 where
  pub next_id : ℕ
  pub pending : Map String ℕ
  pub calls : Map ℕ CallState

-- `Client` before its first call
abbrev pub new_state : Client
new_state = record { next_id = 0; pending = []; calls = [] }

-- `resp` of a message: its identifier and the text of its result, if the message can be read as JSON
pub record Response : Type 0 where
  pub id : String
  pub result : String

-- what the loop comes to with a message: the next turn, or a send that waits for ever
pub data Delivery : Type 0 where
  delivered : Client → Delivery
  blocked : Delivery

-- the start of `call` when `json.Marshal` fails: the number is used up, and nothing is pending
unfoldable pub refuse_call : Client → Client
refuse_call c = record c { next_id = c.next_id + 1 }

-- `%d` of a call's number is a parameter
module _ (number_text : ℕ → String) where
  -- the start of `call`, up to the entry in `pending`
  unfoldable pub begin_call : Client → Client
  begin_call c =
      let id = c.next_id + 1 in
      record {
        next_id = id;
        pending = insert (number_text id) id c.pending;
        calls = insert id (record { phase = sending; buffer = none }) c.calls;
      }

  -- a call that goes on in another phase
  abbrev pub set_phase : ℕ → CallState → Phase → Client → Client
  set_phase i call phase c = record c { calls = insert i (record call { phase = phase }) c.calls }

  -- the end of `transport.Send`
  unfoldable pub after_send : ℕ → CallState → Result (Unit {0}) → Client → Client
  after_send i call (ok _) c = set_phase i call waiting c
  after_send i call (err e) c = record (set_phase i call (returned (err e)) c) {
    pending = delete (number_text i) c.pending;
  }
  after_send i call panicked c = set_phase i call (returned panicked) c

  -- the case `<-ctx.Done()`
  unfoldable pub cancel_call : ℕ → CallState → String → Client → Client
  cancel_call i call reason c = record (set_phase i call (returned (err reason)) c) {
    pending = delete (number_text i) c.pending;
  }

  -- the case `raw := <-ch`
  unfoldable pub take_result : ℕ → CallState → String → Client → Client
  take_result i call raw c = record c {
    calls = insert i (record call { phase = returned (ok raw); buffer = none }) c.calls;
  }

  -- `ch <- resp.Result`, on a channel that was found
  unfoldable pub put_result : ℕ → String → Option CallState → Client → Delivery
  put_result i raw none c = blocked
  put_result i raw (some call) c = elim call.buffer [
    | some full ↦ blocked
    | none ↦ delivered (record c { calls = insert i (record call { buffer = some raw }) c.calls })
  ]

  unfoldable pub deliver_to : Option ℕ → Response → Client → Delivery
  unfolding put_result
  deliver_to none resp c = delivered c
  deliver_to (some i) resp c =
      put_result i resp.result (lookup i c.calls) (record c { pending = delete resp.id c.pending })

  -- a turn of `receiveLoop`
  unfoldable pub receive : Option Response → Client → Delivery
  unfolding deliver_to
  receive none c = delivered c
  receive (some resp) c =
      if resp.id == "" then delivered c else deliver_to (lookup resp.id c.pending) resp c

-- a call from its start to its end, as the code that calls it sees it: the method and the text of the
-- parameters; `json.Unmarshal` of the results, and `json.Marshal` of a call's parameters
pub record Rpc (W : Type 0) : Type 0 where
  pub call : String → String → Action W String
  pub read_info : String → Result ServerInfo
  pub read_tools : String → Result (List ToolDefinition)
  pub read_result : String → Result ToolResult
  pub call_text : ToolCall → String

module _ {W : Type 0} (rpc : Rpc W) where
  abbrev pub handshake : String
  handshake =
      "{\"capabilities\":{},\"clientInfo\":{\"name\":\"CapyClaw\",\"version\":\"0.1.0\"},\"protocolVersion\":\"2024-11-05\"}"

  -- `NewClient`: the handshake
  unfoldable pub new_client : Action W ServerInfo
  new_client =
      within "mcp initialize: "
        (do raw ← rpc.call "initialize" handshake; λ w. (rpc.read_info raw, w))

  -- `ListTools`
  unfoldable pub list_tools : Action W (List ToolDefinition)
  list_tools = do raw ← rpc.call "tools/list" "null"; λ w. (rpc.read_tools raw, w)

  -- `CallTool`
  unfoldable pub call_tool : ToolCall → Action W ToolResult
  call_tool tc = do raw ← rpc.call "tools/call" (rpc.call_text tc); λ w. (rpc.read_result raw, w)
