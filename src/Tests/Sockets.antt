-- ===== src/Tests/Sockets.antt =====
-- Examples for internal/riverbank/ws.
use capyclaw.Prelude.{
  ℕ, ℕ_eq, ◌≡◌, ◌≢◌, refl, Bool, true, none, some, List, [], ◌∷◌, Map, lookup, insert, delete,
  false, All, map, arith,
}
use capyclaw.Action.{panicked}
use capyclaw.Burrow.Pipeline.{new_pipeline}
use capyclaw.Ws.Hub.{
  ClientRef, Client, Sockets, RangeOrder, new_channel, new_hub, register, init_conn, unregister,
  send, unregister_entry, at_client, on_found, close,
}
use capyclaw.Ws.Hub.Reach.{Step, Reach, HubSafe, Reach-HubSafe, Reach-send}
use capyclaw.Ws.Protocol.{Json, Frame, Response}
use capyclaw.Ws.Client.{Gateway}
use capyclaw.Ws.Chat.{Handler}
use capyclaw.Ws.Chat.Cancel.{Cancels, cancel_key-Cancels}
use capyclaw.Tests.Fixtures.{demo_deps, demo_state, demo_codec}

abbrev keys : Map ClientRef Bool → List ClientRef
keys m = map (λ (e : ClientRef × Bool). e.0) m

more-All :
    (cs : List ClientRef) (k : ClientRef) (b : Bool) (m : Map ClientRef Bool)
    → All (λ c. lookup c m ≢ none) cs
    → All (λ c. lookup c ((k, b) ∷ m) ≢ none) cs
unfolding lookup
more-All [] k b m h = tt
more-All (c ∷ cs) k b m h = (λ e. h.0 (ground arith), more-All cs k b m h.1)

keys-All : (m : Map ClientRef Bool) → All (λ c. lookup c m ≢ none) (keys m)
keys-All [] = tt
keys-All ((k, b) ∷ m) =
    (unfold lookup in λ e. ground (arith, ℕ_eq.same_iff k k), more-All (keys m) k b m (keys-All m))

in_order : RangeOrder
in_order = record { range = keys; only_keys = keys-All }

abbrev someone : Client Frame
someone = record { send = new_channel; user_id = "u"; tenant_id = "t"; device_id = "" }

abbrev connected : Sockets Frame
connected = register 1 (init_conn 1 someone new_hub)

connected-Reach : Reach in_order connected
unfolding lookup
connected-Reach = Reach.later Reach.start (Step.connect 1 someone refl)

abbrev refused : Response
refused = record { kind = "res"; id = "r1"; ok = false; payload = none; error = none }

abbrev gone : Client Frame
gone = record someone { send = record new_channel { closed = true } }

abbrev left : Sockets Frame
left = (unregister 1 connected).1

Reach-HubSafe_example : HubSafe in_order connected
Reach-HubSafe_example = Reach-HubSafe in_order connected connected-Reach

left-Reach : Reach in_order left
left-Reach = Reach.later connected-Reach (Step.disconnect 1)

Reach-send_example : (send 1 (Frame.response refused) left).0 ≡ panicked
unfolding lookup unregister unregister_entry at_client on_found close delete register insert
    init_conn
Reach-send_example = Reach-send in_order left 1 gone (Frame.response refused) left-Reach refl

abbrev codec : Json Frame
codec = record {
  encode = λ f. f;
  decode_request = λ m. none;
  decode_chat = λ t. none;
  decode_cancel = λ t. some t;
  decode_session = λ t. none;
  decode_sessions = λ t. none;
  decode_agent = λ t. none;
}

abbrev handler : Handler ℕ Frame
handler = record {
  stages = new_pipeline demo_deps;
  agent_repo = none;
  session_repo = none;
  codec = demo_codec;
  json = codec;
  seen_at_panic = none;
}

abbrev gateway : Gateway ℕ Frame
gateway = record {
  pipeline = demo_state;
  sockets = connected;
  seq = 0;
  active_streams = ("u::k", 4) ∷ [];
  contexts = 5;
  cancelled = [];
}

cancel_key-Cancels_example : Cancels handler 1 "r2" "u::k" gateway
cancel_key-Cancels_example = cancel_key-Cancels handler 1 "r2" "u::k" gateway
