-- ===== src/Ws/Hub/Reach.antt =====
-- The states of the hub that connections, disconnections and sends can bring about, in any order,
-- and what a send does in them.
use capyclaw.Prelude.{
  String, ◌≡◌, length, ◌≤◌, Bool, Option, none, some, lookup, ℕ_eq, if◌then◌else◌, String_eq,
}
use capyclaw.Action.{ok, panicked, panic}
use capyclaw.Ws.Hub.{
  ClientRef, Client, Sockets, RangeOrder, new_hub, offer, at_client, on_found, capacity, send,
  init_conn, register, unregister, write_next, broadcast, send_to,
}
use capyclaw.Ws.Hub.Broadcast.{broadcast-Succeeds, send_to-Succeeds}
use capyclaw.Ws.Hub.Safety.{
  Fits, IsSound, is_none, Fits-found, send-IsSound, write_next-IsSound, connect-IsSound,
  unregister-Succeeds,
}

module _ {M : Type 0} where
  -- one thing that happens; a send that panics ends the process, and is no step
  pub data Step (o : RangeOrder) (s : Sockets M) : Sockets M → Type 0 where
    connect :
        (c : ClientRef) (client : Client M)
        → lookup c s.store ≡ none
        → Step o s (register c (init_conn c client s))
    disconnect : (c : ClientRef) → Step o s (unregister c s).1
    client_send : (c : ClientRef) (msg : M) → (send c msg s).0 ≡ ok tt → Step o s (send c msg s).1
    write : (c : ClientRef) → Step o s (write_next c s).1
    hub_broadcast : (msg : M) → Step o s (broadcast o msg s).1
    hub_send_to : (user_id : String) (msg : M) → Step o s (send_to o user_id msg s).1

  pub data Reach (o : RangeOrder) : Sockets M → Type 0 where
    start : Reach o new_hub
    later : {s t : Sockets M} → Reach o s → Step o s t → Reach o t

  Step-IsSound : (o : RangeOrder) {s t : Sockets M} → Step o s t → IsSound s → IsSound t
  Step-IsSound o {s} (connect c client fresh) sound = connect-IsSound c client s sound
  Step-IsSound o {s} (disconnect c) sound = (unregister-Succeeds c s sound).sound
  Step-IsSound o {s} (client_send c msg is_ok) sound = send-IsSound c msg s sound
  Step-IsSound o {s} (write c) sound = write_next-IsSound c s sound
  Step-IsSound o {s} (hub_broadcast msg) sound = (broadcast-Succeeds o msg s sound).sound
  Step-IsSound o {s} (hub_send_to user_id msg) sound =
      (send_to-Succeeds o user_id msg s sound).sound

  Reach-IsSound : (o : RangeOrder) {s : Sockets M} → Reach o s → IsSound s
  Reach-IsSound o start = λ c. unfold lookup in tt
  Reach-IsSound o (later r step) = Step-IsSound o step (Reach-IsSound o r)

  -- no panic of the hub, and no channel above its capacity
  pub record HubSafe (o : RangeOrder) (s : Sockets M) : Type 0 where
    pub broadcast_ok : (msg : M) → (broadcast o msg s).0 ≡ ok tt
    pub send_to_ok : (user_id : String) (msg : M) → (send_to o user_id msg s).0 ≡ ok tt
    pub unregister_ok : (c : ClientRef) → (unregister c s).0 ≡ ok tt
    pub within :
        (c : ClientRef) (client : Client M)
        → lookup c s.store ≡ some client
        → length client.send.buffer ≤ capacity

  -- In every state that connections, disconnections, the clients' sends, the writes to the
  -- connections and the hub's own sends can bring about from an empty hub, in any order,
  -- `Broadcast`, `SendTo` and `Unregister` do not panic, whatever the order in which Go ranges over
  -- the clients, and every channel holds at most 256 messages.
  pub Reach-HubSafe : (o : RangeOrder) (s : Sockets M) → Reach o s → HubSafe o s
  Reach-HubSafe o s r =
      let sound = Reach-IsSound o r in
      record {
        broadcast_ok = λ msg. (broadcast-Succeeds o msg s sound).is_ok;
        send_to_ok = λ user_id msg. (send_to-Succeeds o user_id msg s sound).is_ok;
        unregister_ok = λ c. (unregister-Succeeds c s sound).is_ok;
        within = λ c client found. (Fits-found c client s found sound).1;
      }

  Fits-send :
      (c : ClientRef) (msg : M) (client : Client M) (entry : Option Bool) (s : Sockets M)
      → Fits (some client) entry
      → (on_found c (λ _. offer msg) (some client) s).0
        ≡ (if is_none entry then panicked else ok tt)
  unfolding on_found offer panic
  Fits-send c msg client none s fit = rw fit.0
  Fits-send c msg client (some b) s fit = rw fit.0

  -- In every such state, `Client.Send` to a client that was connected panics exactly if the client
  -- is not in the hub any more: `Unregister` closes the channel, and a handler that outlives the
  -- connection sends on it.
  pub Reach-send :
      (o : RangeOrder) (s : Sockets M) (c : ClientRef) (client : Client M) (msg : M)
      → Reach o s
      → lookup c s.store ≡ some client
      → (send c msg s).0 ≡ (if is_none (lookup c s.clients) then panicked else ok tt)
  unfolding send at_client
  Reach-send o s c client msg r found = rw found (
      Fits-send c msg client (lookup c s.clients) s
        (Fits-found c client s found (Reach-IsSound o r)))
