-- ===== src/Ws/Hub.antt =====
-- internal/riverbank/ws/hub.go, with the clients' send channels of handler.go. A `*Client` is a
-- number, and the clients stand in a store by their pointers. A message is any `M`.
pub mod Safety
pub mod Broadcast
pub mod Reach
use capyclaw.Prelude.{
  ℕ, String, ℕ_eq, String_eq, ◌==◌, Bool, true, false, Option, none, some, List, [], ◌∷◌, ◌++◌, Map,
  lookup, insert, delete, length, All, ◌≢◌, ltb, if◌then◌else◌,
}
use capyclaw.Action.{Action, pure, panic, ok, ◌>>=◌, ◌>>◌}

abbrev pub ClientRef : Type 0
ClientRef = ℕ

-- `chan []byte`: what was sent and is not yet received
pub record Channel (M : Type 0) : Type 0 where
  pub buffer : List M
  pub closed : Bool

pub record Client (M : Type 0) : Type 0 where
  pub send : Channel M
  pub user_id : String
  pub tenant_id : String
  pub device_id : String

-- the hub's map, and the clients that its keys point to
pub record Sockets (M : Type 0) : Type 0 where
  pub store : Map ClientRef (Client M)
  pub clients : Map ClientRef Bool

-- `make(chan []byte, 256)`
abbrev pub capacity : ℕ
capacity = 256

module _ {M : Type 0} where
  -- `make(chan []byte, 256)`: open and empty
  abbrev pub new_channel : Channel M
  new_channel = record { buffer = []; closed = false }

  -- `NewHub`
  abbrev pub new_hub : Sockets M
  new_hub = record { store = []; clients = [] }

  -- `select { case c <- msg: default: }`: a full channel drops the message, and a closed one panics
  unfoldable pub offer : M → Action (Channel M) (Unit {0})
  offer msg ch = if ch.closed then panic ch else (
    ok tt,
    if ltb (length ch.buffer) capacity then record ch { buffer = ch.buffer ++ msg ∷ [] } else ch,
  )

  -- an action on the client behind a pointer, which panics on one that points to nothing
  unfoldable pub on_found :
      {A : Type 0}
      → ClientRef
      → (Client M → Action (Channel M) A)
      → Option (Client M)
      → Action (Sockets M) A
  on_found c f none s = panic s
  on_found c f (some client) s =
      let (r, ch) = f client client.send in
      (r, record s { store = insert c (record client { send = ch }) s.store })

  unfoldable pub at_client :
      {A : Type 0} → ClientRef → (Client M → Action (Channel M) A) → Action (Sockets M) A
  unfolding on_found
  at_client c f s = on_found c f (lookup c s.store) s

  -- `Client.Send`
  unfoldable pub send : ClientRef → M → Action (Sockets M) (Unit {0})
  send c msg = at_client c (λ _. offer msg)

  -- the client of `ServeHTTP` or of `InitConn` on a client with no channel
  unfoldable pub init_conn : ClientRef → Client M → Sockets M → Sockets M
  init_conn c client s = record s {
    store = insert c (record client { send = new_channel }) s.store;
  }

  unfoldable pub register : ClientRef → Sockets M → Sockets M
  register c s = record s { clients = insert c true s.clients }

  -- `close` panics on a channel that is closed already
  unfoldable pub close : Action (Channel M) (Unit {0})
  close ch = if ch.closed then panic ch else (ok tt, record ch { closed = true })

  unfoldable pub unregister_entry : ClientRef → Option Bool → Action (Sockets M) (Unit {0})
  unregister_entry c none s = (ok tt, s)
  unregister_entry c (some _) s =
      at_client c (λ _. close) (record s { clients = delete c s.clients })

  unfoldable pub unregister : ClientRef → Action (Sockets M) (Unit {0})
  unfolding unregister_entry
  unregister c s = unregister_entry c (lookup c s.clients) s

  -- the loop of `Broadcast` and of `SendTo` over the clients that the map ranges over
  unfoldable pub offer_each :
      (Client M → Action (Channel M) (Unit {0})) → List ClientRef → Action (Sockets M) (Unit {0})
  offer_each f [] = pure tt
  offer_each f (c ∷ cs) = do at_client c f; offer_each f cs

  unfoldable pub offer_if_user : String → M → Client M → Action (Channel M) (Unit {0})
  offer_if_user user_id msg client = if client.user_id == user_id then offer msg else pure tt

  -- the receive of `writePump`: the oldest message, if there is one
  unfoldable pub receive : Channel M → Option M × Channel M
  receive ch = elim ch.buffer [
    | [] ↦ (none, ch)
    | msg ∷ rest ↦ (some msg, record ch { buffer = rest })
  ]

  unfoldable pub write_next : ClientRef → Action (Sockets M) (Option M)
  write_next c = at_client c (λ _ ch. let (m, ch') = receive ch in (ok m, ch'))

  -- `len(h.clients)`
  unfoldable pub count : Sockets M → ℕ
  count s = length s.clients

-- the order in which Go ranges over the map: every pointer is a key
pub record RangeOrder : Type 0 where
  pub range : Map ClientRef Bool → List ClientRef
  pub only_keys : (m : Map ClientRef Bool) → All (λ c. lookup c m ≢ none) (range m)

module _ {M : Type 0} (o : RangeOrder) where
  unfoldable pub broadcast : M → Action (Sockets M) (Unit {0})
  broadcast msg s = offer_each (λ _. offer msg) (o.range s.clients) s

  unfoldable pub send_to : String → M → Action (Sockets M) (Unit {0})
  send_to user_id msg s = offer_each (offer_if_user user_id msg) (o.range s.clients) s
