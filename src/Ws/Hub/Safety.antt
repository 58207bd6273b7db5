-- ===== src/Ws/Hub/Safety.antt =====
-- When a message is sent to a closed channel: a send channel is open as long as its client is
-- registered.
use mathlib.Core.Path.{subst}
use capyclaw.Prelude.{
  nat_eq_iff, inl, inr, String_eq, String, ℕ_eq, ◌==◌, ◌≡◌, ◌≤◌, refl, ◌∙◌, Bool, true, false,
  Bool-cases, Option, none, some, [], ◌∷◌, lookup, insert, delete, lookup-insert, lookup-delete,
  length, length-append, arith,
}
use capyclaw.Action.{ok, Action, pure, panic}
use capyclaw.Ws.Hub.{
  ClientRef, Channel, Client, Sockets, capacity, new_channel, offer, at_client, on_found,
  unregister_entry, send, init_conn, register, close, unregister, offer_if_user, receive,
  write_next,
}

abbrev pub is_none {ℓ} : {A : Type ℓ} → Option A → Bool
is_none none = true
is_none (some a) = false

-- a client and the hub's entry for it: the channel is closed exactly if there is no entry
abbrev pub Fits : {M : Type 0} → Option (Client M) → Option Bool → Type 0
Fits none none = Unit
Fits none (some _) = ⊥
Fits (some client) entry =
    (client.send.closed ≡ is_none entry) × (length client.send.buffer ≤ capacity)

module _ {M : Type 0} where
  abbrev pub IsSound : Sockets M → Type 0
  IsSound s = (c : ClientRef) → Fits (lookup c s.store) (lookup c s.clients)

  -- an action on one channel that keeps it open or closed, and within its capacity
  pub record Keeps (A : Type 0) (m : Action (Channel M) A) : Type 0 where
    pub closed_eq : (ch : Channel M) → (m ch).1.closed ≡ ch.closed
    pub fits : (ch : Channel M) → length ch.buffer ≤ capacity → length (m ch).1.buffer ≤ capacity

  pub offer-Keeps : (msg : M) → Keeps (Unit {0}) (offer msg)
  unfolding offer panic
  offer-Keeps msg = record {
    closed_eq = λ ch. ground arith;
    fits = λ ch h. ground (arith, length-append ch.buffer (msg ∷ []));
  }

  pub offer_if_user-Keeps :
      (user_id : String) (msg : M) (client : Client M)
      → Keeps (Unit {0}) (offer_if_user user_id msg client)
  unfolding offer_if_user pure
  offer_if_user-Keeps user_id msg client = elim (Bool-cases (client.user_id == user_id)) [
    | inl same ↦ rw same (offer-Keeps msg)
    | inr other ↦ rw other (record { closed_eq = λ ch. refl; fits = λ ch h. h })
  ]

  -- a client is put into the store
  Fits-some : (o : Option (Client M)) (b : Bool) → Fits o (some b) → Fits o (some true)
  Fits-some none b h = h
  Fits-some (some client) b h = h

  insert-IsSound :
      (c : ClientRef) (client : Client M) (s : Sockets M)
      → Fits (some client) (lookup c s.clients)
      → IsSound s
      → IsSound (record s { store = insert c client s.store })
  insert-IsSound c client s fit sound k =
      rw (lookup-insert c k client s.store) (elim (Bool-cases (c == k)) [
        | inl same ↦
            rw same
              (subst (λ j. Fits (some client) (lookup j s.clients)) ((nat_eq_iff c k).0 same) fit)
        | inr other ↦ rw other (sound k)
      ])

  pub Fits-found :
      (c : ClientRef) (client : Client M) (s : Sockets M)
      → lookup c s.store ≡ some client
      → IsSound s
      → Fits (some client) (lookup c s.clients)
  Fits-found c client s found sound = subst (λ o. Fits o (lookup c s.clients)) found (sound c)

  on_found-IsSound :
      {A : Type 0} (c : ClientRef) (f : Client M → Action (Channel M) A) (o : Option (Client M))
      (s : Sockets M)
      → ((client : Client M) → Keeps A (f client))
      → Fits o (lookup c s.clients)
      → IsSound s
      → IsSound (on_found c f o s).1
  unfolding on_found panic
  on_found-IsSound c f none s keeps fit sound = sound
  on_found-IsSound c f (some client) s keeps fit sound =
      insert-IsSound c (record client { send = (f client client.send).1 }) s
        ((keeps client).closed_eq client.send ∙ fit.0, (keeps client).fits client.send fit.1) sound

  pub at_client-IsSound :
      {A : Type 0} (c : ClientRef) (f : Client M → Action (Channel M) A) (s : Sockets M)
      → ((client : Client M) → Keeps A (f client))
      → IsSound s
      → IsSound (at_client c f s).1
  unfolding at_client
  at_client-IsSound c f s keeps sound =
      on_found-IsSound c f (lookup c s.store) s keeps (sound c) sound

  pub send-IsSound :
      (c : ClientRef) (msg : M) (s : Sockets M) → IsSound s → IsSound (send c msg s).1
  unfolding send
  send-IsSound c msg s = at_client-IsSound c (λ _. offer msg) s (λ _. offer-Keeps msg)

  receive-Keeps : Keeps (Option M) (λ ch. let (m, ch') = receive ch in (ok m, ch'))
  unfolding receive
  receive-Keeps = record { closed_eq = λ ch. ground arith; fits = λ ch h. ground arith }

  pub write_next-IsSound : (c : ClientRef) (s : Sockets M) → IsSound s → IsSound (write_next c s).1
  unfolding write_next
  write_next-IsSound c s = at_client-IsSound c _ s (λ _. receive-Keeps)

  -- a new connection: a pointer that points to nothing yet, with an open channel, registered
  pub connect-IsSound :
      (c : ClientRef) (client : Client M) (s : Sockets M)
      → IsSound s
      → IsSound (register c (init_conn c client s))
  unfolding register init_conn
  connect-IsSound c client s sound k =
      rw (lookup-insert c k (record client { send = new_channel }) s.store) (
        rw (lookup-insert c k true s.clients) (elim (Bool-cases (c == k)) [
          | inl same ↦ rw same (refl, omega arith)
          | inr other ↦ rw other (sound k)
        ]))

  close_open :
      (ch : Channel M) → ch.closed ≡ false → close ch ≡ (ok tt, record ch { closed = true })
  unfolding close
  close_open ch h = rw h

  -- a run that does not panic and ends in a sound state
  pub record Succeeds (m : Action (Sockets M) (Unit {0})) (s : Sockets M) : Type 0 where
    pub is_ok : (m s).0 ≡ ok tt
    pub sound : IsSound (m s).1

  close_found-IsSound :
      (c : ClientRef) (o : Option (Client M)) (s : Sockets M)
      → Fits o (some true)
      → IsSound s
      → Succeeds (on_found c (λ _. close) o) (record s { clients = delete c s.clients })
  close_found-IsSound c none s fit sound = absurd fit
  close_found-IsSound c (some client) s fit sound = record {
    is_ok = unfold on_found in rw (close_open client.send fit.0);
    sound = λ k.
        unfold on_found in
        rw (close_open client.send fit.0) (
          rw
            (lookup-insert c k (record client { send = record client.send { closed = true } })
              s.store)
            (rw (lookup-delete c k s.clients) (elim (Bool-cases (c == k)) [
              | inl same ↦ rw same (refl, fit.1)
              | inr other ↦ rw other (sound k)
            ])));
  }

  unregister_entry-Succeeds :
      (c : ClientRef) (entry : Option Bool) (s : Sockets M)
      → Fits (lookup c s.store) entry
      → IsSound s
      → Succeeds (unregister_entry c entry) s
  unfolding unregister_entry at_client
  unregister_entry-Succeeds c none s fit sound = record { is_ok = refl; sound = sound }
  unregister_entry-Succeeds c (some b) s fit sound =
      let closed = close_found-IsSound c (lookup c s.store) s (Fits-some _ b fit) sound in
      record { is_ok = closed.is_ok; sound = closed.sound }

  pub unregister-Succeeds : (c : ClientRef) (s : Sockets M) → IsSound s → Succeeds (unregister c) s
  unfolding unregister
  unregister-Succeeds c s sound =
      let h = unregister_entry-Succeeds c (lookup c s.clients) s (sound c) sound in
      record { is_ok = h.is_ok; sound = h.sound }
