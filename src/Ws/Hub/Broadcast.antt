-- ===== src/Ws/Hub/Broadcast.antt =====
-- Sends to the clients that the hub ranges over, one after the other.
use mathlib.Core.Path.{subst}
use capyclaw.Prelude.{
  String, ◌≡◌, ◌≢◌, refl, sym, ap, ◌∙◌, Bool, false, Option, none, some, List, [], ◌∷◌, lookup,
  ℕ_eq, All, ◌==◌, Bool-cases, inl, inr, String_eq,
}
use capyclaw.Action.{Result, ok, Action, pure, panic, >>=-ok}
use capyclaw.Ws.Hub.{
  ClientRef, Channel, Client, Sockets, RangeOrder, offer, offer_each, offer_if_user, at_client,
  on_found, broadcast, send_to,
}
use capyclaw.Ws.Hub.Safety.{
  Fits, IsSound, Keeps, Succeeds, offer-Keeps, offer_if_user-Keeps, at_client-IsSound,
}

module _ {M : Type 0} where
  -- an action on one channel that succeeds while the channel is open
  pub record OkIfOpen (m : Action (Channel M) (Unit {0})) : Type 0 where
    pub keeps : Keeps (Unit {0}) m
    pub is_ok : (ch : Channel M) → ch.closed ≡ false → (m ch).0 ≡ ok tt

  offer-OkIfOpen : (msg : M) → OkIfOpen (offer msg)
  offer-OkIfOpen msg = record { keeps = offer-Keeps msg; is_ok = λ ch h. unfold offer in rw h }

  offer_if_user-OkIfOpen :
      (user_id : String) (msg : M) (client : Client M) → OkIfOpen (offer_if_user user_id msg client)
  offer_if_user-OkIfOpen user_id msg client = record {
    keeps = offer_if_user-Keeps user_id msg client;
    is_ok = λ ch h.
        unfold offer_if_user pure in
        elim (Bool-cases (client.user_id == user_id)) [
          | inl same ↦ rw same ((offer-OkIfOpen msg).is_ok ch h)
          | inr other ↦ rw other
        ];
  }

  on_found-clients :
      {A : Type 0} (c : ClientRef) (f : Client M → Action (Channel M) A) (o : Option (Client M))
      (s : Sockets M)
      → (on_found c f o s).1.clients ≡ s.clients
  unfolding on_found panic
  on_found-clients c f none s = refl
  on_found-clients c f (some client) s = refl

  on_found-is_ok :
      (c : ClientRef) (f : Client M → Action (Channel M) (Unit {0})) (o : Option (Client M))
      (entry : Option Bool) (s : Sockets M)
      → ((client : Client M) → OkIfOpen (f client))
      → Fits o entry
      → entry ≢ none
      → (on_found c f o s).0 ≡ ok tt
  unfolding on_found
  on_found-is_ok c f o none s open_ok fit there = absurd (there refl)
  on_found-is_ok c f none (some b) s open_ok fit there = absurd fit
  on_found-is_ok c f (some client) (some b) s open_ok fit there =
      (open_ok client).is_ok client.send fit.0

  at_client-clients :
      (c : ClientRef) (f : Client M → Action (Channel M) (Unit {0})) (s : Sockets M)
      → (at_client c f s).1.clients ≡ s.clients
  unfolding at_client
  at_client-clients c f s = on_found-clients c f (lookup c s.store) s

  at_client-is_ok :
      (c : ClientRef) (f : Client M → Action (Channel M) (Unit {0})) (s : Sockets M)
      → ((client : Client M) → OkIfOpen (f client))
      → lookup c s.clients ≢ none
      → IsSound s
      → (at_client c f s).0 ≡ ok tt
  unfolding at_client
  at_client-is_ok c f s open_ok there sound =
      on_found-is_ok c f (lookup c s.store) (lookup c s.clients) s open_ok (sound c) there

  offer_each-Succeeds :
      (f : Client M → Action (Channel M) (Unit {0})) (cs : List ClientRef) (s : Sockets M)
      → ((client : Client M) → OkIfOpen (f client))
      → All (λ c. lookup c s.clients ≢ none) cs
      → IsSound s
      → Succeeds (offer_each f cs) s
  offer_each-Succeeds f [] s open_ok there sound = record {
    is_ok = unfold offer_each pure in refl;
    sound = unfold offer_each pure in sound;
  }
  offer_each-Succeeds f (c ∷ cs) s open_ok there sound =
      let first = at_client-is_ok c f s open_ok there.0 sound in
      let rest =
        offer_each-Succeeds f cs (at_client c f s).1 open_ok
          (subst (λ m. All (λ k. lookup k m ≢ none) cs) (sym (at_client-clients c f s)) there.1)
          (at_client-IsSound c f s (λ client. (open_ok client).keeps) sound) in
      let step : offer_each f (c ∷ cs) s ≡ offer_each f cs (at_client c f s).1 =
        unfold offer_each in >>=-ok (at_client c f) (λ _. offer_each f cs) s tt first in
      record {
        is_ok = ap (λ (p : Result (Unit {0}) × Sockets M). p.0) step ∙ rest.is_ok;
        sound = subst (λ (p : Result (Unit {0}) × Sockets M). IsSound p.1) (sym step) rest.sound;
      }

  pub broadcast-Succeeds :
      (o : RangeOrder) (msg : M) (s : Sockets M) → IsSound s → Succeeds (broadcast o msg) s
  unfolding broadcast
  broadcast-Succeeds o msg s sound =
      let h =
        offer_each-Succeeds (λ _. offer msg) (o.range s.clients) s (λ _. offer-OkIfOpen msg)
          (o.only_keys s.clients) sound in
      record { is_ok = h.is_ok; sound = h.sound }

  pub send_to-Succeeds :
      (o : RangeOrder) (user_id : String) (msg : M) (s : Sockets M)
      → IsSound s
      → Succeeds (send_to o user_id msg) s
  unfolding send_to
  send_to-Succeeds o user_id msg s sound =
      let h =
        offer_each-Succeeds (offer_if_user user_id msg) (o.range s.clients) s
          (offer_if_user-OkIfOpen user_id msg) (o.only_keys s.clients) sound in
      record { is_ok = h.is_ok; sound = h.sound }
