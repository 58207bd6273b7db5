-- ===== src/Burrow/Session/Lookup.antt =====
-- The session manager finds again what it made, in GetOrCreate of internal/burrow/session.go.
use capyclaw.Prelude.{
  String, String_eq, ◌==◌, ◌≡◌, refl, some, Option-cases, inl, inr, false, lookup, lookup-insert,
  ==_refl,
}
use capyclaw.Burrow.Types.{Uuid, Session}
use capyclaw.Burrow.Session.{SessionManager, get_or_create}

module _ (fresh agent_id tenant_id : Uuid) (key : String) (m : SessionManager) where
  -- the session stands under its key afterwards
  get_or_create-stored :
      lookup key (get_or_create fresh agent_id tenant_id key m).1.sessions
      ≡ some (get_or_create fresh agent_id tenant_id key m).0
  unfolding get_or_create
  get_or_create-stored = elim (Option-cases (lookup key m.sessions)) [
    | inl h ↦ rw (h, get_or_create) (rw (lookup-insert key key _ m.sessions, ==_refl key) refl)
    | inr (sess, h) ↦ rw (h, get_or_create) h
  ]

  -- a manager that has a session under the key gives it, and does not change
  get_or_create-found :
      (sess : Session)
      → lookup key m.sessions ≡ some sess
      → get_or_create fresh agent_id tenant_id key m ≡ (sess, m)
  unfolding get_or_create
  get_or_create-found sess h = rw (h, get_or_create) refl

  -- A request leaves the session of any other key, or its lack of one, as it was.
  pub get_or_create-other :
      (j : String)
      → (key == j) ≡ false
      → lookup j (get_or_create fresh agent_id tenant_id key m).1.sessions ≡ lookup j m.sessions
  unfolding get_or_create
  get_or_create-other j d = elim (Option-cases (lookup key m.sessions)) [
    | inl h ↦ rw (h, get_or_create) (rw (lookup-insert key j _ m.sessions, d) refl)
    | inr (sess, h) ↦ rw (h, get_or_create) refl
  ]

-- A second request for a key gets the session that the first one got and leaves the manager as it
-- was, even if it comes with other ids: the agent and the tenant of the first request stay.
pub get_or_create_again :
    (fresh fresh' agent_id agent_id' tenant_id tenant_id' : Uuid) (key : String)
    (m : SessionManager)
    → get_or_create fresh' agent_id' tenant_id' key (get_or_create fresh agent_id tenant_id key m).1
      ≡ get_or_create fresh agent_id tenant_id key m
get_or_create_again fresh fresh' agent_id agent_id' tenant_id tenant_id' key m =
    get_or_create-found fresh' agent_id' tenant_id' key
      (get_or_create fresh agent_id tenant_id key m).1
      (get_or_create fresh agent_id tenant_id key m).0
      (get_or_create-stored fresh agent_id tenant_id key m)
