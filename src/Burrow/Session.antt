-- ===== src/Burrow/Session.antt =====
-- internal/burrow/session.go, SessionManager. Sessions are shared by pointer and no method writes
-- to one, so the map holds the sessions themselves.
pub mod Lookup
use capyclaw.Prelude.{
  String, Option, none, some, List, [], ◌∷◌, Map, lookup, insert, values, String_eq, ℕ_eq, ◌==◌,
  if◌then◌else◌,
}
use capyclaw.Burrow.Types.{Uuid, Session}

pub record SessionManager : Type 0 where
  pub sessions : Map String Session

unfoldable pub new_session_manager : SessionManager
new_session_manager = record { sessions = [] }

abbrev pub new_session : Uuid → Uuid → Uuid → String → Session
new_session id agent_id tenant_id key = record {
  id = id;
  agent_id = agent_id;
  tenant_id = tenant_id;
  session_key = key;
  compaction_count = 0;
  total_input_tokens = 0;
  total_output_tokens = 0;
  total_cost_usd = 0;
  context_summary = "";
  status = "active";
}

-- `fresh` is what `uuid.New` returns
unfoldable pub get_or_create :
    Uuid → Uuid → Uuid → String → SessionManager → Session × SessionManager
get_or_create fresh agent_id tenant_id key m = elim (lookup key m.sessions) [
  | some sess ↦ (sess, m)
  | none ↦
      let sess = new_session fresh agent_id tenant_id key in
      (sess, record { sessions = insert key sess m.sessions })
]

unfoldable pub find_id : Uuid → List Session → Option Session
find_id id [] = none
find_id id (s ∷ ss) = if s.id == id then some s else find_id id ss

-- `range` is the order in which Go ranges over the map
module _ (range : List Session → List Session) where
  unfoldable pub get : Uuid → SessionManager → Option Session
  unfolding find_id
  get id m = find_id id (range (values m.sessions))

  unfoldable pub list : SessionManager → List Session
  list m = range (values m.sessions)
