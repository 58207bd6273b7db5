-- ===== src/Herd/Manager.antt =====
-- internal/burrow/herd/manager.go. Nothing is sent on a handle's result channel and no code waits
-- for its context, so the handle has neither.
pub mod Spawn
pub mod Stop
use Prim.Native.String.{◌++◌ as append}
use capyclaw.Prelude.{
  String, Bool, ℕ_eq, String_eq, ◌==◌, ◌&&◌, Option, none, some, List, [], ◌∷◌, ◌++◌, Map, lookup,
  insert, delete, values, concat, if◌then◌else◌,
}
use capyclaw.Action.{Result, ok, err, panicked, Action, pure, fail, attempt, within, ◌>>=◌, ◌>>◌}
use capyclaw.Burrow.Types.{Uuid}

-- the `Type` strings that the code tests; `other` is any further string
pub data ResultType : Type 0 where
  text done error other : ResultType

pub record StreamResult : Type 0 where
  pub kind : ResultType
  pub content : String
  pub error : String

-- a stream is what its channel yields until it is closed
pub record AgentRunner (W : Type 0) : Type 0 where
  pub process_message : String → String → Action W (List StreamResult)
  pub shutdown : Action W (Unit {0})

pub record AgentHandle (W : Type 0) : Type 0 where
  pub id : Uuid
  pub parent_id : Uuid
  pub slug : String
  pub status : String
  pub runner : Option (AgentRunner W)

-- the manager's map, with the world that the runners act on
pub record Manager (W : Type 0) : Type 0 where
  pub world : W
  pub agents : Map Uuid (AgentHandle W)

-- What the manager is made with: its tenant and its factory, if there is one; and `uuid.New`, the
-- text of an id, and the order in which Go ranges over the agents.
pub record Setup (W : Type 0) : Type 0 where
  pub tenant_id : Uuid
  pub factory : Option (Uuid → Uuid → String → Action W (AgentRunner W))
  pub new_uuid : Action W Uuid
  pub uuid_text : Uuid → String
  pub range : List (AgentHandle W) → List (AgentHandle W)

-- the loop over the results: the text so far, and an error if there was one
unfoldable pub collect_response : String → List StreamResult → String × Option String
collect_response response [] = (response, none)
collect_response response (r ∷ rs) = elim r.kind [
  | ResultType.text ↦ collect_response (append response r.content) rs
  | ResultType.error ↦ (response, some (concat ("agent error: " ∷ r.error ∷ [])))
  | ResultType.done ↦ (response, none)
  | ResultType.other ↦ collect_response response rs
]

module _ {W : Type 0} where
  unfoldable pub on_agents : {A : Type 0} → Action W A → Action (Manager W) A
  on_agents m s = let (r, w) = m s.world in (r, record s { world = w })

  unfoldable pub add_agent : AgentHandle W → Action (Manager W) (AgentHandle W)
  add_agent h s = (ok h, record s { agents = insert h.id h s.agents })

  unfoldable pub remove_agent : Uuid → Action (Manager W) (Unit {0})
  remove_agent id s = (ok tt, record s { agents = delete id s.agents })

  abbrev pub is_child : Uuid → String → AgentHandle W → Bool
  is_child parent_id slug h = h.slug == slug && h.parent_id == parent_id && h.status == "running"

  unfoldable pub find_child : Uuid → String → List (AgentHandle W) → Option (AgentHandle W)
  find_child parent_id slug [] = none
  find_child parent_id slug (h ∷ hs) =
      if is_child parent_id slug h then some h else find_child parent_id slug hs

  unfoldable pub children_of : Uuid → List (AgentHandle W) → List (AgentHandle W)
  children_of parent_id [] = []
  children_of parent_id (h ∷ hs) =
      let rest = children_of parent_id hs in if h.parent_id == parent_id then h ∷ rest else rest

  -- a runner that is nil is not shut down; the error of a shutdown is dropped
  unfoldable pub shut_down : Option (AgentRunner W) → Action W (Unit {0})
  shut_down none = pure tt
  shut_down (some r) = attempt (λ u. u) (λ _. tt) r.shutdown

  unfoldable pub shut_down_all : List (AgentHandle W) → Action W (Unit {0})
  shut_down_all [] = pure tt
  shut_down_all (h ∷ hs) = do shut_down h.runner; shut_down_all hs

  -- `StopAll`: the map is emptied first
  unfoldable pub stop_all : Setup W → Action (Manager W) (Unit {0})
  stop_all m s = on_agents (shut_down_all (m.range (values s.agents))) (record s { agents = [] })

module _ {W : Type 0} (m : Setup W) where
  unfoldable pub make_runner : Uuid → String → Action W (Option (AgentRunner W))
  make_runner id slug = elim m.factory [
    | none ↦ pure none
    | some create ↦
        within (concat ("creating agent " ∷ slug ∷ ": " ∷ []))
          (do runner ← create id m.tenant_id slug; pure (some runner))
  ]

  unfoldable pub spawn : Uuid → String → Action (Manager W) (AgentHandle W)
  spawn parent_id slug = do
    id ← on_agents m.new_uuid
    runner ← on_agents (make_runner id slug)
    add_agent (record {
      id = id;
      parent_id = parent_id;
      slug = slug;
      status = "running";
      runner = runner;
    })

  unfoldable pub find_by_slug : Uuid → String → Manager W → Option (AgentHandle W)
  find_by_slug parent_id slug s = find_child parent_id slug (m.range (values s.agents))

  unfoldable pub children : Uuid → Manager W → List (AgentHandle W)
  children parent_id s = children_of parent_id (m.range (values s.agents))

  unfoldable pub list : Manager W → List (AgentHandle W)
  list s = m.range (values s.agents)

  -- the response that was collected comes back beside an error
  unfoldable pub run_agent :
      String → String → Option (AgentRunner W) → Uuid → Action W (String × Option String)
  run_agent content key none id =
      pure ("", some (concat ("agent " ∷ m.uuid_text id ∷ " has no runner" ∷ [])))
  run_agent content key (some runner) id =
      attempt (collect_response "") (λ e. ("", some (concat ("processing message: " ∷ e ∷ []))))
        (runner.process_message content key)

  unfoldable pub send_message : Uuid → String → String → Action (Manager W) (String × Option String)
  send_message id content key s = elim (lookup id s.agents) [
    | none ↦ (ok ("", some (concat ("agent " ∷ m.uuid_text id ∷ " not found" ∷ []))), s)
    | some h ↦ on_agents (run_agent content key h.runner id) s
  ]

  unfoldable pub stop_found : Uuid → Option (AgentHandle W) → Action (Manager W) (Unit {0})
  stop_found id none = fail (concat ("agent " ∷ m.uuid_text id ∷ " not found" ∷ []))
  stop_found id (some h) = do on_agents (shut_down h.runner); remove_agent id

  unfoldable pub stop : Uuid → Action (Manager W) (Unit {0})
  stop id s = stop_found id (lookup id s.agents) s
