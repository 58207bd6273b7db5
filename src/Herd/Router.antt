-- ===== src/Herd/Router.antt =====
-- internal/burrow/herd/router.go. The handlers of messages act on the world.
use capyclaw.Prelude.{
  String, ℕ_eq, Option, none, some, List, [], ◌∷◌, Map, lookup, insert, delete, concat,
}
use capyclaw.Action.{Action, pure, fail, within, attempt, ◌>>=◌}
use capyclaw.Burrow.Types.{Uuid}
use capyclaw.Herd.Manager.{
  AgentHandle, Manager, Setup, on_agents, find_by_slug, spawn, send_message, children,
}

pub record AgentMessage : Type 0 where
  pub from_agent_id : Uuid
  pub to_agent_id : Uuid
  pub content : String
  pub kind : String

abbrev pub MessageHandler : Type 0 → Type 0
MessageHandler W = AgentMessage → Action W (Unit {0})

abbrev pub Handlers : Type 0 → Type 0
Handlers W = Map Uuid (MessageHandler W)

module _ {W : Type 0} where
  unfoldable pub register : Uuid → MessageHandler W → Handlers W → Handlers W
  register id handler hs = insert id handler hs

  unfoldable pub unregister : Uuid → Handlers W → Handlers W
  unregister id hs = delete id hs

  -- an answer with an error is no answer
  unfoldable pub only_response : String → String × Option String → Action (Manager W) String
  only_response slug (response, none) = pure response
  only_response slug (response, some e) = fail (concat ("delegating to " ∷ slug ∷ ": " ∷ e ∷ []))

module _ {W : Type 0} (m : Setup W) where
  unfoldable pub send : Handlers W → AgentMessage → Action W (Unit {0})
  send hs msg = elim (lookup msg.to_agent_id hs) [
    | none ↦ fail (concat ("no handler registered for agent " ∷ m.uuid_text msg.to_agent_id ∷ []))
    | some handler ↦ handler msg
  ]

  unfoldable pub child_for :
      Option (AgentHandle W) → Uuid → String → Action (Manager W) (AgentHandle W)
  child_for (some h) parent_id slug = pure h
  child_for none parent_id slug =
      within (concat ("spawning agent " ∷ slug ∷ ": " ∷ [])) (spawn m parent_id slug)

  abbrev pub delegate_key : Uuid → Uuid → String
  delegate_key parent_id id =
      concat ("delegate:" ∷ m.uuid_text parent_id ∷ ":" ∷ m.uuid_text id ∷ [])

  unfoldable pub delegate : Uuid → String → String → Action (Manager W) String
  delegate parent_id slug task s =
      (do
        h ← child_for (find_by_slug m parent_id slug s) parent_id slug
        answer ← send_message m h.id task (delegate_key parent_id h.id)
        only_response slug answer)
        s

  -- the loop of `Broadcast`, with the results so far: each child's error, or none
  unfoldable pub send_all :
      Handlers W
      → Uuid
      → String
      → List (AgentHandle W)
      → Map Uuid (Option String)
      → Action W (Map Uuid (Option String))
  send_all hs parent_id content [] results = pure results
  send_all hs parent_id content (h ∷ rest) results = do
    e ←
        attempt (λ _. none) (λ e. some e)
          (send hs (record {
            from_agent_id = parent_id;
            to_agent_id = h.id;
            content = content;
            kind = "event";
          }))
    send_all hs parent_id content rest (insert h.id e results)

  unfoldable pub broadcast :
      Handlers W → Uuid → String → Action (Manager W) (Map Uuid (Option String))
  broadcast hs parent_id content s =
      on_agents (send_all hs parent_id content (children m parent_id s) []) s
