-- ===== src/Mcp/Manager/Gone.antt =====
-- What a call of Disconnect ends.
use capyclaw.Prelude.{
  ◌≡◌, ◌≢◌, refl, ap, ◌∙◌, inl, inr, String, String_eq, ◌==◌, ==_refl, ==_neq, Bool-cases, Option,
  none, some, Option-cases, List, [], ◌∷◌, ◌++◌, All, lookup, lookup-insert_same,
}
use capyclaw.Action.{Result, ok, err}
use capyclaw.Nibble.Registry.{get}
use capyclaw.Mcp.{ToolDefinition}
use capyclaw.Mcp.Manager.{
  Servers, McpConnection, Manager, tool_key, split_at, disconnect_found, disconnect_from,
  disconnect, kill_if,
}
use capyclaw.Mcp.Manager.Tools.{unregister_tools-absent}

-- connections to other servers
abbrev pub Others : {T P : Type 0} → String → List (McpConnection T P) → Type 0
Others server_id conns = All (λ (conn : McpConnection _ _). conn.server_id ≢ server_id) conns

-- a list of connections is split at the first one to a server
abbrev Split :
    {T P : Type 0}
    → String
    → List (McpConnection T P)
    → Option (List (McpConnection T P) × McpConnection T P × List (McpConnection T P))
    → Type 0
Split server_id conns none = Others server_id conns
Split server_id conns (some (before, conn, after)) =
    (conn.server_id ≡ server_id) × (conns ≡ before ++ conn ∷ after) × Others server_id before

split_at-Split :
    {T P : Type 0} (server_id : String) (conns : List (McpConnection T P))
    → Split server_id conns (split_at server_id conns)
unfolding split_at
split_at-Split server_id [] = tt
split_at-Split server_id (conn ∷ conns) = elim (Bool-cases (conn.server_id == server_id)) [
  | inl same ↦ rw same ((String_eq.same_iff conn.server_id server_id).0 same, refl, tt)
  | inr other ↦
      rw other (under (==_neq other) (split_at server_id conns) (split_at-Split server_id conns))
]
  where
    under :
        conn.server_id ≢ server_id
        → (found : Option (List (McpConnection _ _) × McpConnection _ _ × List (McpConnection _ _)))
        → Split server_id conns found
        → Split server_id (conn ∷ conns) (elim found [
          | none ↦ none
          | some (before, conn', after) ↦ some (conn ∷ before, conn', after)
        ])
    under neq none h = (neq, h)
    under neq (some (before, conn', after)) (same, eq, first) =
        (same, ap (λ l. conn ∷ l) eq, (neq, first))

module _ {W T P : Type 0} (servers : Servers W T P) where
  -- the client is closed, and then the process is killed, if there is one
  pub data Shut (conn : McpConnection T P) (w : W) : W → Type 0 where
    no_process : conn.cmd ≡ none → Shut conn w (servers.close conn.client w)
    process :
        (p : P) → conn.cmd ≡ some p → Shut conn w (servers.kill p (servers.close conn.client w))

  kill_if-Shut :
      (conn : McpConnection T P) (w : W) (cmd : Option P)
      → conn.cmd ≡ cmd
      → Shut conn w (kill_if servers cmd (servers.close conn.client w))
  kill_if-Shut conn w none e = Shut.no_process e
  kill_if-Shut conn w (some p) e = Shut.process p e

  -- what a call of Disconnect comes to
  pub data Disconnected (agent_id server_id : String) (m : Manager W T P)
      : Result (Unit {0}) × Manager W T P → Type 0 where
    no_agent :
        (e : String)
        → lookup agent_id m.connections ≡ none
        → Disconnected agent_id server_id m (err e, m)
    no_server :
        (e : String) (conns : List (McpConnection T P))
        → lookup agent_id m.connections ≡ some conns
        → Others server_id conns
        → Disconnected agent_id server_id m (err e, m)
    ended :
        (before : List (McpConnection T P)) (conn : McpConnection T P)
        (after : List (McpConnection T P)) (m' : Manager W T P)
        → conn.server_id ≡ server_id
        → Others server_id before
        → lookup agent_id m.connections ≡ some (before ++ conn ∷ after)
        → Shut conn m.world m'.world
        → lookup agent_id m'.connections ≡ some (before ++ after)
        → All
            (λ (tool : ToolDefinition). get (tool_key server_id tool.name) m'.registry ≡ none)
            conn.tools
        → Disconnected agent_id server_id m (ok tt, m')

  disconnect_found-Disconnected :
      (agent_id server_id : String) (conns : List (McpConnection T P)) (m : Manager W T P)
      → lookup agent_id m.connections ≡ some conns
      → (found : Option (List (McpConnection T P) × McpConnection T P × List (McpConnection T P)))
      → Split server_id conns found
      → Disconnected agent_id server_id m (disconnect_found servers agent_id server_id found m)
  unfolding disconnect_found
  disconnect_found-Disconnected agent_id server_id conns m at none h =
      Disconnected.no_server _ conns at h
  disconnect_found-Disconnected agent_id server_id conns m at (some (before, conn, after))
        (same, eq, first) =
      Disconnected.ended before conn after _ same first (at ∙ ap some eq)
        (kill_if-Shut conn m.world conn.cmd refl)
        (lookup-insert_same agent_id agent_id (before ++ after) m.connections (==_refl agent_id))
        (unregister_tools-absent server_id conn.tools m.registry)

  -- A call of Disconnect is an error that changes nothing if the agent has no connections or none of them
  -- is to the server. Otherwise it closes the client of the first of them that is, kills its process if
  -- it has one, and keeps the agent's other connections in their order; after it the registry has nothing
  -- under the key of any tool of that connection.
  pub disconnect-Disconnected :
      (agent_id server_id : String) (m : Manager W T P)
      → Disconnected agent_id server_id m (disconnect servers agent_id server_id m)
  unfolding disconnect disconnect_from
  disconnect-Disconnected agent_id server_id m =
      elim (Option-cases (lookup agent_id m.connections)) [
        | inl missing ↦ rw missing (Disconnected.no_agent _ missing)
        | inr (conns, at) ↦ rw at (
            disconnect_found-Disconnected agent_id server_id conns m at (split_at server_id conns)
              (split_at-Split server_id conns))
      ]
