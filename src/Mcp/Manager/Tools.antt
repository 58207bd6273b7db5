-- ===== src/Mcp/Manager/Tools.antt =====
-- The tools in the registry after a server was connected, and after it was disconnected.
use capyclaw.Prelude.{
  ◌≡◌, ◌≢◌, refl, sym, ap, ◌∙◌, inl, inr, String, String_eq, ◌==◌, ==_refl, Bool-cases, Option,
  none, some, List, [], ◌∷◌, ◌++◌, All, lookup, insert, lookup-insert_same, lookup-insert_other,
  lookup-delete_same, lookup-delete_other,
}
use capyclaw.Action.{Result, ok, err, panicked, continue, ◌>>=◌}
use capyclaw.Nibble.Registry.{Registry, ToolDef, register, unregister, get}
use capyclaw.Mcp.{ToolDefinition, ServerInfo}
use capyclaw.Mcp.Client.{Rpc, new_client, list_tools}
use capyclaw.Mcp.Manager.{
  McpServerConfig, Servers, McpConnection, Manager, tool_key, tool_def, register_tools,
  unregister_tools, or_nil, open_transport, keep, after_list, after_handshake, after_open, connect,
}

-- under a name stands a tool of the server that has that name
pub record Offers (server_id key : String) (r : Registry) : Type 0 where
  pub def : ToolDef
  pub found : get key r ≡ some def
  pub from_server : def.mcp_server_id ≡ server_id
  pub from_mcp : def.source ≡ "mcp"
  pub named : key ≡ tool_key server_id def.mcp_tool_name

Offers-register :
    (server_id key : String) (tool : ToolDefinition) (r : Registry)
    → Offers server_id key r
    → Offers server_id key (register (tool_def server_id tool) r)
unfolding get register
Offers-register server_id key tool r o = elim (Bool-cases (tool_key server_id tool.name == key)) [
  | inl same ↦ record {
    def = tool_def server_id tool;
    found =
        lookup-insert_same (tool_key server_id tool.name) key (tool_def server_id tool) r.tools
          same;
    from_server = refl;
    from_mcp = refl;
    named = sym ((String_eq.same_iff (tool_key server_id tool.name) key).0 same);
  }
  | inr other ↦ record {
    def = o.def;
    found =
        lookup-insert_other (tool_key server_id tool.name) key (tool_def server_id tool) r.tools
          other
        ∙ o.found;
    from_server = o.from_server;
    from_mcp = o.from_mcp;
    named = o.named;
  }
]

Offers-register_tools :
    (server_id key : String) (tools : List ToolDefinition) (r : Registry)
    → Offers server_id key r
    → Offers server_id key (register_tools server_id tools r)
unfolding register_tools
Offers-register_tools server_id key [] r o = o
Offers-register_tools server_id key (tool ∷ tools) r o =
    Offers-register_tools server_id key tools _ (Offers-register server_id key tool r o)

Offers-new :
    (server_id : String) (tool : ToolDefinition) (r : Registry)
    → Offers server_id (tool_key server_id tool.name) (register (tool_def server_id tool) r)
unfolding get register
Offers-new server_id tool r = record {
  def = tool_def server_id tool;
  found = lookup-insert_same key key (tool_def server_id tool) r.tools (==_refl key);
  from_server = refl;
  from_mcp = refl;
  named = refl;
}
  where
    key : String
    key = tool_key server_id tool.name

register_tools-Offers :
    (server_id : String) (tools : List ToolDefinition) (r : Registry)
    → All
        (λ (tool : ToolDefinition).
          Offers server_id (tool_key server_id tool.name) (register_tools server_id tools r))
        tools
unfolding register_tools
register_tools-Offers server_id [] r = tt
register_tools-Offers server_id (tool ∷ tools) r = (
  Offers-register_tools server_id _ tools _ (Offers-new server_id tool r),
  register_tools-Offers server_id tools (register (tool_def server_id tool) r),
)

absent-unregister_tools :
    (server_id key : String) (tools : List ToolDefinition) (r : Registry)
    → get key r ≡ none
    → get key (unregister_tools server_id tools r) ≡ none
unfolding unregister_tools get unregister
absent-unregister_tools server_id key [] r h = h
absent-unregister_tools server_id key (tool ∷ tools) r h =
    absent-unregister_tools server_id key tools _
      (elim (Bool-cases (tool_key server_id tool.name == key)) [
        | inl same ↦ lookup-delete_same (tool_key server_id tool.name) key r.tools same
        | inr other ↦ lookup-delete_other (tool_key server_id tool.name) key r.tools other ∙ h
      ])

pub unregister_tools-absent :
    (server_id : String) (tools : List ToolDefinition) (r : Registry)
    → All
        (λ (tool : ToolDefinition).
          get (tool_key server_id tool.name) (unregister_tools server_id tools r) ≡ none)
        tools
unfolding unregister_tools get unregister
unregister_tools-absent server_id [] r = tt
unregister_tools-absent server_id (tool ∷ tools) r =
    let key = tool_key server_id tool.name in
    (
      absent-unregister_tools server_id key tools _
          (lookup-delete_same key key r.tools (==_refl key)),
      unregister_tools-absent server_id tools _,
    )

module _ {W T P : Type 0} (servers : Servers W T P) where
  -- What a server that is of use says: its transport opens, with the process if it has one; it answers
  -- the handshake; and its answer to the question for its tools is read as `tools`.
  pub record Offered (cfg : McpServerConfig) (w : W) (t : T) (p : Option P)
      (tools : List ToolDefinition) (w' : W) : Type 0 where
    pub opened : W
    pub open_eq : open_transport servers cfg w ≡ (ok (t, p), opened)
    pub info : ServerInfo
    pub greeted : W
    pub greet_eq : new_client (servers.rpc t) opened ≡ (ok info, greeted)
    pub raw : String
    pub call_eq : (servers.rpc t).call "tools/list" "null" greeted ≡ (ok raw, w')
    pub read_eq : (servers.rpc t).read_tools raw ≡ ok tools

  -- what a call of Connect comes to
  pub data Connected (agent_id : String) (cfg : McpServerConfig) (m : Manager W T P)
      : Result (Unit {0}) × Manager W T P → Type 0 where
    refused :
        (r : Result (Unit {0})) (w : W)
        → r ≢ ok tt
        → Connected agent_id cfg m (r, record m { world = w })
    connected :
        (conn : McpConnection T P) (m' : Manager W T P)
        → conn.server_id ≡ cfg.server_id
        → m'.connections
          ≡ insert agent_id (or_nil (lookup agent_id m.connections) ++ conn ∷ []) m.connections
        → Offered cfg m.world conn.client conn.cmd conn.tools m'.world
        → All
            (λ (tool : ToolDefinition).
              Offers cfg.server_id (tool_key cfg.server_id tool.name) m'.registry)
            conn.tools
        → Connected agent_id cfg m (ok tt, m')

  err_neq_ok : {e : String} → ◌≢◌ {A = Result (Unit {0})} (err e) (ok tt)
  err_neq_ok h = cc

  panicked_neq_ok : ◌≢◌ {A = Result (Unit {0})} panicked (ok tt)
  panicked_neq_ok h = cc

  list_tools-read :
      (rpc : Rpc W) (w w' : W) (tools : List ToolDefinition)
      → list_tools rpc w ≡ (ok tools, w')
      → (raw : String) × (rpc.call "tools/list" "null" w ≡ (ok raw, w'))
        × (rpc.read_tools raw ≡ ok tools)
  unfolding list_tools ◌>>=◌
  list_tools-read rpc w w' tools h =
      by (rpc.call "tools/list" "null" w).0 (rpc.call "tools/list" "null" w).1 refl h
    where
      by :
          (r : Result String) (v : W)
          → rpc.call "tools/list" "null" w ≡ (r, v)
          → continue r (λ raw (u : W). (rpc.read_tools raw, u)) v ≡ (ok tools, w')
          → (raw : String) × (rpc.call "tools/list" "null" w ≡ (ok raw, w'))
            × (rpc.read_tools raw ≡ ok tools)
      by (ok raw) v e k = (raw, e ∙ ap (λ u. (ok raw, u)) (ap (λ x. x.1) k), ap (λ x. x.0) k)
      by (err m) v e k = absurd (no_tools (ap (λ x. x.0) k))
        where
          no_tools : {m : String} {tools : List ToolDefinition} → err m ≡ ok tools → ⊥
          no_tools h = cc
      by panicked v e k = absurd (no_end (ap (λ x. x.0) k))
        where
          no_end : {tools : List ToolDefinition} → panicked ≡ ok tools → ⊥
          no_end h = cc

  module _ (agent_id : String) (cfg : McpServerConfig) (m : Manager W T P) where
    after_list-Connected :
        (t : T) (p : Option P) (opened greeted : W) (info : ServerInfo)
        (r : Result (List ToolDefinition)) (w : W)
        → open_transport servers cfg m.world ≡ (ok (t, p), opened)
        → new_client (servers.rpc t) opened ≡ (ok info, greeted)
        → list_tools (servers.rpc t) greeted ≡ (r, w)
        → Connected agent_id cfg m (after_list servers agent_id cfg t p r (record m { world = w }))
    unfolding after_list keep
    after_list-Connected t p opened greeted info (ok tools) w open_eq greet_eq list_eq =
        let (raw, call_eq, read_eq) = list_tools-read (servers.rpc t) greeted w tools list_eq in
        Connected.connected _ _ refl refl
          (record {
            opened = opened;
            open_eq = open_eq;
            info = info;
            greeted = greeted;
            greet_eq = greet_eq;
            raw = raw;
            call_eq = call_eq;
            read_eq = read_eq;
          })
          (register_tools-Offers cfg.server_id tools m.registry)
    after_list-Connected t p opened greeted info (err e) w o g l = Connected.refused _ _ err_neq_ok
    after_list-Connected t p opened greeted info panicked w o g l =
        Connected.refused _ _ panicked_neq_ok

    after_handshake-Connected :
        (t : T) (p : Option P) (opened : W) (r : Result ServerInfo) (w : W)
        → open_transport servers cfg m.world ≡ (ok (t, p), opened)
        → new_client (servers.rpc t) opened ≡ (r, w)
        → Connected agent_id cfg m
            (after_handshake servers agent_id cfg t p r (record m { world = w }))
    unfolding after_handshake
    after_handshake-Connected t p opened (ok info) w open_eq greet_eq =
        after_list-Connected t p opened w info _ _ open_eq greet_eq refl
    after_handshake-Connected t p opened (err e) w o g = Connected.refused _ _ err_neq_ok
    after_handshake-Connected t p opened panicked w o g = Connected.refused _ _ panicked_neq_ok

    after_open-Connected :
        (r : Result (T × Option P)) (w : W)
        → open_transport servers cfg m.world ≡ (r, w)
        → Connected agent_id cfg m (after_open servers agent_id cfg r (record m { world = w }))
    unfolding after_open
    after_open-Connected (ok (t, p)) w open_eq = after_handshake-Connected t p w _ _ open_eq refl
    after_open-Connected (err e) w o = Connected.refused _ _ err_neq_ok
    after_open-Connected panicked w o = Connected.refused _ _ panicked_neq_ok

  -- A call of Connect either fails, and leaves the connections and the registry as they were; or the
  -- transport opened, the server answered the handshake and gave a list of tools, and the call adds one
  -- connection, with that transport, its process and exactly these tools, at the end of the agent's;
  -- after it the registry has, under the key of each tool of the list, a tool of that server with that
  -- key.
  pub connect-Connected :
      (agent_id : String) (cfg : McpServerConfig) (m : Manager W T P)
      → Connected agent_id cfg m (connect servers agent_id cfg m)
  unfolding connect
  connect-Connected agent_id cfg m = after_open-Connected agent_id cfg m _ _ refl
