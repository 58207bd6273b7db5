-- ===== src/Mcp/Manager.antt =====
-- internal/burrow/mcp_manager.go: MCPConnectionManager. A client is its transport. Processes and
-- transports are parameters; the order in which Go ranges over the map of all connections is one too.
-- The time of a connection's last use is left out, and the locks are held within an operation.
pub mod Tools
pub mod Gone
use capyclaw.Prelude.{
  ℕ, String, String_eq, ◌==◌, Bool, true, false, Option, none, some, List, [], ◌∷◌, ◌++◌, concat,
  Map, lookup, insert, delete, values, if◌then◌else◌,
}
use capyclaw.Action.{Result, ok, err, panicked, Action, within, context, ◌>>=◌, ◌>>◌, pure, fail}
use capyclaw.Nibble.Registry.{Registry, ToolDef, register, unregister}
use capyclaw.Mcp.{ToolDefinition, ToolCall, ToolResult}
use capyclaw.Mcp.Client.{Rpc, new_client, list_tools, call_tool}

pub record McpServerConfig : Type 0 where
  pub server_id : String
  pub server_type : String
  pub command : String
  pub args : List String
  pub url : String
  pub env : Map String String

-- `T` are the transports and `P` the processes: a command with its arguments and environment; its
-- pipes and its start; the transport over the pipes; the transport to an address; `Close`, whose
-- error is dropped; and `Kill`, whose error is too
pub record Servers (W : Type 0) (T : Type 0) (P : Type 0) : Type 0 where
  pub command : String → List String → List String → P
  pub stdin_pipe : P → Action W (Unit {0})
  pub stdout_pipe : P → Action W (Unit {0})
  pub start : P → Action W (Unit {0})
  pub stdio_transport : P → T
  pub sse_transport : String → Action W T
  pub rpc : T → Rpc W
  pub close : T → W → W
  pub kill : P → W → W

pub record McpConnection (T : Type 0) (P : Type 0) : Type 0 where
  pub client : T
  pub server_id : String
  pub tools : List ToolDefinition
  pub cmd : Option P

-- the manager's map from agents to connections, and the registry that it shares
pub record Manager (W : Type 0) (T : Type 0) (P : Type 0) : Type 0 where
  pub world : W
  pub connections : Map String (List (McpConnection T P))
  pub registry : Registry

-- the name under which a tool is registered
abbrev pub tool_key : String → String → String
tool_key server_id name = concat ("mcp:" ∷ server_id ∷ ":" ∷ name ∷ [])

abbrev pub tool_def : String → ToolDefinition → ToolDef
tool_def server_id tool = record {
  name = tool_key server_id tool.name;
  description = tool.description;
  parameters = tool.input_schema;
  sandbox_tier = "";
  source = "mcp";
  mcp_server_id = server_id;
  mcp_tool_name = tool.name;
}

unfoldable pub register_tools : String → List ToolDefinition → Registry → Registry
register_tools server_id [] r = r
register_tools server_id (tool ∷ tools) r =
    register_tools server_id tools (register (tool_def server_id tool) r)

unfoldable pub unregister_tools : String → List ToolDefinition → Registry → Registry
unregister_tools server_id [] r = r
unregister_tools server_id (tool ∷ tools) r =
    unregister_tools server_id tools (unregister (tool_key server_id tool.name) r)

-- `cmd.Env`: an entry for each variable, in the order in which the map is ranged over
unfoldable pub env_entries : Map String String → List String
env_entries [] = []
env_entries ((k, v) ∷ env) = concat (k ∷ "=" ∷ v ∷ []) ∷ env_entries env

module _ {T P : Type 0} where
  -- the first connection to a server, with those before and after it
  unfoldable pub split_at :
      String
      → List (McpConnection T P)
      → Option (List (McpConnection T P) × McpConnection T P × List (McpConnection T P))
  split_at server_id [] = none
  split_at server_id (conn ∷ conns) =
      let rest = split_at server_id conns in
      if conn.server_id == server_id then some ([], conn, conns) else elim rest [
        | none ↦ none
        | some (before, found, after) ↦ some (conn ∷ before, found, after)
      ]

  -- `m.connections[agentID]`, which is nil if there is none
  abbrev pub or_nil : Option (List (McpConnection T P)) → List (McpConnection T P)
  or_nil none = []
  or_nil (some conns) = conns

  -- `GetTools`
  unfoldable pub tools_of : List (McpConnection T P) → List ToolDefinition
  tools_of [] = []
  tools_of (conn ∷ conns) = conn.tools ++ tools_of conns

module _ {W T P : Type 0} (servers : Servers W T P) where
  -- `NewMCPConnectionManager`
  abbrev pub new_manager : W → Registry → Manager W T P
  new_manager w r = record { world = w; connections = []; registry = r }

  abbrev pub get_tools : String → Manager W T P → List ToolDefinition
  get_tools agent_id m = tools_of (or_nil (lookup agent_id m.connections))

  abbrev pub kill_if : Option P → W → W
  kill_if none w = w
  kill_if (some p) w = servers.kill p w

  -- the command, with its arguments and its environment
  abbrev pub command_of : McpServerConfig → P
  command_of cfg = servers.command cfg.command cfg.args (env_entries cfg.env)

  unfoldable pub open_stdio : McpServerConfig → Action W (T × Option P)
  open_stdio cfg = do
    within "creating stdin pipe: " (servers.stdin_pipe (command_of cfg))
    within "creating stdout pipe: " (servers.stdout_pipe (command_of cfg))
    within "starting MCP server process: " (servers.start (command_of cfg))
    pure (servers.stdio_transport (command_of cfg), some (command_of cfg))

  unfoldable pub open_sse : McpServerConfig → Action W (T × Option P)
  open_sse cfg = do
    t ← within "connecting SSE transport: " (servers.sse_transport cfg.url)
    pure (t, none)

  -- the `switch` on the type
  unfoldable pub open_transport : McpServerConfig → Action W (T × Option P)
  unfolding open_stdio open_sse
  open_transport cfg =
      if cfg.server_type == "stdio"
      then open_stdio cfg
      else if cfg.server_type == "sse"
      then open_sse cfg
      else fail (concat ("unsupported transport type: " ∷ cfg.server_type ∷ []))

  -- the tools are registered, and the connection is kept
  unfoldable pub keep : String → McpConnection T P → Manager W T P → Manager W T P
  keep agent_id conn m = record m {
    connections =
        insert agent_id (or_nil (lookup agent_id m.connections) ++ conn ∷ []) m.connections;
    registry = register_tools conn.server_id conn.tools m.registry;
  }

  unfoldable pub after_list :
      String
      → McpServerConfig
      → T
      → Option P
      → Result (List ToolDefinition)
      → Manager W T P
      → Result (Unit {0}) × Manager W T P
  unfolding keep
  after_list agent_id cfg t p (ok tools) m = (
    ok tt,
    keep agent_id (record { client = t; server_id = cfg.server_id; tools = tools; cmd = p }) m,
  )
  after_list agent_id cfg t p (err e) m = (
    err (concat ("listing MCP tools: " ∷ e ∷ [])),
    record m { world = kill_if p (servers.close t m.world) },
  )
  after_list agent_id cfg t p panicked m = (panicked, m)

  unfoldable pub after_handshake :
      {A : Type 0}
      → String
      → McpServerConfig
      → T
      → Option P
      → Result A
      → Manager W T P
      → Result (Unit {0}) × Manager W T P
  unfolding after_list list_tools
  after_handshake agent_id cfg t p (ok info) m =
      let (r, w) = list_tools (servers.rpc t) m.world in
      after_list agent_id cfg t p r (record m { world = w })
  after_handshake agent_id cfg t p (err e) m = (
    err (concat ("MCP handshake failed: " ∷ e ∷ [])),
    record m { world = servers.close t (kill_if p m.world) },
  )
  after_handshake agent_id cfg t p panicked m = (panicked, m)

  unfoldable pub after_open :
      String
      → McpServerConfig
      → Result (T × Option P)
      → Manager W T P
      → Result (Unit {0}) × Manager W T P
  unfolding after_handshake new_client
  after_open agent_id cfg (ok (t, p)) m =
      let (r, w) = new_client (servers.rpc t) m.world in
      after_handshake agent_id cfg t p r (record m { world = w })
  after_open agent_id cfg (err e) m = (err e, m)
  after_open agent_id cfg panicked m = (panicked, m)

  -- `Connect`
  unfoldable pub connect :
      String → McpServerConfig → Manager W T P → Result (Unit {0}) × Manager W T P
  unfolding after_open open_transport
  connect agent_id cfg m =
      let (r, w) = open_transport cfg m.world in after_open agent_id cfg r (record m { world = w })

  -- the end of a connection: the client is closed, and its process is killed
  abbrev pub end_connection : McpConnection T P → W → W
  end_connection conn w = kill_if conn.cmd (servers.close conn.client w)

  unfoldable pub disconnect_found :
      String
      → String
      → Option (List (McpConnection T P) × McpConnection T P × List (McpConnection T P))
      → Manager W T P
      → Result (Unit {0}) × Manager W T P
  unfolding unregister_tools
  disconnect_found agent_id server_id none m =
      (err (concat ("connection " ∷ server_id ∷ " not found for agent " ∷ agent_id ∷ [])), m)
  disconnect_found agent_id server_id (some (before, conn, after)) m = (
    ok tt,
    record {
      world = end_connection conn m.world;
      connections = insert agent_id (before ++ after) m.connections;
      registry = unregister_tools server_id conn.tools m.registry;
    },
  )

  unfoldable pub disconnect_from :
      String
      → String
      → Option (List (McpConnection T P))
      → Manager W T P
      → Result (Unit {0}) × Manager W T P
  unfolding disconnect_found split_at
  disconnect_from agent_id server_id none m =
      (err (concat ("no connections for agent " ∷ agent_id ∷ [])), m)
  disconnect_from agent_id server_id (some conns) m =
      disconnect_found agent_id server_id (split_at server_id conns) m

  -- `Disconnect`
  unfoldable pub disconnect : String → String → Manager W T P → Result (Unit {0}) × Manager W T P
  unfolding disconnect_from
  disconnect agent_id server_id m =
      disconnect_from agent_id server_id (lookup agent_id m.connections) m

  unfoldable pub call_on :
      String
      → String
      → ToolCall
      → Option (List (McpConnection T P) × McpConnection T P × List (McpConnection T P))
      → Manager W T P
      → Result ToolResult × Manager W T P
  unfolding call_tool
  call_on agent_id server_id tc none m =
      (err (concat ("MCP server " ∷ server_id ∷ " not found for agent " ∷ agent_id ∷ [])), m)
  call_on agent_id server_id tc (some (before, conn, after)) m =
      let (r, w) = call_tool (servers.rpc conn.client) tc m.world in (r, record m { world = w })

  -- `CallTool`
  unfoldable pub call_server_tool :
      String → String → ToolCall → Manager W T P → Result ToolResult × Manager W T P
  unfolding call_on split_at
  call_server_tool agent_id server_id tc m =
      call_on agent_id server_id tc (split_at server_id (or_nil (lookup agent_id m.connections))) m

  unfoldable pub end_each : List (McpConnection T P) → Manager W T P → Manager W T P
  unfolding unregister_tools
  end_each [] m = m
  end_each (conn ∷ conns) m = end_each conns (record m {
    world = end_connection conn m.world;
    registry = unregister_tools conn.server_id conn.tools m.registry;
  })

  -- `DisconnectAll`
  unfoldable pub disconnect_all : String → Manager W T P → Manager W T P
  unfolding end_each
  disconnect_all agent_id m =
      end_each (or_nil (lookup agent_id m.connections))
        (record m { connections = delete agent_id m.connections })

  unfoldable pub close_each : List (McpConnection T P) → W → W
  close_each [] w = w
  close_each (conn ∷ conns) w = close_each conns (end_connection conn w)

  unfoldable pub close_groups : List (List (McpConnection T P)) → W → W
  unfolding close_each
  close_groups [] w = w
  close_groups (conns ∷ groups) w = close_groups groups (close_each conns w)

  -- `Close`; the tools stay in the registry
  unfoldable pub close_all :
      (List (List (McpConnection T P)) → List (List (McpConnection T P)))
      → Manager W T P
      → Manager W T P
  unfolding close_groups
  close_all range m = record m {
    world = close_groups (range (values m.connections)) m.world;
    connections = [];
  }
