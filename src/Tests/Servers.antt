-- ===== src/Tests/Servers.antt =====
-- Examples for pkg/mcp and internal/burrow/mcp_manager.go.
use capyclaw.Prelude.{
  ℕ, ◌+◌, refl, String, String_eq, false, none, some, [], ◌∷◌, lookup, insert, delete,
}
use capyclaw.Action.{ok, err}
use capyclaw.Mcp.{ToolDefinition}
use capyclaw.Mcp.Client.{
  Rpc, Client, sending, waiting, Response, new_state, begin_call, after_send, receive, take_result,
}
use capyclaw.Mcp.Client.Reach.{Reach, Correlated, Reach-Correlated}
use capyclaw.Mcp.Manager.{Servers, Manager, McpServerConfig, connect, disconnect, new_manager}
use capyclaw.Mcp.Manager.Tools.{Connected, connect-Connected}
use capyclaw.Mcp.Manager.Gone.{Disconnected, disconnect-Disconnected}

abbrev number : ℕ → String
number n = "1"

-- a call, its send, its answer, and its end
abbrev asked : Client
asked =
    after_send number 1 (record { phase = sending; buffer = none }) (ok tt)
      (begin_call number new_state)

abbrev reply : Response
reply = record { id = "1"; result = "{}" }

abbrev answered : Client
answered = record {
  next_id = 1;
  pending = [];
  calls = (1, record { phase = waiting; buffer = some "{}" }) ∷ [];
}

abbrev finished : Client
finished = take_result number 1 (record { phase = waiting; buffer = some "{}" }) "{}" answered

finished-Reach : Reach number (reply ∷ []) finished
unfolding begin_call lookup insert after_send receive take_result delete
finished-Reach = Reach.taken (reply ∷ []) answered 1 _ "{}" refl refl refl (
    Reach.received [] asked answered reply refl
      (Reach.sent [] _ 1 _ (ok tt) refl refl (Reach.began [] new_state Reach.start)))

Reach-Correlated_example : Correlated number (reply ∷ []) finished
Reach-Correlated_example = Reach-Correlated number (reply ∷ []) finished finished-Reach

abbrev search_tool : ToolDefinition
search_tool = record { name = "search"; description = "Searches."; input_schema = "{}" }

abbrev one_tool : Rpc ℕ
one_tool = record {
  call = λ method params w. (ok "{}", w + 1);
  read_info = λ raw. ok (record { name = "demo"; version = "1"; instructions = "" });
  read_tools = λ raw. ok (search_tool ∷ []);
  read_result = λ raw. ok (record { content = []; is_error = false });
  call_text = λ tc. "{}";
}

abbrev servers : Servers ℕ String String
servers = record {
  command = λ name args env. name;
  stdin_pipe = λ p w. (ok tt, w);
  stdout_pipe = λ p w. (ok tt, w);
  start = λ p w. (ok tt, w + 1);
  stdio_transport = λ p. p;
  sse_transport = λ url w. (err "no route", w);
  rpc = λ t. one_tool;
  close = λ t w. w + 1;
  kill = λ p w. w + 1;
}

abbrev local : McpServerConfig
local = record {
  server_id = "s";
  server_type = "stdio";
  command = "mcp-demo";
  args = [];
  url = "";
  env = [];
}

abbrev idle : Manager ℕ String String
idle = new_manager servers 0 (record { tools = [] })

connect-Connected_example : Connected servers "a" local idle (connect servers "a" local idle)
connect-Connected_example = connect-Connected servers "a" local idle

disconnect-Disconnected_example :
    Disconnected servers "a" "s"
      (connect servers "a" local idle).1
      (disconnect servers "a" "s" (connect servers "a" local idle).1)
disconnect-Disconnected_example =
    disconnect-Disconnected servers "a" "s" (connect servers "a" local idle).1
