-- ===== src/Tests/Fixtures.antt =====
-- A small world for the examples: it counts the calls that reach it.
use capyclaw.Prelude.{ℕ, zero, suc, String, false, true, Option, none, some, List, [], ◌∷◌}
use capyclaw.Action.{ok, err, Action}
use capyclaw.Mudbath.{Sandbox}
use capyclaw.Nibble.Registry.{ToolDef}
use capyclaw.Nibble.Executor.{Executor, Input}
use capyclaw.Llm
use capyclaw.Llm.{Client, Chunk, ChunkType}
use capyclaw.Burrow.Types.{PipelineRequest, IncomingMessage}
use capyclaw.Burrow.Pipeline.{no_config, new_request}
use capyclaw.Burrow.Deps.{PipelineDeps, State, Codec}

abbrev pub blank_chunk : Chunk
blank_chunk = record {
  kind = ChunkType.text;
  content = "";
  tool_call = none;
  usage = none;
  finish_reason = "";
}

abbrev pub say : String → Chunk
say t = record blank_chunk { content = t }

abbrev pub echo_call : Llm.ToolCall
echo_call = record { id = "call-1"; name = "echo"; input = "{}" }

-- the first answer asks for a tool, the others are texts
abbrev pub answer_at : ℕ → List Chunk
answer_at zero =
    say "wait" ∷ record blank_chunk { kind = ChunkType.tool_call; tool_call = some echo_call } ∷ []
answer_at (suc n) = say "done" ∷ []

abbrev pub demo_client : Client ℕ
demo_client = record {
  stream = λ req w. (ok (answer_at w), suc w);
  count_tokens = λ ms w. (ok 0, w);
  provider = "demo";
}

abbrev pub demo_sandbox : Sandbox ℕ
demo_sandbox = record {
  execute = λ req w.
      (ok (record { stdout = req.command; stderr = ""; exit_code = 0; error = "" }), suc w);
  close = λ w. (ok tt, w);
}

abbrev pub echo_handler : Input → Action ℕ String
echo_handler input w = (ok "pong", suc w)

abbrev pub builtin_echo : String → Option (Input → Action ℕ String)
builtin_echo name = some echo_handler

abbrev pub demo_executor : Executor ℕ
demo_executor = record {
  get_builtin = builtin_echo;
  mcp_caller = some (λ server tool input w. (ok tool, suc w));
  new_sandboxes = record {
    new_wasm = λ w. (ok demo_sandbox, w);
    new_gvisor = λ w. (ok demo_sandbox, w);
    new_firecracker = λ w. (err "no kvm", w);
  };
  marshal = λ input. "{}";
  timeout_seconds = 30;
}

abbrev pub echo_tool : ToolDef
echo_tool = record {
  name = "echo";
  description = "";
  parameters = "{}";
  sandbox_tier = "wasm";
  source = "bundled";
  mcp_server_id = "";
  mcp_tool_name = "";
}

abbrev pub demo_codec : Codec ℕ
demo_codec = record {
  new_uuid = λ w. (ok 7, w);
  uuid_text = λ id. "id";
  parse_uuid = λ t. ok 7;
  decode_input = λ t. some (some []);
  decode_text = λ t. some t;
  decode_manifest = λ t. none;
  encode_text = λ t. t;
  encode_usage = λ u. "{}";
}

abbrev pub demo_deps : PipelineDeps ℕ
demo_deps = record {
  session_repo = none;
  message_repo = none;
  llm_client = some demo_client;
  config = none;
  has_registry = true;
  tool_executor = some demo_executor;
  recall = none;
  extract_async = none;
  compactor = none;
  context_mgr = none;
  load_skills = none;
  has_builtin = λ name. true;
  range_tools = λ ts. ts;
  codec = demo_codec;
  float = record { of_int = λ n. n; mul = λ x y. x; lt = λ x y. false };
}

abbrev pub demo_state : State ℕ
demo_state = record {
  executor = record {
    world = 0;
    registry = record { tools = ("echo", echo_tool) ∷ [] };
    sandboxes = [];
  };
  out = [];
}

abbrev pub demo_message : IncomingMessage
demo_message = record { session_key = "k"; content = "ping"; role = "user"; user_id = "u" }

abbrev pub demo_request : PipelineRequest
demo_request = new_request 1 2 demo_message no_config

abbrev pub asked_request : PipelineRequest
asked_request = record demo_request {
  assistant_content = "wait";
  tool_calls = record { id = "call-1"; name = "echo"; input = "{}" } ∷ [];
}
