-- ===== src/Tests/Tools.antt =====
-- Examples for internal/burrow/nibble and the tool loop.
use capyclaw.Prelude.{ℕ, String_eq, ◌≡◌, refl, none, List, [], ◌∷◌, map, lookup}
use capyclaw.Action.{pure, panic, attempt, modify, ◌>>=◌}
use capyclaw.Mudbath.{ExecResult}
use capyclaw.Nibble.Registry.{get}
use capyclaw.Nibble.Policy.{ToolPolicy, policy_ask, evaluate_policy}
use capyclaw.Nibble.Policy.Cascade.{opinion, last_or, evaluate_policy-last}
use capyclaw.Nibble.Executor.{ToolCall, Executor, ExecutorState, on_world, execute}
use capyclaw.Nibble.Executor.Dispatch.{Completes, execute-Completes}
use capyclaw.Burrow.Types.{PipelineRequest}
use capyclaw.Burrow.Deps.{on_executor, send, emit}
use capyclaw.Burrow.Stages.ToolExecutor.{
  tool_tier, tool_input, execute_with, call_found, run_call, run_calls, after_tools, tool_loop,
  start_loop, execute_tools, add_round,
}
use capyclaw.Burrow.Stages.ToolExecutor.Rounds.{Rounds, execute_tools-Rounds}
use capyclaw.Tests.Fixtures.{demo_deps, demo_state, demo_executor, echo_tool, asked_request}

abbrev policies : List ToolPolicy
policies =
    record { default_action = "deny"; tool_overrides = ("echo", "allow") ∷ [] }
    ∷ record { default_action = ""; tool_overrides = [] }
    ∷ []

evaluate_policy-last_example :
    evaluate_policy "echo" policies ≡ last_or policy_ask (map (opinion "echo") policies)
evaluate_policy-last_example = evaluate_policy-last "echo" policies

abbrev call : ToolCall
call = record { id = "call-1"; name = "echo"; input = [] }

abbrev hosted : ExecutorState ℕ
hosted = record {
  world = 0;
  registry = record {
    tools =
        ("echo", record echo_tool { source = "mcp"; mcp_server_id = "s"; mcp_tool_name = "t" })
        ∷ [];
  };
  sandboxes = [];
}

abbrev no_builtin : Executor ℕ
no_builtin = record demo_executor { get_builtin = λ name. none }

execute-Completes_example :
    Completes demo_executor call "wasm" demo_state.executor
      (execute demo_executor call "wasm" demo_state.executor)
execute-Completes_example = execute-Completes demo_executor call "wasm" demo_state.executor

abbrev echoed : ExecResult
echoed = record { stdout = "echo"; stderr = ""; exit_code = 0; error = "" }

abbrev pub answered_request : PipelineRequest
answered_request = record asked_request {
  messages =
      record {
        role = "assistant";
        content = "wait";
        tool_calls = record { id = "call-1"; name = "echo"; input = "{}" } ∷ [];
        tool_results = [];
      }
      ∷ record {
        role = "tool";
        content = "";
        tool_calls = [];
        tool_results = record { tool_use_id = "call-1"; content = "pong" } ∷ [];
      }
      ∷ [];
  assistant_content = "";
  tool_calls = [];
}

execute_tools-Rounds_example : Rounds 3 asked_request.messages answered_request.messages
unfolding execute_tools start_loop tool_loop run_calls run_call call_found execute_with tool_input
    after_tools add_round execute get lookup on_world on_executor send emit attempt pure panic
    modify ◌>>=◌ tool_tier
execute_tools-Rounds_example =
    execute_tools-Rounds (record demo_deps { llm_client = none }) 3 asked_request answered_request
      demo_state refl
