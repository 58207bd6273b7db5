-- ===== src/Burrow/Stages/ToolExecutor.antt =====
-- ToolExecutor.Process: the loop of tool calls and answers of the model.
pub mod Output
pub mod Rounds
pub mod Tiers
use capyclaw.Prelude.{
  ℕ, zero, suc, String, String_eq, ◌==◌, Bool, Option, none, some, List, [], ◌∷◌, ◌++◌, insert,
  concat, add_int, Int64, if◌then◌else◌,
}
use capyclaw.Action.{Result, ok, err, panicked, Action, pure, panic, within, attempt, ◌>>=◌, ◌>>◌}
use capyclaw.Llm
use capyclaw.Mudbath.{Tier, wasm, gvisor, firecracker, select_tier}
use capyclaw.Nibble.Executor
use capyclaw.Nibble.Executor.{
  Input, Value, text, Executor, tier_wasm, tier_gvisor, tier_firecracker, execute,
}
use capyclaw.Nibble.Registry.{ToolDef, get}
use capyclaw.Burrow.Types.{
  Uuid, ToolCall, ToolResult, Message, StreamChunk, StreamType, PipelineRequest,
}
use capyclaw.Burrow.Deps.{PipelineDeps, State, outside, on_executor, send}
use capyclaw.Burrow.Stages.Stream.{Collected, collect, llm_messages, llm_request}

unfoldable pub tier_to_string : Tier → String
tier_to_string wasm = tier_wasm
tier_to_string gvisor = tier_gvisor
tier_to_string firecracker = tier_firecracker

-- the tier that a tool runs in: only a bundled tool counts as verified
unfoldable pub tool_tier : ToolDef → String
tool_tier def = tier_to_string (select_tier def.source (def.source == "bundled"))

abbrev pub output_of : Executor.ToolResult → String
output_of r = if r.error == "" then r.output else concat ("Error: " ∷ r.error ∷ [])

abbrev pub error_output : String → String
error_output e = concat ("Error: " ∷ e ∷ [])

abbrev pub assistant_message : PipelineRequest → Message
assistant_message req = record {
  role = "assistant";
  content = req.assistant_content;
  tool_calls = req.tool_calls;
  tool_results = [];
}

abbrev pub tool_message : List ToolResult → Message
tool_message results = record {
  role = "tool";
  content = "";
  tool_calls = [];
  tool_results = results;
}

-- the request once the tools of a round have run
unfoldable pub add_round : PipelineRequest → List ToolResult → PipelineRequest
add_round req results = record req {
  messages = (req.messages ++ assistant_message req ∷ []) ++ tool_message results ∷ [];
  assistant_content = "";
  tool_calls = [];
}

module _ {W : Type 0} (d : PipelineDeps W) where
  -- an input that is no JSON object becomes the value of "raw"; the agent's id is written into
  -- it, which is a panic if the map is nil
  unfoldable pub tool_input : Uuid → Option (Option Input) → String → Option Input
  tool_input agent_id none raw =
      some (insert "_agent_id" (text (d.codec.uuid_text agent_id)) (("raw", text raw) ∷ []))
  tool_input agent_id (some none) raw = none
  tool_input agent_id (some (some input)) raw =
      some (insert "_agent_id" (text (d.codec.uuid_text agent_id)) input)

  unfoldable pub execute_with :
      Executor W → ToolDef → ToolCall → Option Input → Action (State W) String
  execute_with e def tc none = panic
  execute_with e def tc (some input) = attempt output_of error_output (
      on_executor
        (execute e (record { id = tc.id; name = tc.name; input = input }) (tool_tier def)))

  unfoldable pub call_found :
      Executor W → Uuid → ToolCall → Option ToolDef → Action (State W) String
  call_found e agent_id tc none = pure (concat ("Error: tool not found: " ∷ tc.name ∷ []))
  call_found e agent_id tc (some def) =
      execute_with e def tc (tool_input agent_id (d.codec.decode_input tc.input) tc.input)

  unfoldable pub run_call : Executor W → Uuid → ToolCall → Action (State W) String
  run_call e agent_id tc s = call_found e agent_id tc (get tc.name s.registry) s

  abbrev pub tool_chunk : String → StreamChunk
  tool_chunk output = record { kind = StreamType.tool_result; content = output; error = "" }

  -- the tool calls of a round, in their order
  unfoldable pub run_calls :
      Executor W → Uuid → Bool → List ToolCall → Action (State W) (List ToolResult)
  run_calls e agent_id has_output [] = pure []
  run_calls e agent_id has_output (tc ∷ tcs) = do
    output ← run_call e agent_id tc
    send has_output (tool_chunk output)
    results ← run_calls e agent_id has_output tcs
    pure (record { tool_use_id = tc.id; content = output } ∷ results)

  unfoldable pub ask_again : Llm.Client W → PipelineRequest → Action (State W) PipelineRequest
  ask_again client req = do
    chunks ←
        within "LLM stream in tool loop: "
          (outside (client.stream (llm_request req (llm_messages req))))
    v ←
        collect add_int "LLM error in tool loop: " req.has_output chunks
          (record { content = ""; tool_calls = req.tool_calls; usage = req.usage })
    pure (record req { tool_calls = v.tool_calls; assistant_content = v.content; usage = v.usage })

  -- the rest of the loop is entered only if the model asked for more tools
  unfoldable pub continue_if :
      (PipelineRequest → Action (State W) PipelineRequest)
      → List ToolCall
      → PipelineRequest
      → Action (State W) PipelineRequest
  continue_if rest [] req = pure req
  continue_if rest (_ ∷ _) req = rest req

  unfoldable pub after_tools :
      (PipelineRequest → Action (State W) PipelineRequest)
      → Option (Llm.Client W)
      → PipelineRequest
      → Action (State W) PipelineRequest
  after_tools rest none req = pure req
  after_tools rest (some client) req = do
    req' ← ask_again client req
    continue_if rest req'.tool_calls req'

  -- `iterations` is `maxIter` less the rounds made
  unfoldable pub tool_loop : Executor W → ℕ → PipelineRequest → Action (State W) PipelineRequest
  tool_loop e zero req = pure req
  tool_loop e (suc iterations) req = do
    results ← run_calls e req.agent_id req.has_output req.tool_calls
    after_tools (tool_loop e iterations) d.llm_client (add_round req results)

  unfoldable pub start_loop :
      ℕ → Option (Executor W) → List ToolCall → PipelineRequest → Action (State W) PipelineRequest
  start_loop max_iter none tcs req = pure req
  start_loop max_iter (some e) [] req = pure req
  start_loop max_iter (some e) (_ ∷ _) req = tool_loop e max_iter req

  unfoldable pub execute_tools : ℕ → PipelineRequest → Action (State W) PipelineRequest
  execute_tools max_iter req = start_loop max_iter d.tool_executor req.tool_calls req
