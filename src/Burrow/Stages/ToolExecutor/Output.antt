-- ===== src/Burrow/Stages/ToolExecutor/Output.antt =====
-- ToolExecutor sends nothing that ends the stream.
use capyclaw.Prelude.{ℕ, zero, suc, String, Bool, Option, none, some, List, [], ◌∷◌}
use capyclaw.Action.{Action}
use capyclaw.Llm
use capyclaw.Nibble.Executor.{Input, Executor}
use capyclaw.Nibble.Registry.{ToolDef, get}
use capyclaw.Burrow.Types.{Uuid, ToolCall, PipelineRequest}
use capyclaw.Burrow.Deps.{PipelineDeps, State}
use capyclaw.Burrow.Sends.{Sends, Sends-bind, Sends-send, sends_rules, IsBody}
use capyclaw.Burrow.Stages.Stream.Output.{collect-Sends}
use capyclaw.Burrow.Stages.ToolExecutor.{
  execute_with, call_found, run_call, tool_chunk, run_calls, ask_again, continue_if, after_tools,
  tool_loop, start_loop, execute_tools,
}

module _ {W : Type 0} (d : PipelineDeps W) where
  execute_with-Sends :
      (e : Executor W) (def : ToolDef) (tc : ToolCall) (i : Option Input)
      → Sends W _ (execute_with d e def tc i)
  unfolding execute_with
  execute_with-Sends e def tc none = search sends_rules
  execute_with-Sends e def tc (some i) = search sends_rules

  call_found-Sends :
      (e : Executor W) (id : Uuid) (tc : ToolCall) (o : Option ToolDef)
      → Sends W _ (call_found d e id tc o)
  unfolding call_found
  call_found-Sends e id tc none = search sends_rules
  call_found-Sends e id tc (some def) = search (sends_rules, execute_with-Sends)

  run_call-Sends : (e : Executor W) (id : Uuid) (tc : ToolCall) → Sends W _ (run_call d e id tc)
  unfolding run_call
  run_call-Sends e id tc = record {
    at = λ s. (call_found-Sends e id tc (get tc.name s.registry)).at s;
  }

  tool_chunk-IsBody : (output : String) → IsBody (tool_chunk d output)
  tool_chunk-IsBody output = record { not_done = λ e. cc; not_error = λ e. cc }

  run_calls-Sends :
      (e : Executor W) (id : Uuid) (has_output : Bool) (tcs : List ToolCall)
      → Sends W _ (run_calls d e id has_output tcs)
  unfolding run_calls
  run_calls-Sends e id has_output [] = search sends_rules
  run_calls-Sends e id has_output (tc ∷ tcs) = Sends-bind _ _ (run_call-Sends e id tc) (λ output.
      Sends-bind _ _ (Sends-send has_output _ (tool_chunk-IsBody output))
        (λ _. Sends-bind _ _ (run_calls-Sends e id has_output tcs) (λ _. search sends_rules)))

  ask_again-Sends :
      (client : Llm.Client W) (req : PipelineRequest) → Sends W _ (ask_again d client req)
  unfolding ask_again
  ask_again-Sends client req = search (sends_rules, collect-Sends)

  continue_if-Sends :
      (rest : PipelineRequest → Action (State W) PipelineRequest) (tcs : List ToolCall)
      (req : PipelineRequest)
      → ((r : PipelineRequest) → Sends W _ (rest r))
      → Sends W _ (continue_if d rest tcs req)
  unfolding continue_if
  continue_if-Sends rest [] req h = search sends_rules
  continue_if-Sends rest (_ ∷ _) req h = h req

  after_tools-Sends :
      (rest : PipelineRequest → Action (State W) PipelineRequest) (o : Option (Llm.Client W))
      (req : PipelineRequest)
      → ((r : PipelineRequest) → Sends W _ (rest r))
      → Sends W _ (after_tools d rest o req)
  unfolding after_tools
  after_tools-Sends rest none req h = search sends_rules
  after_tools-Sends rest (some client) req h =
      search (sends_rules, ask_again-Sends, continue_if-Sends)

  tool_loop-Sends :
      (e : Executor W) (n : ℕ) (req : PipelineRequest) → Sends W _ (tool_loop d e n req)
  unfolding tool_loop
  tool_loop-Sends e zero req = search sends_rules
  tool_loop-Sends e (suc n) req =
      Sends-bind _ _ (run_calls-Sends e req.agent_id req.has_output req.tool_calls)
        (λ results. after_tools-Sends (tool_loop d e n) d.llm_client _ (tool_loop-Sends e n))

  start_loop-Sends :
      (n : ℕ) (o : Option (Executor W)) (tcs : List ToolCall) (req : PipelineRequest)
      → Sends W _ (start_loop d n o tcs req)
  unfolding start_loop
  start_loop-Sends n none tcs req = search sends_rules
  start_loop-Sends n (some e) [] req = search sends_rules
  start_loop-Sends n (some e) (_ ∷ _) req = tool_loop-Sends e n req

  pub execute_tools-Sends :
      (n : ℕ) (req : PipelineRequest) → Sends W PipelineRequest (execute_tools d n req)
  unfolding execute_tools
  execute_tools-Sends n req = start_loop-Sends n d.tool_executor req.tool_calls req
