-- ===== src/Burrow/Stages/ToolExecutor/Rounds.antt =====
-- The messages that the tool loop of internal/burrow/pipeline.go adds.
use capyclaw.Prelude.{
  ℕ, zero, suc, ◌≡◌, ◌≢◌, refl, sym, ap, Bool, Option, none, some, List, [], ◌∷◌, ◌++◌, map,
}
use capyclaw.Action.OnOk.{OnOk, OnOk-bind, OnOk-any, OnOk-map, OnOk-eq}
use capyclaw.Action.{ok, Action, pure}
use capyclaw.Llm
use capyclaw.Nibble.Executor.{Executor}
use capyclaw.Burrow.Types.{Uuid, ToolCall, ToolResult, Message, PipelineRequest}
use capyclaw.Burrow.Deps.{PipelineDeps, State}
use capyclaw.Burrow.Stages.ToolExecutor.{
  run_calls, run_call, add_round, ask_again, continue_if, after_tools, tool_loop, start_loop,
  execute_tools, tool_message,
}

-- one result for each call, in the order of the calls
abbrev pub Answers : List ToolCall → List ToolResult → Type 0
Answers tcs results =
    map (λ (r : ToolResult). r.tool_use_id) results ≡ map (λ (c : ToolCall). c.id) tcs

-- at most `n` rounds took the messages from the first list to the second; a round adds what the model
-- said with its calls, of which there is one at least, and then one result for each call
pub data Rounds : ℕ → List Message → List Message → Type 0 where
  no_round : {n : ℕ} {ms : List Message} → Rounds n ms ms
  round :
      {n : ℕ} {ms ms' : List Message} (asked : Message) (results : List ToolResult)
      → asked.role ≡ "assistant"
      → asked.tool_calls ≢ []
      → Answers asked.tool_calls results
      → Rounds n ((ms ++ asked ∷ []) ++ tool_message results ∷ []) ms'
      → Rounds (suc n) ms ms'

module _ {W : Type 0} (d : PipelineDeps W) where
  run_calls-Answers :
      (e : Executor W) (id : Uuid) (has_output : Bool) (tcs : List ToolCall) (s : State W)
      → OnOk (Answers tcs) (run_calls d e id has_output tcs s).0
  unfolding run_calls pure
  run_calls-Answers e id has_output [] s = refl
  run_calls-Answers e id has_output (tc ∷ tcs) s =
      OnOk-bind (λ _. Unit) _ (run_call d e id tc) _ s (OnOk-any _)
        (λ output s _.
          OnOk-bind (λ _. Unit) _ _ _ s (OnOk-any _)
            (λ _ s _.
              OnOk-bind (Answers tcs) _ (run_calls d e id has_output tcs) _ s
                (run_calls-Answers e id has_output tcs s)
                (λ results s h. ap (λ ids. tc.id ∷ ids) h)))

  From : ℕ → List Message → PipelineRequest → Type 0
  From n ms req' = Rounds n ms req'.messages

  Keeps : PipelineRequest → PipelineRequest → Type 0
  Keeps req req' = req'.messages ≡ req.messages

  ask_again-Keeps :
      (client : Llm.Client W) (req : PipelineRequest) (s : State W)
      → OnOk (Keeps req) (ask_again d client req s).0
  unfolding ask_again Keeps pure
  ask_again-Keeps client req s =
      OnOk-bind (λ _. Unit) (Keeps req) _ _ s (OnOk-any _)
        (λ chunks s _. OnOk-bind (λ _. Unit) (Keeps req) _ _ s (OnOk-any _) (λ v s _. refl))

  -- the rest of the loop, on a request with a call
  Continues : ℕ → (PipelineRequest → Action (State W) PipelineRequest) → Type 0
  Continues n rest =
      (r : PipelineRequest) (s : State W)
      → r.tool_calls ≢ []
      → OnOk (From n r.messages) (rest r s).0

  continue_if-From :
      (n : ℕ) (rest : PipelineRequest → Action (State W) PipelineRequest) (tcs : List ToolCall)
      (req : PipelineRequest) (ms : List Message) (s : State W)
      → req.messages ≡ ms
      → req.tool_calls ≡ tcs
      → Continues n rest
      → OnOk (From n ms) (continue_if d rest tcs req s).0
  unfolding continue_if From pure Continues
  continue_if-From n rest [] req ms s e asked h = rw e no_round
  continue_if-From n rest (_ ∷ _) req ms s e asked h = rw (sym e) (h req s (λ none_left. cc))

  after_tools-From :
      (n : ℕ) (rest : PipelineRequest → Action (State W) PipelineRequest)
      (o : Option (Llm.Client W)) (req : PipelineRequest) (s : State W)
      → Continues n rest
      → OnOk (From n req.messages) (after_tools d rest o req s).0
  unfolding after_tools From pure Keeps Continues
  after_tools-From n rest none req s h = no_round
  after_tools-From n rest (some client) req s h =
      OnOk-bind (Keeps req) (From n req.messages) (ask_again d client req) _ s
        (ask_again-Keeps client req s)
        (λ req' s e. continue_if-From n rest req'.tool_calls req' req.messages s e refl h)

  tool_loop-Rounds :
      (e : Executor W) (n : ℕ) (req : PipelineRequest) (s : State W)
      → req.tool_calls ≢ []
      → OnOk (From n req.messages) (tool_loop d e n req s).0
  unfolding tool_loop From pure add_round Continues
  tool_loop-Rounds e zero req s asked = no_round
  tool_loop-Rounds e (suc n) req s asked =
      OnOk-bind (Answers req.tool_calls) (From (suc n) req.messages) _ _ s
        (run_calls-Answers e req.agent_id req.has_output req.tool_calls s)
        (λ results s h.
          OnOk-map (From n (add_round req results).messages) _
            (after_tools d (tool_loop d e n) d.llm_client (add_round req results) s).0
            (λ req'. round _ results refl asked h)
            (after_tools-From n (tool_loop d e n) d.llm_client (add_round req results) s
              (tool_loop-Rounds e n)))

  start_loop-Rounds :
      (n : ℕ) (o : Option (Executor W)) (tcs : List ToolCall) (req : PipelineRequest) (s : State W)
      → req.tool_calls ≡ tcs
      → OnOk (From n req.messages) (start_loop d n o tcs req s).0
  unfolding start_loop From pure
  start_loop-Rounds n none tcs req s e' = no_round
  start_loop-Rounds n (some e) [] req s e' = no_round
  start_loop-Rounds n (some e) (_ ∷ _) req s e' = tool_loop-Rounds e n req s (λ none_left. cc)

  -- When the tool stage succeeds, it has added at most `max_iter` rounds to the messages and changed
  -- nothing before them. A round is an assistant message with at least one call and then a message with
  -- one result for each of these calls, in their order and under their ids.
  pub execute_tools-Rounds :
      (max_iter : ℕ) (req req' : PipelineRequest) (s : State W)
      → (execute_tools d max_iter req s).0 ≡ ok req'
      → Rounds max_iter req.messages req'.messages
  unfolding execute_tools From
  execute_tools-Rounds max_iter req req' s h =
      OnOk-eq (From max_iter req.messages) _ req' h
        (start_loop-Rounds max_iter d.tool_executor req.tool_calls req s refl)
