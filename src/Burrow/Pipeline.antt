-- ===== src/Burrow/Pipeline.antt =====
-- Pipeline of internal/burrow/pipeline.go, and Agent.ProcessMessage of agent.go.
pub mod Output
pub mod Prompt
use Prim.Native.String.{◌++◌ as append}
use capyclaw.Prelude.{
  ℕ, String, String_eq, ◌==◌, Bool, true, false, Option, none, some, List, [], ◌∷◌, ◌++◌, concat,
  Int64, int_lt, if◌then◌else◌,
}
use capyclaw.Action.{Result, ok, err, panicked, Action, ◌>>=◌}
use capyclaw.Burrow.Types.{
  Uuid, IncomingMessage, AgentConfig, StreamChunk, StreamType, PipelineRequest,
}
use capyclaw.Burrow.Deps.{BurrowConfig, PipelineDeps, State, emit}
use capyclaw.Burrow.Stages.SessionResolver.{resolve_session}
use capyclaw.Burrow.Stages.WorkspaceLoader.{load_workspace}
use capyclaw.Burrow.Stages.ModelSelector.{select_model}
use capyclaw.Burrow.Stages.PromptBuilder.{build_prompt}
use capyclaw.Burrow.Stages.ToolPolicyFilter.{filter_tools}
use capyclaw.Burrow.Stages.LlmInvoker.{invoke_llm}
use capyclaw.Burrow.Stages.ToolExecutor.{execute_tools}
use capyclaw.Burrow.Stages.SessionPersister.{persist}

pub record Stage (W : Type 0) : Type 0 where
  pub name : String
  pub process : PipelineRequest → Action (State W) PipelineRequest

unfoldable pub default_model : Option BurrowConfig → String
default_model none = "claude-sonnet-4-20250514"
default_model (some c) =
    if c.default_model == "" then "claude-sonnet-4-20250514" else c.default_model

unfoldable pub max_tool_iterations : Option BurrowConfig → ℕ
max_tool_iterations none = 10
max_tool_iterations (some c) = if int_lt 0 c.max_iterations then c.max_iterations else 10

abbrev pub end_chunk : StreamType → String → StreamChunk
end_chunk kind error = record { kind = kind; content = ""; error = error }

module _ {W : Type 0} where
  unfoldable pub new_pipeline : PipelineDeps W → List (Stage W)
  new_pipeline d =
      record { name = "session_resolver"; process = resolve_session d }
      ∷ record { name = "workspace_loader"; process = load_workspace d }
      ∷ record { name = "model_selector"; process = select_model (default_model d.config) }
      ∷ record { name = "prompt_builder"; process = build_prompt d }
      ∷ record { name = "tool_policy_filter"; process = filter_tools d }
      ∷ record { name = "llm_invoker"; process = invoke_llm d }
      ∷ record { name = "tool_executor"; process = execute_tools d (max_tool_iterations d.config) }
      ∷ record { name = "session_persister"; process = persist d }
      ∷ []

  -- the goroutine of `Execute`: stage after stage, and a last chunk unless a stage panics
  pub next_stage :
      (PipelineRequest → State W → Result (Unit {0}) × State W)
      → String
      → Result PipelineRequest
      → State W
      → Result (Unit {0}) × State W
  next_stage next name (ok req) s = next req s
  next_stage next name (err e) s = (
    ok tt,
    emit true
        (end_chunk StreamType.error (concat ("pipeline stage " ∷ name ∷ " failed: " ∷ e ∷ []))) s,
  )
  next_stage next name panicked s = (panicked, s)

  unfoldable pub run_stages : List (Stage W) → PipelineRequest → Action (State W) (Unit {0})
  run_stages [] req s = (ok tt, emit true (end_chunk StreamType.done "") s)
  run_stages (stage ∷ stages) req s =
      let (r, s') = stage.process req s in next_stage (run_stages stages) stage.name r s'

  -- what the reader of the channel gets until it is closed is the `out` of the last state
  unfoldable pub execute : List (Stage W) → PipelineRequest → Action (State W) (Unit {0})
  execute stages req = run_stages stages (record req { has_output = true })

abbrev pub new_request : Uuid → Uuid → IncomingMessage → AgentConfig → PipelineRequest
new_request agent_id tenant_id message config = record {
  agent_id = agent_id;
  tenant_id = tenant_id;
  message = message;
  agent_config = config;
  session = none;
  system_prompt = "";
  messages = [];
  tool_calls = [];
  available_tools = [];
  model = "";
  has_output = false;
  assistant_content = "";
  usage = none;
}

abbrev pub no_config : AgentConfig
no_config = record {
  name = "";
  slug = "";
  model = "";
  fallback_models = [];
  system_prompt = "";
  identity_md = "";
  soul_md = "";
  user_md = "";
  tool_policy = [];
  skills = [];
  memory_context = "";
}

-- the loop of `ExecutePrompt` over the chunks: a text, and an error if there was one
unfoldable pub read_chunks : String → List StreamChunk → String × Option String
read_chunks result [] = (result, none)
read_chunks result (c ∷ cs) = elim c.kind [
  | StreamType.text ↦ read_chunks (append result c.content) cs
  | StreamType.error ↦ (result, some (concat ("pipeline error: " ∷ c.error ∷ [])))
  | _ ↦ read_chunks result cs
]

-- what `ExecutePrompt` returns once the channel is closed, or if `Execute` failed
pub read_out :
    {W : Type 0} → Result (Unit {0}) × State W → Result (String × Option String) × State W
read_out (ok _, s) = (ok (read_chunks "" s.out), s)
read_out (err e, s) = (ok ("", some e), s)
read_out (panicked, s) = (panicked, s)

module _ {W : Type 0} (stages : List (Stage W)) where
  -- `Agent.ProcessMessage`
  unfoldable pub process_message :
      Uuid → Uuid → AgentConfig → IncomingMessage → Action (State W) (Unit {0})
  process_message id tenant_id config message =
      execute stages (new_request id tenant_id message config)

  pub run_prompt :
      String → String → Result Uuid → Result Uuid → Action (State W) (String × Option String)
  run_prompt prompt key (err e) tid s = (ok ("", some (concat ("invalid agent_id: " ∷ e ∷ []))), s)
  run_prompt prompt key (ok aid) (err e) s =
      (ok ("", some (concat ("invalid tenant_id: " ∷ e ∷ []))), s)
  run_prompt prompt key (ok aid) (ok tid) s = read_out (
      execute stages
        (new_request aid tid
          (record { session_key = key; content = prompt; role = "user"; user_id = "" }) no_config)
        (record s { out = [] }))
  run_prompt prompt key panicked tid s = (panicked, s)
  run_prompt prompt key (ok aid) panicked s = (panicked, s)

  -- `ExecutePrompt`: a channel of its own is made and read to its end
  unfoldable pub execute_prompt :
      PipelineDeps W → String → String → String → String → Action (State W) (String × Option String)
  execute_prompt d agent_id tenant_id prompt key =
      run_prompt prompt key (d.codec.parse_uuid agent_id) (d.codec.parse_uuid tenant_id)
