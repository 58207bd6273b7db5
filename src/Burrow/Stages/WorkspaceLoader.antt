-- ===== src/Burrow/Stages/WorkspaceLoader.antt =====
-- WorkspaceLoader.Process: skills and their tools, then memories.
pub mod Output
use capyclaw.Prelude.{
  String, String_eq, ◌==◌, Bool, not, ◌||◌, Option, none, some, List, [], ◌∷◌, ◌++◌, concat,
  if◌then◌else◌,
}
use capyclaw.Action.{Result, ok, err, panicked, Action, pure, panic, modify, attempt, ◌>>=◌, ◌>>◌}
use capyclaw.Nibble.Registry.{ToolDef, register}
use capyclaw.Nibble.Executor.{ExecutorState}
use capyclaw.Instinct.Builder.{SkillPrompt}
use capyclaw.Burrow.Types.{Uuid, PipelineRequest}
use capyclaw.Burrow.Deps.{
  SkillRow, ManifestTool, MemoryEntry, PipelineDeps, State, outside, on_executor,
}
use capyclaw.Burrow.Stages.SessionResolver.{or_empty}

abbrev pub to_skill : SkillRow → SkillPrompt
to_skill row = record {
  name = row.name;
  description = or_empty row.description;
  content = or_empty row.content;
}

abbrev pub to_tool_def : SkillRow → ManifestTool → String → ToolDef
to_tool_def row t source = record {
  name = t.name;
  description = t.description;
  parameters = t.parameters;
  sandbox_tier = row.sandbox_tier;
  source = source;
  mcp_server_id = "";
  mcp_tool_name = "";
}

module _ {W : Type 0} (d : PipelineDeps W) where
  pub register_tool : ToolDef → Action (State W) (Unit {0})
  register_tool def =
      on_executor
        (modify (λ (s : ExecutorState W). record s { registry = register def s.registry }))

  -- a tool that claims a built-in handler is registered only if there is one
  unfoldable pub tool_to_register : SkillRow → ManifestTool → Option ToolDef
  tool_to_register row t =
      if t.handler == "builtin"
      then if d.has_builtin t.name then some (to_tool_def row t "bundled") else none
      else some (to_tool_def row t "skill")

  pub register_tools : SkillRow → List ManifestTool → Action (State W) (Unit {0})
  register_tools row [] = pure tt
  register_tools row (t ∷ ts) = elim (tool_to_register row t) [
    | none ↦ register_tools row ts
    | some def ↦ do register_tool def; register_tools row ts
  ]

  abbrev pub tools_of : Option (List ManifestTool) → List ManifestTool
  tools_of (some tools) = tools
  tools_of none = []

  pub register_manifest : SkillRow → Action (State W) (Unit {0})
  register_manifest row =
      if not d.has_registry || row.manifest == ""
      then pure tt
      else register_tools row (tools_of (d.codec.decode_manifest row.manifest))

  -- the loop over the rows; a row that does not scan is skipped
  pub load_rows : List (Result SkillRow) → List SkillPrompt → Action (State W) (List SkillPrompt)
  load_rows [] skills = pure skills
  load_rows (ok row ∷ rows) skills = do
    register_manifest row
    load_rows rows (skills ++ to_skill row ∷ [])
  load_rows (err _ ∷ rows) skills = load_rows rows skills
  load_rows (panicked ∷ rows) skills = panic

  pub set_skills :
      PipelineRequest → Option (List (Result SkillRow)) → Action (State W) PipelineRequest
  set_skills req none = pure req
  set_skills req (some rows) = do
    skills ← load_rows rows []
    pure (record req { agent_config = record req.agent_config { skills = skills } })

  pub with_skills : PipelineRequest → Action (State W) PipelineRequest
  with_skills req = elim d.load_skills [
    | none ↦ pure req
    | some query ↦ do
      rows ← attempt (λ rows. some rows) (λ _. none) (outside (query req.agent_id))
      set_skills req rows
  ]

  pub memory_lines : List MemoryEntry → List String
  memory_lines [] = []
  memory_lines (m ∷ ms) =
      concat ("- [" ∷ m.memory_type ∷ "] " ∷ m.content ∷ "\n" ∷ []) ∷ memory_lines ms

  pub set_memories : PipelineRequest → List MemoryEntry → PipelineRequest
  set_memories req [] = req
  set_memories req (m ∷ ms) = record req {
    agent_config = record req.agent_config { memory_context = concat (memory_lines (m ∷ ms)) };
  }

  pub with_memories : PipelineRequest → Action (State W) PipelineRequest
  with_memories req = elim d.recall [
    | none ↦ pure req
    | some recall ↦
        attempt (set_memories req) (λ _. req) (outside (recall req.agent_id req.message.content 10))
  ]

  unfoldable pub load_workspace : PipelineRequest → Action (State W) PipelineRequest
  load_workspace req = do req' ← with_skills req; with_memories req'
