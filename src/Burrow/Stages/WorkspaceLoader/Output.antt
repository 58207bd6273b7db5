-- ===== src/Burrow/Stages/WorkspaceLoader/Output.antt =====
-- WorkspaceLoader sends nothing that ends the stream.
use capyclaw.Prelude.{Option, none, some, List, [], ◌∷◌}
use capyclaw.Action.{Result, ok, err, panicked}
use capyclaw.Nibble.Registry.{ToolDef}
use capyclaw.Instinct.Builder.{SkillPrompt}
use capyclaw.Burrow.Types.{PipelineRequest}
use capyclaw.Burrow.Deps.{SkillRow, ManifestTool, PipelineDeps}
use capyclaw.Burrow.Sends.{Sends, Sends-bind, Sends-option, sends_rules}
use capyclaw.Burrow.Stages.WorkspaceLoader.{
  register_tool, tool_to_register, register_tools, register_manifest, load_rows, set_skills,
  with_skills, with_memories, load_workspace,
}

module _ {W : Type 0} (d : PipelineDeps W) where
  register_tool-Sends : (def : ToolDef) → Sends W _ (register_tool d def)
  unfolding register_tool
  register_tool-Sends def = search sends_rules

  register_tools-Sends :
      (row : SkillRow) (ts : List ManifestTool) → Sends W _ (register_tools d row ts)
  unfolding register_tools
  register_tools-Sends row [] = search sends_rules
  register_tools-Sends row (t ∷ ts) =
      Sends-option (tool_to_register d row t) _ _ (register_tools-Sends row ts)
        (λ def. Sends-bind _ _ (register_tool-Sends def) (λ _. register_tools-Sends row ts))

  register_manifest-Sends : (row : SkillRow) → Sends W _ (register_manifest d row)
  unfolding register_manifest
  register_manifest-Sends row = search (sends_rules, register_tools-Sends)

  load_rows-Sends :
      (rows : List (Result SkillRow)) (skills : List SkillPrompt)
      → Sends W _ (load_rows d rows skills)
  unfolding load_rows
  load_rows-Sends [] skills = search sends_rules
  load_rows-Sends (ok row ∷ rows) skills =
      search (sends_rules, register_manifest-Sends, load_rows-Sends rows)
  load_rows-Sends (err _ ∷ rows) skills = load_rows-Sends rows skills
  load_rows-Sends (panicked ∷ rows) skills = search sends_rules

  set_skills-Sends :
      (req : PipelineRequest) (rows : Option (List (Result SkillRow)))
      → Sends W _ (set_skills d req rows)
  unfolding set_skills
  set_skills-Sends req none = search sends_rules
  set_skills-Sends req (some rows) = search (sends_rules, load_rows-Sends)

  with_skills-Sends : (req : PipelineRequest) → Sends W _ (with_skills d req)
  unfolding with_skills
  with_skills-Sends req =
      Sends-option d.load_skills _ _ (search sends_rules)
        (λ query. search (sends_rules, set_skills-Sends))

  with_memories-Sends : (req : PipelineRequest) → Sends W _ (with_memories d req)
  unfolding with_memories
  with_memories-Sends req =
      Sends-option d.recall _ _ (search sends_rules) (λ recall. search sends_rules)

  pub load_workspace-Sends :
      (req : PipelineRequest) → Sends W PipelineRequest (load_workspace d req)
  unfolding load_workspace
  load_workspace-Sends req = search (sends_rules, with_skills-Sends, with_memories-Sends)
