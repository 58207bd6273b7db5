-- ===== src/Burrow/Stages/ToolPolicyFilter.antt =====
-- ToolPolicyFilter.Process
pub mod Output
pub mod Allowed
use capyclaw.Prelude.{
  String, String_eq, ◌==◌, Bool, Option, none, some, List, [], ◌∷◌, Map, insert, if◌then◌else◌,
}
use capyclaw.Action.{Action, ok}
use capyclaw.Llm
use capyclaw.Nibble.Registry.{ToolDef, list}
use capyclaw.Nibble.Policy.{ToolPolicy, policy_allow, policy_deny, evaluate_policy}
use capyclaw.Burrow.Types.{PipelineRequest}
use capyclaw.Burrow.Deps.{PipelineDeps, State}

abbrev pub initial_policy : ToolPolicy
initial_policy = record { default_action = policy_allow; tool_overrides = [] }

-- one turn of the loop over the configured policy
unfoldable pub add_entry : ToolPolicy → String → String → ToolPolicy
add_entry p tool action =
    if tool == "default"
    then record p { default_action = action }
    else record p { tool_overrides = insert tool action p.tool_overrides }

-- The loop ranges over a map. Each key comes once, so the order does not matter.
unfoldable pub build_policy : ToolPolicy → Map String String → ToolPolicy
build_policy p [] = p
build_policy p ((tool, action) ∷ rest) = build_policy (add_entry p tool action) rest

unfoldable pub agent_policy : Map String String → ToolPolicy
agent_policy = build_policy initial_policy

abbrev pub to_llm_tool : ToolDef → Llm.Tool
to_llm_tool t = record { name = t.name; description = t.description; parameters = t.parameters }

unfoldable pub allowed_tools : ToolPolicy → List ToolDef → List Llm.Tool
allowed_tools policy [] = []
allowed_tools policy (t ∷ ts) =
    if evaluate_policy t.name (policy ∷ []) == policy_deny
    then allowed_tools policy ts
    else to_llm_tool t ∷ allowed_tools policy ts

pub set_allowed : PipelineRequest → List ToolDef → PipelineRequest
set_allowed req [] = req
set_allowed req (t ∷ ts) = record req {
  available_tools = allowed_tools (agent_policy req.agent_config.tool_policy) (t ∷ ts);
}

module _ {W : Type 0} where
  unfoldable pub filter_tools : PipelineDeps W → PipelineRequest → Action (State W) PipelineRequest
  filter_tools d req s =
      (ok (if d.has_registry then set_allowed req (list d.range_tools s.registry) else req), s)
