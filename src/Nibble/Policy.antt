-- ===== src/Nibble/Policy.antt =====
-- internal/burrow/nibble/policy.go
pub mod Cascade
use capyclaw.Prelude.{
  String, Option, none, some, List, [], ◌∷◌, Map, lookup, String_eq, ◌==◌, if◌then◌else◌,
}

-- any text of the configuration can stand here, besides the three constants
abbrev pub PolicyAction : Type 0
PolicyAction = String

abbrev pub policy_allow : PolicyAction
policy_allow = "allow"

abbrev pub policy_deny : PolicyAction
policy_deny = "deny"

abbrev pub policy_ask : PolicyAction
policy_ask = "ask"

pub record ToolPolicy : Type 0 where
  pub default_action : PolicyAction
  pub tool_overrides : Map String PolicyAction

-- one turn of the loop of `EvaluatePolicy`
unfoldable pub apply_policy : String → PolicyAction → ToolPolicy → PolicyAction
apply_policy tool action p = elim (lookup tool p.tool_overrides) [
  | some override ↦ override
  | none ↦ if p.default_action == "" then action else p.default_action
]

unfoldable pub apply_policies : String → PolicyAction → List ToolPolicy → PolicyAction
apply_policies tool action [] = action
apply_policies tool action (p ∷ ps) = apply_policies tool (apply_policy tool action p) ps

unfoldable pub evaluate_policy : String → List ToolPolicy → PolicyAction
unfolding apply_policies apply_policy
evaluate_policy tool policies = apply_policies tool policy_ask policies
