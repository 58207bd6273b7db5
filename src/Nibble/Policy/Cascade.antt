-- ===== src/Nibble/Policy/Cascade.antt =====
-- EvaluatePolicy: later policies override earlier ones.
use capyclaw.Prelude.{
  ◌∙◌, String, ◌≡◌, refl, Option, none, some, List, [], ◌∷◌, map, lookup, String_eq, ◌==◌, arith,
  if◌then◌else◌,
}
use capyclaw.Nibble.Policy.{
  PolicyAction, policy_ask, ToolPolicy, apply_policy, apply_policies, evaluate_policy,
}

-- what one policy says of a tool: its override, else its default if that is set
abbrev pub opinion : String → ToolPolicy → Option PolicyAction
opinion tool p = elim (lookup tool p.tool_overrides) [
  | some override ↦ some override
  | none ↦ if p.default_action == "" then none else some p.default_action
]

-- the last opinion of a list, or `d`
abbrev pub last_or : PolicyAction → List (Option PolicyAction) → PolicyAction
last_or d [] = d
last_or d (none ∷ os) = last_or d os
last_or d (some a ∷ os) = last_or a os

apply_policy-opinion :
    (tool : String) (action : PolicyAction) (p : ToolPolicy) (os : List (Option PolicyAction))
    → last_or (apply_policy tool action p) os ≡ last_or action (opinion tool p ∷ os)
unfolding apply_policy
apply_policy-opinion tool action p os = ground arith

apply_policies-last :
    (tool : String) (action : PolicyAction) (ps : List ToolPolicy)
    → apply_policies tool action ps ≡ last_or action (map (opinion tool) ps)
unfolding apply_policies
apply_policies-last tool action [] = refl
apply_policies-last tool action (p ∷ ps) =
    apply_policies-last tool (apply_policy tool action p) ps
    ∙ apply_policy-opinion tool action p (map (opinion tool) ps)

-- The last policy that says anything of the tool decides, by its override before its default, and
-- the answer is "ask" if none does.
pub evaluate_policy-last :
    (tool : String) (ps : List ToolPolicy)
    → evaluate_policy tool ps ≡ last_or policy_ask (map (opinion tool) ps)
unfolding evaluate_policy
evaluate_policy-last tool ps = apply_policies-last tool policy_ask ps
