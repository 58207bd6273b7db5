-- ===== src/Burrow/Stages/ToolPolicyFilter/Allowed.antt =====
-- Which tools ToolPolicyFilter of internal/burrow/pipeline.go offers to the model.
use capyclaw.Prelude.{
  String, String_eq, ◌==◌, ◌≡◌, refl, sym, ap, ◌∙◌, true, false, Option, none, some, List, [], ◌∷◌,
  map, Map, lookup, insert, lookup-insert, Bool-cases, Option-cases, inl, inr, if◌then◌else◌, arith,
}
use capyclaw.Nibble.Registry.{ToolDef}
use capyclaw.Nibble.Policy.{
  PolicyAction, ToolPolicy, policy_ask, policy_allow, policy_deny, apply_policy, apply_policies,
  evaluate_policy,
}
use capyclaw.Burrow.Stages.ToolPolicyFilter.{
  initial_policy, add_entry, build_policy, agent_policy, to_llm_tool, allowed_tools,
}

-- the keys of a Go map are distinct
pub data DistinctKeys : Map String String → Type 0 where
  empty : DistinctKeys []
  also :
      {k v : String} {m : Map String String}
      → lookup k m ≡ none
      → DistinctKeys m
      → DistinctKeys ((k, v) ∷ m)

abbrev pub or_else : Option PolicyAction → PolicyAction → PolicyAction
or_else (some a) d = a
or_else none d = d

-- the action that a configuration means for a tool: its own entry, else "default", else "allow"
abbrev pub configured : Map String String → String → PolicyAction
configured config tool =
    or_else (lookup tool config) (or_else (lookup "default" config) policy_allow)

module _ (k v : String) (p : ToolPolicy) where
  add_entry-default : (k == "default") ≡ true → add_entry p k v ≡ record p { default_action = v }
  unfolding add_entry
  add_entry-default e = rw (e, add_entry) refl

  add_entry-override :
      (k == "default") ≡ false
      → add_entry p k v ≡ record p { tool_overrides = insert k v p.tool_overrides }
  unfolding add_entry
  add_entry-override e = rw (e, add_entry) refl

lookup-here :
    (k j v : String) (m : Map String String) → (k == j) ≡ true → lookup j ((k, v) ∷ m) ≡ some v
unfolding lookup
lookup-here k j v m e = rw (e, lookup) refl

lookup-there :
    (k j v : String) (m : Map String String) → (k == j) ≡ false → lookup j ((k, v) ∷ m) ≡ lookup j m
unfolding lookup
lookup-there k j v m e = rw (e, lookup) refl

fresh-lookup :
    (k j : String) (m : Map String String) → (k == j) ≡ true → lookup k m ≡ none → lookup j m ≡ none
fresh-lookup k j m e h = ap (λ x. lookup x m) (sym ((String_eq.same_iff k j).0 e)) ∙ h

pub offered : Map String String → List ToolDef → List ToolDef
offered config [] = []
offered config (t ∷ ts) =
    if configured config t.name == policy_deny then offered config ts else t ∷ offered config ts

build_policy-default :
    (config : Map String String) (p : ToolPolicy)
    → DistinctKeys config
    → (build_policy p config).default_action ≡ or_else (lookup "default" config) p.default_action
unfolding build_policy
build_policy-default [] p empty = unfold lookup in refl
build_policy-default ((k, v) ∷ m) p (also fresh h) = elim (Bool-cases (k == "default")) [
  | inl e ↦
      build_policy-default m (add_entry p k v) h
      ∙ rw
          (
            add_entry-default k v p e,
            lookup-here k "default" v m e,
            fresh-lookup k "default" m e fresh,
          )
          refl
  | inr e ↦
      build_policy-default m (add_entry p k v) h
      ∙ rw (add_entry-override k v p e, lookup-there k "default" v m e) refl
]

-- the override of a tool that has one in the policy or in the configuration
module _ (tool : String) (d : PolicyAction) (fine : (tool == "default") ≡ false) where
  default-ne : (k : String) → (k == "default") ≡ true → (k == tool) ≡ false
  default-ne k e = ground (
    arith,
    String_eq.same_iff k "default",
    String_eq.same_iff k tool,
    String_eq.same_iff tool "default",
  )

  entry :
      (k v : String) (m : Map String String) (p : ToolPolicy)
      → lookup k m ≡ none
      → or_else
          (lookup tool m)
          (or_else (if k == tool then some v else lookup tool p.tool_overrides) d)
        ≡ or_else (lookup tool ((k, v) ∷ m)) (or_else (lookup tool p.tool_overrides) d)
  entry k v m p fresh = elim (Bool-cases (k == tool)) [
    | inl e ↦ rw (lookup-here k tool v m e, fresh-lookup k tool m e fresh, e) refl
    | inr e ↦ rw (lookup-there k tool v m e, e) refl
  ]

  build_policy-override :
      (config : Map String String) (p : ToolPolicy)
      → DistinctKeys config
      → or_else (lookup tool (build_policy p config).tool_overrides) d
        ≡ or_else (lookup tool config) (or_else (lookup tool p.tool_overrides) d)
  unfolding build_policy
  build_policy-override [] p empty = unfold lookup in refl
  build_policy-override ((k, v) ∷ m) p (also fresh h) = elim (Bool-cases (k == "default")) [
    | inl e ↦
        build_policy-override m (add_entry p k v) h
        ∙ rw (add_entry-default k v p e, lookup-there k tool v m (default-ne k e)) refl
    | inr e ↦
        build_policy-override m (add_entry p k v) h
        ∙ rw (add_entry-override k v p e, lookup-insert k tool v p.tool_overrides)
            (entry k v m p fresh)
  ]

-- a tool called "default" has no override
build_policy-no_override :
    (config : Map String String) (p : ToolPolicy)
    → lookup "default" (build_policy p config).tool_overrides ≡ lookup "default" p.tool_overrides
unfolding build_policy
build_policy-no_override [] p = refl
build_policy-no_override ((k, v) ∷ m) p = elim (Bool-cases (k == "default")) [
  | inl e ↦ build_policy-no_override m (add_entry p k v) ∙ rw (add_entry-default k v p e) refl
  | inr e ↦
      build_policy-no_override m (add_entry p k v)
      ∙ rw (add_entry-override k v p e, lookup-insert k "default" v p.tool_overrides, e) refl
]

abbrev or_ask : PolicyAction → PolicyAction
or_ask d = if d == "" then policy_ask else d

evaluate-one :
    (tool : String) (p : ToolPolicy)
    → evaluate_policy tool (p ∷ [])
      ≡ or_else (lookup tool p.tool_overrides) (or_ask p.default_action)
unfolding evaluate_policy apply_policies apply_policy
evaluate-one tool p = elim (Option-cases (lookup tool p.tool_overrides)) [
  | inl h ↦ rw (h, evaluate_policy, apply_policies, apply_policy) refl
  | inr (a, h) ↦ rw (h, evaluate_policy, apply_policies, apply_policy) refl
]

or_ask-deny :
    (o : Option PolicyAction) (d : PolicyAction)
    → (or_else o (or_ask d) == policy_deny) ≡ (or_else o d == policy_deny)
or_ask-deny (some a) d = refl
or_ask-deny none d = elim (Bool-cases (d == "")) [
  | inl e ↦ rw (e, (String_eq.same_iff d "").0 e) refl
  | inr e ↦ rw e refl
]

or_else-twice : (o : Option PolicyAction) (d : PolicyAction) → or_else o (or_else o d) ≡ or_else o d
or_else-twice (some a) d = refl
or_else-twice none d = refl

module _ (config : Map String String) (h : DistinctKeys config) where
  evaluate-configured :
      (tool : String)
      → (tool == "default") ≡ false
      → evaluate_policy tool (agent_policy config ∷ [])
        ≡ or_else (lookup tool config) (or_ask (or_else (lookup "default" config) policy_allow))
  unfolding agent_policy lookup
  evaluate-configured tool e =
      evaluate-one tool (agent_policy config)
      ∙ rw (build_policy-default config initial_policy h) (
          build_policy-override tool (or_ask (or_else (lookup "default" config) policy_allow)) e
            config initial_policy h)

  evaluate-default :
      evaluate_policy "default" (agent_policy config ∷ [])
      ≡ or_ask (or_else (lookup "default" config) policy_allow)
  unfolding agent_policy lookup
  evaluate-default =
      evaluate-one "default" (agent_policy config)
      ∙ rw
          (
            build_policy-default config initial_policy h,
            build_policy-no_override config initial_policy,
          )
          refl

  evaluate-denies :
      (tool : String)
      → (evaluate_policy tool (agent_policy config ∷ []) == policy_deny)
        ≡ (configured config tool == policy_deny)
  evaluate-denies tool = elim (Bool-cases (tool == "default")) [
    | inl e ↦
        rw ((String_eq.same_iff tool "default").0 e, evaluate-default)
          (or_ask-deny none (or_else (lookup "default" config) policy_allow)
            ∙ rw (or_else-twice (lookup "default" config) policy_allow) refl)
    | inr e ↦
        rw (evaluate-configured tool e)
          (or_ask-deny (lookup tool config) (or_else (lookup "default" config) policy_allow))
  ]

  -- Of the registered tools, those are offered to the model whose configured action is not "deny",
  -- in their order: a tool's own entry counts before the entry "default", and without both the
  -- tool is offered. The keys of the configuration are distinct.
  pub allowed_tools-configured :
      (ts : List ToolDef)
      → allowed_tools (agent_policy config) ts ≡ map to_llm_tool (offered config ts)
  unfolding allowed_tools offered
  allowed_tools-configured [] = refl
  allowed_tools-configured (t ∷ ts) = elim (Bool-cases (configured config t.name == policy_deny)) [
    | inl e ↦ rw (evaluate-denies t.name, e, allowed_tools, offered) (allowed_tools-configured ts)
    | inr e ↦
        rw (evaluate-denies t.name, e, allowed_tools, offered)
          (ap (λ l. to_llm_tool t ∷ l) (allowed_tools-configured ts))
  ]
