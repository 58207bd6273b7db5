-- ===== src/Burrow/Stages/ToolExecutor/Tiers.antt =====
-- The tier that ToolExecutor picks for a tool, and the one that the executor reads back.
use capyclaw.Prelude.{String, String_eq, ◌==◌, ◌≡◌, refl, sym, ◌∙◌, true, arith}
use capyclaw.Mudbath.{Tier, wasm, gvisor, firecracker, select_tier}
use capyclaw.Nibble.Executor.{tier_from_string}
use capyclaw.Nibble.Registry.{ToolDef}
use capyclaw.Burrow.Stages.ToolExecutor.{tier_to_string, tool_tier}

-- The executor reads a printed tier back as the same tier.
pub tier_from_string-tier_to_string : (t : Tier) → tier_from_string (tier_to_string t) ≡ t
unfolding tier_from_string tier_to_string
tier_from_string-tier_to_string wasm = refl
tier_from_string-tier_to_string gvisor = refl
tier_from_string-tier_to_string firecracker = refl

select_tier-bundled :
    (source : String)
    → select_tier source (source == "bundled") ≡ wasm
    → (source == "bundled") ≡ true
unfolding select_tier
select_tier-bundled source h = ground arith

-- A tool whose tier the executor reads as the one of WASM, the tier with the least isolation, is a
-- bundled tool.
pub tool_tier-bundled :
    (def : ToolDef) → tier_from_string (tool_tier def) ≡ wasm → def.source ≡ "bundled"
unfolding tool_tier
tool_tier-bundled def h = (String_eq.same_iff def.source "bundled").0 (
    select_tier-bundled def.source (
      sym (tier_from_string-tier_to_string (select_tier def.source (def.source == "bundled"))) ∙ h))
