-- ===== src/Mudbath.antt =====
-- internal/burrow/mudbath/sandbox.go: sandbox tiers and the interface of a sandbox.
use capyclaw.Prelude.{
  String, Bool, ◌&&◌, ◌||◌, List, Map, Int64, ◌==◌, String_eq, if◌then◌else◌, Eq, arith, ◌≡◌, ◌↔◌,
  true, false,
}
use capyclaw.Action.{Action}

-- the code makes no tier but these three, so the default branches of its switches on a tier are
-- never taken
pub data Tier : Type 0 where
  wasm gvisor firecracker : Tier

abbrev pub tier_eq : Tier → Tier → Bool
tier_eq wasm wasm = true
tier_eq gvisor gvisor = true
tier_eq firecracker firecracker = true
tier_eq _ _ = false

pub tier_eq_iff : (a b : Tier) → (tier_eq a b ≡ true) ↔ (a ≡ b)
tier_eq_iff a b = ground arith

instance abbrev pub Tier_eq : Eq Tier
Tier_eq = record { same = tier_eq; same_iff = tier_eq_iff }

pub record ExecRequest : Type 0 where
  pub command : String
  pub args : List String
  pub stdin : String
  pub env : Map String String
  pub work_dir : String
  pub timeout_sec : Int64
  pub memory_mb : Int64

pub record ExecResult : Type 0 where
  pub stdout : String
  pub stderr : String
  pub exit_code : Int64
  pub error : String

pub record Sandbox (W : Type 0) : Type 0 where
  pub execute : ExecRequest → Action W ExecResult
  pub close : Action W (Unit {0})

unfoldable pub select_tier : String → Bool → Tier
select_tier source verified =
    if source == "bundled" || (source == "capyhub" && verified)
    then wasm
    else if source == "workspace" || source == "capyhub"
    then gvisor
    else firecracker

-- `NewSandbox`, from the constructors of the three implementations
pub record Sandboxes (W : Type 0) : Type 0 where
  pub new_wasm : Action W (Sandbox W)
  pub new_gvisor : Action W (Sandbox W)
  pub new_firecracker : Action W (Sandbox W)

unfoldable pub new_sandbox : {W : Type 0} → Sandboxes W → Tier → Action W (Sandbox W)
new_sandbox s wasm = s.new_wasm
new_sandbox s gvisor = s.new_gvisor
new_sandbox s firecracker = s.new_firecracker
