-- ===== src/Nibble/Executor.antt =====
-- internal/burrow/nibble/executor.go, with GetBuiltin of builtins.go. Time does not pass in the
-- model: a result has no duration, and a timeout is an error that the callee returns.
pub mod Dispatch
use capyclaw.Prelude.{
  ℕ, String, Bool, true, false, Option, none, some, List, [], ◌∷◌, ◌++◌, Map, lookup, insert,
  concat, join, String_eq, ◌==◌, if◌then◌else◌, Int64,
}
use capyclaw.Action.{
  Result, ok, err, panicked, Action, pure, panic, attempt, within, ◌>>=◌, ◌>>◌, modify, continue,
}
use capyclaw.Mudbath.{
  Tier, wasm, gvisor, firecracker, Tier_eq, Sandbox, Sandboxes, ExecRequest, ExecResult,
  new_sandbox,
}
use capyclaw.Nibble.Registry.{ToolDef, Registry, get}

abbrev pub tier_wasm : String
tier_wasm = "wasm"

abbrev pub tier_gvisor : String
tier_gvisor = "gvisor"

abbrev pub tier_firecracker : String
tier_firecracker = "firecracker"

-- A value of a JSON object: a text, or any other value by its JSON text.
pub data Value : Type 0 where
  text : String → Value
  json : String → Value

abbrev pub Input : Type 0
Input = Map String Value

pub record ToolCall : Type 0 where
  pub id : String
  pub name : String
  pub input : Input

pub record ToolResult : Type 0 where
  pub call_id : String
  pub output : String
  pub error : String
  pub sandbox_tier : String

-- What the executor is set up with, over the outside world `W`: the built-in handlers, the MCP
-- caller if one was set, the sandbox constructors, `json.Marshal` of an input, and the timeout.
pub record Executor (W : Type 0) : Type 0 where
  pub get_builtin : String → Option (Input → Action W String)
  pub mcp_caller : Option (String → String → Input → Action W String)
  pub new_sandboxes : Sandboxes W
  pub marshal : Input → String
  pub timeout_seconds : Int64

-- what the executor reads and writes: the world, the shared registry, its cache of sandboxes
pub record ExecutorState (W : Type 0) : Type 0 where
  pub world : W
  pub registry : Registry
  pub sandboxes : Map Tier (Sandbox W)

unfoldable pub tier_from_string : String → Tier
tier_from_string tier =
    if tier == tier_wasm
    then wasm
    else if tier == tier_gvisor
    then gvisor
    else if tier == tier_firecracker
    then firecracker
    else wasm

abbrev pub tier_number : Tier → String
tier_number wasm = "1"
tier_number gvisor = "2"
tier_number firecracker = "3"

abbrev pub no_result : ToolCall → ToolResult
no_result call = record { call_id = call.id; output = ""; error = ""; sandbox_tier = "" }

-- stderr, then the sandbox's own error, take the place of an empty error
abbrev pub from_exec : ToolCall → String → ExecResult → ToolResult
from_exec call tier r = record (no_result call) {
  output = r.stdout;
  error = if r.error == "" then r.stderr else r.error;
  sandbox_tier = tier;
}

abbrev pub is_mcp : Option ToolDef → Option ToolDef
is_mcp none = none
is_mcp (some def) = if def.source == "mcp" then some def else none

note_failure : Tier → Result (Unit {0}) → List String → Result (List String)
note_failure tier (ok _) errs = ok errs
note_failure tier (err x) errs =
    ok (errs ++ concat ("closing tier " ∷ tier_number tier ∷ ": " ∷ x ∷ []) ∷ [])
note_failure tier panicked errs = panicked

closed : List String → Result (Unit {0})
closed [] = ok tt
closed (x ∷ xs) = err (concat ("closing sandboxes: [" ∷ join " " (x ∷ xs) ∷ "]" ∷ []))

module _ {W : Type 0} where
  -- an action on the world, as one on the executor's state
  unfoldable pub on_world : {A : Type 0} → Action W A → Action (ExecutorState W) A
  on_world m s = let (r, w) = m s.world in (r, record s { world = w })

  -- the new sandbox goes into the cache
  store : Tier → Result (Sandbox W) × ExecutorState W → Result (Sandbox W) × ExecutorState W
  store tier (ok sb, s) = (ok sb, record s { sandboxes = insert tier sb s.sandboxes })
  store tier (err x, s) =
      (err (concat ("creating sandbox tier " ∷ tier_number tier ∷ ": " ∷ x ∷ [])), s)
  store tier (panicked, s) = (panicked, s)

  unfoldable pub get_sandbox : Executor W → Tier → Action (ExecutorState W) (Sandbox W)
  unfolding store
  get_sandbox e tier s = elim (lookup tier s.sandboxes) [
    | some sb ↦ (ok sb, s)
    | none ↦ store tier (on_world (new_sandbox e.new_sandboxes tier) s)
  ]

  execute_mcp : Executor W → ToolCall → ToolDef → Action (ExecutorState W) ToolResult
  unfolding on_world attempt pure
  execute_mcp e call def = elim e.mcp_caller [
    | none ↦ pure (record (no_result call) { error = "MCP caller not configured" })
    | some call_tool ↦
        attempt (λ output. record (no_result call) { output = output })
          (λ x. record (no_result call) { error = concat ("MCP call failed: " ∷ x ∷ []) })
          (on_world (call_tool def.mcp_server_id def.mcp_tool_name call.input))
  ]

  execute_builtin : (Input → Action W String) → ToolCall → Action (ExecutorState W) ToolResult
  unfolding on_world attempt
  execute_builtin handler call =
      attempt (λ output. record (no_result call) { output = output })
        (λ x. record (no_result call) { error = x }) (on_world (handler call.input))

  abbrev pub exec_request : Executor W → ToolCall → ExecRequest
  exec_request e call = record {
    command = call.name;
    args = e.marshal call.input ∷ [];
    stdin = "";
    env = [];
    work_dir = "";
    timeout_sec = e.timeout_seconds;
    memory_mb = 256;
  }

  run_in : Executor W → ToolCall → String → Sandbox W → Action (ExecutorState W) ToolResult
  unfolding on_world attempt
  run_in e call tier sb =
      attempt (from_exec call tier)
        (λ x. record (no_result call) {
          error = concat ("execution failed: " ∷ x ∷ []);
          sandbox_tier = tier;
        })
        (on_world (sb.execute (exec_request e call)))

  after_sandbox :
      Executor W → ToolCall → String → Result (Sandbox W) → Action (ExecutorState W) ToolResult
  unfolding run_in panic pure
  after_sandbox e call tier (ok sb) = run_in e call tier sb
  after_sandbox e call tier (err x) = pure (record (no_result call) {
    error = concat ("sandbox initialization failed: " ∷ x ∷ []);
    sandbox_tier = tier;
  })
  after_sandbox e call tier panicked = panic

  execute_sandboxed : Executor W → ToolCall → String → Action (ExecutorState W) ToolResult
  unfolding get_sandbox after_sandbox
  execute_sandboxed e call tier s =
      let (r, s') = get_sandbox e (tier_from_string tier) s in after_sandbox e call tier r s'

  execute_local : Executor W → ToolCall → String → Action (ExecutorState W) ToolResult
  unfolding execute_builtin execute_sandboxed
  execute_local e call tier = elim (e.get_builtin call.name) [
    | some handler ↦ execute_builtin handler call
    | none ↦ execute_sandboxed e call tier
  ]

  unfoldable pub execute : Executor W → ToolCall → String → Action (ExecutorState W) ToolResult
  unfolding execute_mcp execute_local
  execute e call tier s = elim (is_mcp (get call.name s.registry)) [
    | some def ↦ execute_mcp e call def s
    | none ↦ execute_local e call tier s
  ]

  -- the loop of `Close`, with the errors so far
  close_all : Map Tier (Sandbox W) → List String → Action W (List String)
  unfolding note_failure
  close_all [] errs w = (ok errs, w)
  close_all ((tier, sb) ∷ rest) errs w =
      let (r, w') = sb.close w in continue (note_failure tier r errs) (close_all rest) w'

  -- `range` is the order in which Go ranges over the sandboxes
  unfoldable pub close :
      (Map Tier (Sandbox W) → Map Tier (Sandbox W)) → Action (ExecutorState W) (Unit {0})
  unfolding on_world modify close_all closed
  close range s =
      let (r, s') = on_world (close_all (range s.sandboxes) []) s in
      continue r (λ errs t. (closed errs, record t { sandboxes = [] })) s'
