-- ===== src/Burrow/Deps.antt =====
-- What the stages are given (PipelineDeps of internal/burrow/pipeline.go), over the outside world
-- `W`. The repositories, the memory manager and the extractor stand by the calls that the stages
-- make; a pointer that may be nil is an `Option`.
use capyclaw.Prelude.{
  ℕ, String, Bool, Option, List, ◌∷◌, ◌++◌, [], Int64, Float64, FloatOps, if◌then◌else◌,
}
use capyclaw.Action.{Result, Action, ok}
use capyclaw.Llm
use capyclaw.Nibble.Registry.{ToolDef}
use capyclaw.Nibble.Executor.{Input, Executor, ExecutorState, on_world}
use capyclaw.Instinct.Context.{ContextManager}
use capyclaw.Instinct.Compaction.{Compactor}
use capyclaw.Burrow.Types.{Uuid, StreamChunk}

-- `pebble.Session`, without its time stamps
pub record StoredSession : Type 0 where
  pub id : Uuid
  pub agent_id : Uuid
  pub tenant_id : Uuid
  pub session_key : String
  pub compaction_count : Int64
  pub total_input_tokens : Int64
  pub total_output_tokens : Int64
  pub total_cost_usd : Float64
  pub context_summary : Option String
  pub status : String

pub record SessionRepository (W : Type 0) : Type 0 where
  pub get_or_create : Uuid → Uuid → String → Action W StoredSession
  pub update_token_counts : Uuid → Int64 → Int64 → Action W (Unit {0})

-- the fields of `pebble.Message` that the stages set or read; `content` and `usage` are JSON
pub record StoredMessage : Type 0 where
  pub session_id : Uuid
  pub tenant_id : Uuid
  pub role : String
  pub content : String
  pub model : Option String
  pub usage : Option String

pub record MessageRepository (W : Type 0) : Type 0 where
  pub append : StoredMessage → Action W (Unit {0})
  pub list_by_session : Uuid → ℕ → ℕ → Action W (List StoredMessage)

-- a row of the skills query
pub record SkillRow : Type 0 where
  pub name : String
  pub description : Option String
  pub content : Option String
  pub manifest : String
  pub sandbox_tier : String

pub record ManifestTool : Type 0 where
  pub name : String
  pub description : String
  pub parameters : String
  pub handler : String

pub record MemoryEntry : Type 0 where
  pub memory_type : String
  pub content : String

pub record ExtractionInput : Type 0 where
  pub agent_id : Uuid
  pub tenant_id : Uuid
  pub session_id : Uuid
  pub user_msg : String
  pub assistant_msg : String

-- `max_iterations` is that of `ToolExecution`
pub record BurrowConfig : Type 0 where
  pub default_model : String
  pub max_iterations : Int64

-- `uuid` and `encoding/json`, as far as the stages use them. A text that does not
-- decode is `none`; a tool's input decodes to a map or, from the JSON text `null`, to a nil map.
pub record Codec (W : Type 0) : Type 0 where
  pub new_uuid : Action W Uuid
  pub uuid_text : Uuid → String
  pub parse_uuid : String → Result Uuid
  pub decode_input : String → Option (Option Input)
  pub decode_text : String → Option String
  pub decode_manifest : String → Option (List ManifestTool)
  pub encode_text : String → String
  pub encode_usage : Llm.Usage → String

pub record PipelineDeps (W : Type 0) : Type 0 where
  pub session_repo : Option (SessionRepository W)
  pub message_repo : Option (MessageRepository W)
  pub llm_client : Option (Llm.Client W)
  pub config : Option BurrowConfig
  pub has_registry : Bool
  pub tool_executor : Option (Executor W)
  pub recall : Option (Uuid → String → ℕ → Action W (List MemoryEntry))
  pub extract_async : Option (ExtractionInput → Action W (Unit {0}))
  pub compactor : Option (Compactor W)
  pub context_mgr : Option ContextManager
  -- the skills query on the pool: an error, or for each row what `Scan` gave
  pub load_skills : Option (Uuid → Action W (List (Result SkillRow)))
  pub has_builtin : String → Bool
  pub range_tools : List ToolDef → List ToolDef
  pub codec : Codec W
  pub float : FloatOps

-- The executor's state with the shared registry, and what was sent on the output channel. The
-- channel's reader takes each chunk, so a send never waits.
pub record State (W : Type 0) : Type 0 where
  pub executor : ExecutorState W
  pub open executor use *
  pub out : List StreamChunk

module _ {W : Type 0} where
  -- an action of the executor, or on the world, as one of the pipeline
  unfoldable pub on_executor : {A : Type 0} → Action (ExecutorState W) A → Action (State W) A
  on_executor m s = let (r, e) = m s.executor in (r, record s { executor = e })

  unfoldable pub outside : {A : Type 0} → Action W A → Action (State W) A
  outside m = on_executor (on_world m)

  unfoldable pub emit : Bool → StreamChunk → State W → State W
  emit has_output c s = if has_output then record s { out = s.out ++ c ∷ [] } else s

  unfoldable pub send : Bool → StreamChunk → Action (State W) (Unit {0})
  send has_output c s = (ok tt, emit has_output c s)
