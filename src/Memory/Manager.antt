-- ===== src/Memory/Manager.antt =====
-- internal/pond/memory/manager.go: Manager, over the three stores.
pub mod Layers
use capyclaw.Prelude.{
  ℕ, ◌+◌, ◌/◌, ◌^◌, ltb, String, String_eq, ◌==◌, Option, none, some, List, [], ◌∷◌, ◌++◌, length,
  concat, Int64, int_lt, if◌then◌else◌,
}
use capyclaw.Action.{Result, ok, err, panicked, Action, pure, fail, attempt, context, within, ◌>>=◌}
use capyclaw.Burrow.Types.{Uuid}
use capyclaw.Sql.{Arg, scan_rows}
use capyclaw.Memory.Entries.{MemoryEntry, Vector, Embedder, MemoryDb}
use capyclaw.Memory.Episodic.{EpisodicStore, search_episodic, store_episodic}
use capyclaw.Memory.Semantic.{SemanticStore, search_semantic, store_semantic}
use capyclaw.Memory.Procedural.{ProceduralStore, search_procedural, store_procedural}

pub record Manager (W : Type 0) : Type 0 where
  pub episodic : EpisodicStore W
  pub semantic : SemanticStore W
  pub procedural : ProceduralStore W
  pub pool : MemoryDb W
  pub embedder : Option (Embedder W)

-- a third of the limit, and 1 if that is less than 1, as it is of a negative number
unfoldable pub per_type : Int64 → Int64
per_type limit = if int_lt limit 3 then 1 else limit / 3

-- the statement of `List`
abbrev pub list_base : String
list_base =
    "SELECT id, agent_id, tenant_id, memory_type, content, importance_score, created_at FROM memories WHERE agent_id = $1"

unfoldable pub list_clause : String → Arg → String → String × List Arg
list_clause base agent memory_type =
    if memory_type == ""
    then (base, agent ∷ [])
    else (concat (base ∷ " AND memory_type = $2" ∷ []), agent ∷ Arg.text memory_type ∷ [])

unfoldable pub list_statement : (ℕ → String) → Arg → String → ℕ → ℕ → String × List Arg
unfolding list_clause
list_statement number_text agent memory_type limit offset =
    let (query, args) = list_clause list_base agent memory_type in
    (
      concat (
          query
          ∷ " ORDER BY created_at DESC LIMIT $"
          ∷ number_text (length args + 1)
          ∷ " OFFSET $"
          ∷ number_text (length args + 2)
          ∷ []),
      args ++ Arg.int limit ∷ Arg.int offset ∷ [],
    )

-- a search whose error is dropped
abbrev pub found_or_none : {W A : Type 0} → Action W (List A) → Action W (List A)
found_or_none m = attempt (λ rs. rs) (λ e. []) m

-- `text` is the verb %g of a float32 pattern
module _ {W : Type 0} (text : ℕ → String) (m : Manager W) where
  -- the three searches
  unfoldable pub recall_all : Uuid → Vector → Int64 → Action W (List MemoryEntry)
  unfolding search_episodic search_semantic search_procedural
  recall_all agent_id embedding limit = do
    episodic ← found_or_none (search_episodic text agent_id embedding limit m.episodic.pool)
    semantic ←
        found_or_none (search_semantic agent_id embedding limit m.semantic.search m.semantic.pool)
    procedural ← found_or_none (search_procedural text agent_id embedding limit m.procedural.pool)
    pure ((episodic ++ semantic) ++ procedural)

  unfoldable pub recall_with : Uuid → Int64 → Result Vector → Action W (List MemoryEntry)
  unfolding recall_all per_type
  recall_with agent_id limit (ok embedding) w = recall_all agent_id embedding (per_type limit) w
  recall_with agent_id limit (err e) w = (ok [], w)
  recall_with agent_id limit panicked w = (panicked, w)

  unfoldable pub recall_by :
      Option (Embedder W) → Uuid → String → Int64 → Action W (List MemoryEntry)
  unfolding recall_with
  recall_by none agent_id query limit w = (ok [], w)
  recall_by (some embedder) agent_id query limit w =
      let (r, w') = embedder query w in recall_with agent_id limit r w'

  -- `Recall`
  abbrev pub recall : Uuid → String → Int64 → Action W (List MemoryEntry)
  recall = recall_by m.embedder

  -- `Store`
  unfoldable pub store : MemoryEntry → Action W Uuid
  unfolding store_episodic store_semantic store_procedural
  store entry =
      if entry.memory_type == "episodic"
      then store_episodic text entry m.episodic.embedder m.episodic.pool
      else if entry.memory_type == "semantic"
      then store_semantic entry m.semantic.pool
      else if entry.memory_type == "procedural"
      then store_procedural text entry m.procedural.embedder m.procedural.pool
      else fail (concat ("unknown memory type: " ∷ entry.memory_type ∷ []))

  -- `Delete`
  unfoldable pub delete_memory : Uuid → Uuid → Action W (Unit {0})
  delete_memory memory_id agent_id = m.pool.remove memory_id agent_id

  -- `List`; the text of a number and of an identifier are parameters
  unfoldable pub list_memories :
      (ℕ → String) → (Uuid → String) → Uuid → String → ℕ → ℕ → Action W (List MemoryEntry)
  unfolding list_statement
  list_memories number_text uuid_text agent_id memory_type limit offset =
      let (query, args) =
        list_statement number_text (Arg.uuid (uuid_text agent_id)) memory_type limit offset in
      do
        rows ← within "listing memories: " (m.pool.query query args)
        λ w. (context "scanning memory: " (scan_rows rows []), w)
