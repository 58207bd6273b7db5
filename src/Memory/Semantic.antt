-- ===== src/Memory/Semantic.antt =====
-- internal/pond/memory/semantic.go: SemanticStore. The search engine is a parameter.
use capyclaw.Prelude.{String, Option, none, some, List, [], map, Int64, Float64}
use capyclaw.Action.{Action, pure, fail, within, ◌>>=◌}
use capyclaw.Burrow.Types.{Uuid, nil_uuid}
use capyclaw.Memory.Entries.{MemoryEntry, Vector, MemoryDb, count_accesses}

pub record SearchResult : Type 0 where
  pub id : Uuid
  pub content : String
  pub importance_score : Float64

-- `Search` for an agent, with an embedding, a type and a limit
abbrev pub SearchEngine : Type 0 → Type 0
SearchEngine W = Uuid → Vector → String → Int64 → Action W (List SearchResult)

pub record SemanticStore (W : Type 0) : Type 0 where
  pub pool : Option (MemoryDb W)
  pub search : Option (SearchEngine W)

-- an entry for a result; what the engine does not give keeps its zero value
abbrev pub to_entry : Uuid → SearchResult → MemoryEntry
to_entry agent_id r = record {
  id = r.id;
  agent_id = agent_id;
  tenant_id = nil_uuid;
  memory_type = "semantic";
  content = r.content;
  importance_score = r.importance_score;
  source_session_id = none;
  access_count = 0;
}

module _ {W : Type 0} where
  unfoldable pub results_of :
      Uuid → Vector → Int64 → Option (SearchEngine W) → Action W (List MemoryEntry)
  results_of agent_id embedding limit none = pure []
  results_of agent_id embedding limit (some engine) = do
    found ← within "semantic vector search: " (engine agent_id embedding "semantic" limit)
    pure (map (to_entry agent_id) found)

  -- `SearchByVector` over an engine and a pool
  unfoldable pub search_semantic :
      Uuid
      → Vector
      → Int64
      → Option (SearchEngine W)
      → Option (MemoryDb W)
      → Action W (List MemoryEntry)
  unfolding results_of count_accesses
  search_semantic agent_id embedding limit engine none = pure []
  search_semantic agent_id embedding limit engine (some db) = do
    results ← results_of agent_id embedding limit engine
    count_accesses db results

  -- `Store` over a pool, which gives the new memory's identifier
  unfoldable pub store_semantic : MemoryEntry → Option (MemoryDb W) → Action W Uuid
  store_semantic entry none = fail "semantic store not initialized"
  store_semantic entry (some db) =
      within "storing semantic memory: " (db.insert_memory "semantic" entry)
