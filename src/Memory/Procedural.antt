-- ===== src/Memory/Procedural.antt =====
-- internal/pond/memory/procedural.go: ProceduralStore.
use capyclaw.Prelude.{ℕ, String, Option, none, some, List, [], Int64}
use capyclaw.Action.{Action, pure, fail, within, ◌>>=◌, ◌>>◌}
use capyclaw.Burrow.Types.{Uuid}
use capyclaw.Memory.Entries.{
  MemoryEntry, Vector, Embedder, MemoryDb, vector_to_string, count_accesses, scan_memories, embed,
}

pub record ProceduralStore (W : Type 0) : Type 0 where
  pub pool : Option (MemoryDb W)
  pub embedder : Option (Embedder W)

module _ {W : Type 0} (text : ℕ → String) where
  -- `SearchByVector` over a pool
  unfoldable pub search_procedural :
      Uuid → Vector → Int64 → Option (MemoryDb W) → Action W (List MemoryEntry)
  unfolding vector_to_string count_accesses scan_memories
  search_procedural agent_id embedding limit none = pure []
  search_procedural agent_id embedding limit (some db) = do
    rows ←
        within "procedural search: "
          (db.search "procedural" agent_id (vector_to_string text embedding) limit)
    results ← λ w. (scan_memories "procedural" "scanning procedural memory: " rows, w)
    count_accesses db results

  -- `Store` over a pool, which gives the new memory's identifier
  unfoldable pub store_procedural :
      MemoryEntry → Option (Embedder W) → Option (MemoryDb W) → Action W Uuid
  unfolding embed
  store_procedural entry embedder none = fail "procedural store not initialized"
  store_procedural entry embedder (some db) = do
    id ← within "storing procedural memory: " (db.insert_memory "procedural" entry)
    embed text embedder db entry.content id
    pure id
