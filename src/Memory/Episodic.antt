-- ===== src/Memory/Episodic.antt =====
-- internal/pond/memory/episodic.go: EpisodicStore.
use capyclaw.Prelude.{ℕ, String, Option, none, some, List, [], Int64}
use capyclaw.Action.{Action, pure, fail, within, ◌>>=◌, ◌>>◌}
use capyclaw.Burrow.Types.{Uuid}
use capyclaw.Memory.Entries.{
  MemoryEntry, Vector, Embedder, MemoryDb, vector_to_string, count_accesses, scan_memories, embed,
}

pub record EpisodicStore (W : Type 0) : Type 0 where
  pub pool : Option (MemoryDb W)
  pub embedder : Option (Embedder W)

module _ {W : Type 0} (text : ℕ → String) where
  -- `SearchByVector` over a pool
  unfoldable pub search_episodic :
      Uuid → Vector → Int64 → Option (MemoryDb W) → Action W (List MemoryEntry)
  unfolding vector_to_string count_accesses scan_memories
  search_episodic agent_id embedding limit none = pure []
  search_episodic agent_id embedding limit (some db) = do
    rows ←
        within "episodic search: "
          (db.search "episodic" agent_id (vector_to_string text embedding) limit)
    results ← λ w. (scan_memories "episodic" "scanning episodic memory: " rows, w)
    count_accesses db results

  -- `Store` over a pool, which gives the new memory's identifier
  unfoldable pub store_episodic :
      MemoryEntry → Option (Embedder W) → Option (MemoryDb W) → Action W Uuid
  unfolding embed
  store_episodic entry embedder none = fail "episodic store not initialized"
  store_episodic entry embedder (some db) = do
    id ← within "storing episodic memory: " (db.insert_memory "episodic" entry)
    embed text embedder db entry.content id
    pure id
