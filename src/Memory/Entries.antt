-- ===== src/Memory/Entries.antt =====
-- The memory records of internal/pond/memory, and what the three stores share. The time of a memory's
-- creation is left out. A vector's component is the pattern of a float32, and its verb %g a parameter.
use capyclaw.Prelude.{
  ℕ, String, Option, none, some, List, [], ◌∷◌, map, concat, join, Int64, Float64,
}
use capyclaw.Action.{Result, ok, err, panicked, Action, pure, attempt, context, ◌>>=◌, ◌>>◌}
use capyclaw.Burrow.Types.{Uuid}
use capyclaw.Sql.{Arg, scan_rows}

pub record MemoryEntry : Type 0 where
  pub id : Uuid
  pub agent_id : Uuid
  pub tenant_id : Uuid
  pub memory_type : String
  pub content : String
  pub importance_score : Float64
  pub source_session_id : Option Uuid
  pub access_count : Int64

abbrev pub Vector : Type 0
Vector = List ℕ

-- `EmbeddingGeneratorFunc`
abbrev pub Embedder : Type 0 → Type 0
Embedder W = String → Action W Vector

-- the statements on the table of memories, each with the type that stands in its text: the search by a
-- vector, whose rows are scanned one by one, the count of an access, the insertion, which gives the new
-- identifier, the update of an embedding, and the removal; and `Query`
pub record MemoryDb (W : Type 0) : Type 0 where
  pub search : String → Uuid → String → Int64 → Action W (List (Result MemoryEntry))
  pub count_access : List Uuid → Action W (Unit {0})
  pub insert_memory : String → MemoryEntry → Action W Uuid
  pub set_embedding : String → Uuid → Action W (Unit {0})
  pub remove : Uuid → Uuid → Action W (Unit {0})
  pub query : String → List Arg → Action W (List (Result MemoryEntry))

-- `vectorToString`
unfoldable pub vector_to_string : (ℕ → String) → Vector → String
vector_to_string text v = concat ("[" ∷ join "," (map text v) ∷ "]" ∷ [])

-- a statement or a goroutine whose error is dropped
abbrev pub ignored : {W A : Type 0} → Action W A → Action W (Unit {0})
ignored m = attempt (λ a. tt) (λ e. tt) m

-- the loop over the rows; each memory is given the store's type
unfoldable pub scan_memories :
    String → String → List (Result MemoryEntry) → Result (List MemoryEntry)
scan_memories kind failed rows = elim (context failed (scan_rows rows [])) [
  | ok es ↦ ok (map (λ (e : MemoryEntry). record e { memory_type = kind }) es)
  | err e ↦ err e
  | panicked ↦ panicked
]

module _ {W : Type 0} where
  -- the access counts of the memories that were found
  unfoldable pub count_accesses : MemoryDb W → List MemoryEntry → Action W (List MemoryEntry)
  count_accesses db [] = pure []
  count_accesses db (e ∷ es) = do
    ignored (db.count_access (map (λ (e : MemoryEntry). e.id) (e ∷ es)))
    pure (e ∷ es)

  -- the goroutine that gives a new memory its embedding
  unfoldable pub embed :
      (ℕ → String) → Option (Embedder W) → MemoryDb W → String → Uuid → Action W (Unit {0})
  unfolding vector_to_string
  embed text none db content id = pure tt
  embed text (some embedder) db content id =
      ignored (do v ← embedder content; db.set_embedding (vector_to_string text v) id)
