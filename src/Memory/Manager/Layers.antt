-- ===== src/Memory/Manager/Layers.antt =====
-- What Recall gives: the memories of the three stores, one store after the other.
use mathlib.Core.List.{append-nil, append_assoc}
use capyclaw.Prelude.{
  ℕ, ◌/◌, ◌≡◌, refl, sym, ap, ◌∙◌, String, Option, none, some, List, [], ◌∷◌, ◌++◌, map, Int64,
  Float64, int_lt, if◌then◌else◌,
}
use capyclaw.Action.{
  Result, ok, err, panicked, Action, pure, continue, context, within, settle, attempt, ◌>>=◌,
}
use capyclaw.Action.OnOk.{OnOk, OnOk-bind, OnOk-any, OnOk-map}
use capyclaw.Burrow.Types.{Uuid}
use capyclaw.Sql.{scan_rows}
use capyclaw.Memory.Entries.{
  MemoryEntry, MemoryDb, Embedder, Vector, count_accesses, scan_memories, vector_to_string,
}
use capyclaw.Memory.Episodic.{search_episodic}
use capyclaw.Memory.Semantic.{SearchEngine, SearchResult, to_entry, results_of, search_semantic}
use capyclaw.Memory.Procedural.{search_procedural}
use capyclaw.Memory.Manager.{
  Manager, per_type, found_or_none, recall_all, recall_with, recall_by, recall,
}

-- the memories that are read from rows, with the type of their store
pub record ReadAs (kind : String) (rows : List (Result MemoryEntry)) (es : List MemoryEntry)
    : Type 0 where
  pub read : List MemoryEntry
  pub rows_eq : rows ≡ map ok read
  pub es_eq : es ≡ map (λ (e : MemoryEntry). record e { memory_type = kind }) read

-- what a search of a store by its table gives: nothing without a pool, and otherwise the memories of the
-- rows that the table gives for the agent, the vector, the type and the limit, all of them read
pub data FromTable {W : Type 0} (text : ℕ → String) (kind : String) (agent_id : Uuid) (v : Vector)
    (limit : Int64) (pool : Option (MemoryDb W)) (w : W) : List MemoryEntry → Type 0 where
  no_table : pool ≡ none → FromTable text kind agent_id v limit pool w []
  table_rows :
      (db : MemoryDb W) (rows : List (Result MemoryEntry)) (es : List MemoryEntry)
      → pool ≡ some db
      → (db.search kind agent_id (vector_to_string text v) limit w).0 ≡ ok rows
      → ReadAs kind rows es
      → FromTable text kind agent_id v limit pool w es

-- what the engine says of a memory, and what an entry does; and an entry's type and agent
abbrev pub given : SearchResult → Uuid × String × Float64
given r = (r.id, r.content, r.importance_score)

abbrev pub stored : MemoryEntry → Uuid × String × Float64
stored e = (e.id, e.content, e.importance_score)

abbrev pub owner : MemoryEntry → String × Uuid
owner e = (e.memory_type, e.agent_id)

abbrev pub semantic_of : Uuid → SearchResult → String × Uuid
semantic_of agent_id r = ("semantic", agent_id)

-- what a search by the engine gives: nothing without a pool or an engine, and otherwise an entry for each
-- result that the engine gives for the agent, the vector, the type and the limit
pub data FromEngine {W : Type 0} (agent_id : Uuid) (v : Vector) (limit : Int64)
    (engine : Option (SearchEngine W)) (pool : Option (MemoryDb W)) (w : W)
    : List MemoryEntry → Type 0 where
  no_pool : pool ≡ none → FromEngine agent_id v limit engine pool w []
  no_engine : engine ≡ none → FromEngine agent_id v limit engine pool w []
  engine_results :
      (search : SearchEngine W) (rs : List SearchResult) (es : List MemoryEntry)
      → engine ≡ some search
      → (search agent_id v "semantic" limit w).0 ≡ ok rs
      → map stored es ≡ map given rs
      → map owner es ≡ map (semantic_of agent_id) rs
      → FromEngine agent_id v limit engine pool w es

scan_rows-read :
    {A : Type 0} (rows : List (Result A)) (before : List A)
    → OnOk
        (λ es. (read : List A) × (rows ≡ map ok read) × (es ≡ before ++ read))
        (scan_rows rows before)
unfolding scan_rows
scan_rows-read [] before = ([], refl, sym (append-nil before))
scan_rows-read (ok a ∷ rows) before =
    OnOk-map _ _ (scan_rows rows (before ++ a ∷ []))
      (λ es (read, rows_eq, es_eq).
        (a ∷ read, ap (λ l. ok a ∷ l) rows_eq, es_eq ∙ append_assoc before (a ∷ []) read))
      (scan_rows-read rows (before ++ a ∷ []))
scan_rows-read (err e ∷ rows) before = tt
scan_rows-read (panicked ∷ rows) before = tt

scan_memories-ReadAs :
    (kind failed : String) (rows : List (Result MemoryEntry))
    → OnOk (ReadAs kind rows) (scan_memories kind failed rows)
unfolding scan_memories
scan_memories-ReadAs kind failed rows = after (scan_rows rows []) (scan_rows-read rows [])
  where
    after :
        (r : Result (List MemoryEntry))
        → OnOk (λ es. (read : List MemoryEntry) × (rows ≡ map ok read) × (es ≡ read)) r
        → OnOk (ReadAs kind rows) (elim (context failed r) [
          | ok es ↦ ok (map (λ (e : MemoryEntry). record e { memory_type = kind }) es)
          | err e ↦ err e
          | panicked ↦ panicked
        ])
    after (ok es) (read, rows_eq, es_eq) = record {
      read = read;
      rows_eq = rows_eq;
      es_eq = ap (map (λ (e : MemoryEntry). record e { memory_type = kind })) es_eq;
    }
    after (err e) h = tt
    after panicked h = tt

entries_same :
    (agent_id : Uuid) (rs : List SearchResult)
    → (map stored (map (to_entry agent_id) rs) ≡ map given rs)
      × (map owner (map (to_entry agent_id) rs) ≡ map (semantic_of agent_id) rs)
entries_same agent_id [] = (refl, refl)
entries_same agent_id (r ∷ rs) =
    let (same, owned) = entries_same agent_id rs in
    (
      ap (λ l. (r.id, r.content, r.importance_score) ∷ l) same,
      ap (λ l. ("semantic", agent_id) ∷ l) owned,
    )

module _ {W : Type 0} where
  within-ok :
      {A : Type 0} (c : String) (m : Action W A) (w : W)
      → OnOk (λ a. (m w).0 ≡ ok a) (within c m w).0
  unfolding within
  within-ok c m w = by (m w).0 refl
    where
      by : (r : Result _) → (m w).0 ≡ r → OnOk (λ a. (m w).0 ≡ ok a) (context c r)
      by (ok a) h = h
      by (err e) h = tt
      by panicked h = tt

  count_accesses-same :
      (P : List MemoryEntry → Type 0) (db : MemoryDb W) (es : List MemoryEntry) (w : W)
      → P es
      → OnOk P (count_accesses db es w).0
  unfolding count_accesses pure
  count_accesses-same P db [] w h = h
  count_accesses-same P db (e ∷ es) w h = OnOk-bind (λ _. Unit) P _ _ w (OnOk-any _) (λ u w' x. h)

  search_episodic-FromTable :
      (text : ℕ → String) (agent_id : Uuid) (v : Vector) (limit : Int64)
      (pool : Option (MemoryDb W)) (w : W)
      → OnOk
          (FromTable text "episodic" agent_id v limit pool w)
          (search_episodic text agent_id v limit pool w).0
  unfolding search_episodic pure
  search_episodic-FromTable text agent_id v limit none w = FromTable.no_table refl
  search_episodic-FromTable text agent_id v limit (some db) w =
      OnOk-bind _ (FromTable text "episodic" agent_id v limit (some db) w) _ _ w (within-ok _ _ w)
        (λ rows w' found.
          OnOk-bind (ReadAs "episodic" rows) _ _ _ w' (scan_memories-ReadAs "episodic" _ rows)
            (λ es w'' h.
              count_accesses-same _ db es w'' (FromTable.table_rows db rows es refl found h)))

  search_procedural-FromTable :
      (text : ℕ → String) (agent_id : Uuid) (v : Vector) (limit : Int64)
      (pool : Option (MemoryDb W)) (w : W)
      → OnOk
          (FromTable text "procedural" agent_id v limit pool w)
          (search_procedural text agent_id v limit pool w).0
  unfolding search_procedural pure
  search_procedural-FromTable text agent_id v limit none w = FromTable.no_table refl
  search_procedural-FromTable text agent_id v limit (some db) w =
      OnOk-bind _ (FromTable text "procedural" agent_id v limit (some db) w) _ _ w (within-ok _ _ w)
        (λ rows w' found.
          OnOk-bind (ReadAs "procedural" rows) _ _ _ w' (scan_memories-ReadAs "procedural" _ rows)
            (λ es w'' h.
              count_accesses-same _ db es w'' (FromTable.table_rows db rows es refl found h)))

  results_of-FromEngine :
      (agent_id : Uuid) (v : Vector) (limit : Int64) (engine : Option (SearchEngine W))
      (pool : Option (MemoryDb W)) (w : W)
      → OnOk (FromEngine agent_id v limit engine pool w) (results_of agent_id v limit engine w).0
  unfolding results_of pure
  results_of-FromEngine agent_id v limit none pool w = FromEngine.no_engine refl
  results_of-FromEngine agent_id v limit (some search) pool w =
      OnOk-bind _ (FromEngine agent_id v limit (some search) pool w) _ _ w (within-ok _ _ w)
        (λ rs w' found.
          let (same, owned) = entries_same agent_id rs in
          FromEngine.engine_results search rs _ refl found same owned)

  search_semantic-FromEngine :
      (agent_id : Uuid) (v : Vector) (limit : Int64) (engine : Option (SearchEngine W))
      (pool : Option (MemoryDb W)) (w : W)
      → OnOk
          (FromEngine agent_id v limit engine pool w)
          (search_semantic agent_id v limit engine pool w).0
  unfolding search_semantic pure
  search_semantic-FromEngine agent_id v limit engine none w = FromEngine.no_pool refl
  search_semantic-FromEngine agent_id v limit engine (some db) w =
      OnOk-bind (FromEngine agent_id v limit engine (some db) w) _ _ _ w
        (results_of-FromEngine agent_id v limit engine (some db) w)
        (λ es w' h. count_accesses-same _ db es w' h)

-- a search gives what it finds, and nothing if it fails, and leaves the state `w'`
pub data Found {W A : Type 0} (P : List A → Type 0) (m : Action W (List A)) (w : W)
    : List A → W → Type 0 where
  found : (rs : List A) (w' : W) → m w ≡ (ok rs, w') → P rs → Found P m w rs w'
  failed : (e : String) (w' : W) → m w ≡ (err e, w') → Found P m w [] w'

module _ {W A B : Type 0} where
  Found-bind :
      (P : List A → Type 0) (Q : Result B × W → Type 0) (m : Action W (List A))
      (f : List A → Action W B) (w : W)
      → OnOk P (m w).0
      → ((rs : List A) (w' : W) → Found P m w rs w' → Q (f rs w'))
      → ((w' : W) → Q (panicked, w'))
      → Q ((found_or_none m >>= f) w)
  unfolding ◌>>=◌ attempt
  Found-bind P Q m f w h next broken = by (m w).0 (m w).1 refl h
    where
      by :
          (r : Result (List A)) (w' : W)
          → m w ≡ (r, w')
          → OnOk P r
          → Q (continue (settle (λ (rs : List A). rs) (λ e. []) r) f w')
      by (ok rs) w' e h = next rs w' (Found.found rs w' e h)
      by (err x) w' e h = next [] w' (Found.failed x w' e)
      by panicked w' e h = broken w'

module _ {W : Type 0} (text : ℕ → String) (m : Manager W) (agent_id : Uuid) where
  -- the limit of each search: a third of the whole, and 1 if that is less than 1
  abbrev pub each_limit : Int64 → Int64
  each_limit limit = if int_lt limit 3 then 1 else limit / 3

  -- what the three searches come to, one after the other, from the state `w`
  pub data Layered (v : Vector) (n : Int64) (w : W) : Result (List MemoryEntry) × W → Type 0 where
    layers :
        (episodic semantic procedural : List MemoryEntry) (w1 w2 w3 : W)
        → Found
            (FromTable text "episodic" agent_id v n m.episodic.pool w)
            (search_episodic text agent_id v n m.episodic.pool)
            w
            episodic
            w1
        → Found
            (FromEngine agent_id v n m.semantic.search m.semantic.pool w1)
            (search_semantic agent_id v n m.semantic.search m.semantic.pool)
            w1
            semantic
            w2
        → Found
            (FromTable text "procedural" agent_id v n m.procedural.pool w2)
            (search_procedural text agent_id v n m.procedural.pool)
            w2
            procedural
            w3
        → Layered v n w (ok ((episodic ++ semantic) ++ procedural), w3)
    broken : (w' : W) → Layered v n w (panicked, w')

  recall_all-Layered :
      (v : Vector) (n : Int64) (w : W) → Layered v n w (recall_all text m agent_id v n w)
  unfolding recall_all pure
  recall_all-Layered v n w =
      Found-bind _ (Layered v n w) _ _ w
        (search_episodic-FromTable text agent_id v n m.episodic.pool w)
        (λ e w1 found_e.
          Found-bind _ (Layered v n w) _ _ w1
            (search_semantic-FromEngine agent_id v n m.semantic.search m.semantic.pool w1)
            (λ s w2 found_s.
              Found-bind _ (Layered v n w) _ _ w2
                (search_procedural-FromTable text agent_id v n m.procedural.pool w2)
                (λ p w3 found_p. Layered.layers e s p w1 w2 w3 found_e found_s found_p)
                Layered.broken)
            Layered.broken)
        Layered.broken

  -- what Recall comes to
  pub data Recalled (query : String) (limit : Int64) (w : W)
      : Result (List MemoryEntry) × W → Type 0 where
    no_embedder : m.embedder ≡ none → Recalled query limit w (ok [], w)
    no_vector :
        (embedder : Embedder W) (e : String) (w' : W)
        → m.embedder ≡ some embedder
        → embedder query w ≡ (err e, w')
        → Recalled query limit w (ok [], w')
    vector_broke :
        (embedder : Embedder W) (w' : W)
        → m.embedder ≡ some embedder
        → embedder query w ≡ (panicked, w')
        → Recalled query limit w (panicked, w')
    searched :
        (embedder : Embedder W) (v : Vector) (w' : W) (x : Result (List MemoryEntry) × W)
        → m.embedder ≡ some embedder
        → embedder query w ≡ (ok v, w')
        → Layered v (each_limit limit) w' x
        → Recalled query limit w x

  recall_with-Recalled :
      (embedder : Embedder W) (query : String) (limit : Int64) (w w' : W) (r : Result Vector)
      → m.embedder ≡ some embedder
      → embedder query w ≡ (r, w')
      → Recalled query limit w (recall_with text m agent_id limit r w')
  unfolding recall_with per_type
  recall_with-Recalled embedder query limit w w' (ok v) known e =
      Recalled.searched embedder v w' _ known e (recall_all-Layered v (each_limit limit) w')
  recall_with-Recalled embedder query limit w w' (err x) known e =
      Recalled.no_vector embedder x w' known e
  recall_with-Recalled embedder query limit w w' panicked known e =
      Recalled.vector_broke embedder w' known e

  -- Recall returns no error, whatever its calls answer. Without an embedder, or if that fails, it gives no
  -- memories. Otherwise it searches the three stores with the same vector, each for a third of the limit and
  -- at least for one, and gives what they find: first the memories of the table's rows of the type
  -- episodic, then an entry for each result of the search engine for the type semantic, then those of
  -- the rows of the type procedural. A store that fails adds none. A panic of a call goes through.
  pub recall-Recalled :
      (query : String) (limit : Int64) (w : W)
      → Recalled query limit w (recall text m agent_id query limit w)
  unfolding recall_by
  recall-Recalled query limit w = by m.embedder refl
    where
      by :
          (f : Option (Embedder W))
          → m.embedder ≡ f
          → Recalled query limit w (recall_by text m f agent_id query limit w)
      by none e = Recalled.no_embedder e
      by (some f) e = recall_with-Recalled f query limit w (f query w).1 (f query w).0 e refl
