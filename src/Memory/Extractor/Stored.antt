-- ===== src/Memory/Extractor/Stored.antt =====
-- What an extraction does to the table of memories.
use mathlib.Core.Path.{subst}
use capyclaw.Prelude.{
  ℕ, ◌≡◌, ap, inl, inr, String, String_eq, ◌==◌, Bool-cases, Option, none, some, List, [], ◌∷◌,
  concat,
}
use capyclaw.Action.{Result, ok, err, panicked}
use capyclaw.Action.Keeps.{
  OnSome, Keeps, Keeps-pure, Keeps-fail, Keeps-bind, Keeps-within, Keeps-attempt,
}
use capyclaw.Llm.{Client, Request}
use capyclaw.Burrow.Types.{Uuid}
use capyclaw.Memory.Entries.{MemoryEntry, MemoryDb, Embedder, embed, vector_to_string}
use capyclaw.Memory.Episodic.{store_episodic}
use capyclaw.Memory.Procedural.{store_procedural}
use capyclaw.Memory.Semantic.{store_semantic}
use capyclaw.Memory.Manager.{store}
use capyclaw.Memory.Extractor.{
  ExtractionInput, ExtractedMemory, Scores, Texts, Extractor, entry_of, request_of, after_store,
  store_entry, store_memory, store_memories, response_text, extract_from, extract_by, extract_async,
}
use capyclaw.Memory.Extractor.Forms.{GoodScores, WellFormed, entry_of-WellFormed}

module _ {W : Type 0} (I : W → Type 0) (scores : Scores) (input : ExtractionInput) where
  -- a pool on which the insertion of a well-formed entry under its type, and each update of an
  -- embedding, keep `I`
  pub record Kept (db : MemoryDb W) : Type 0 where
    pub inserts :
        (entry : MemoryEntry)
        → WellFormed scores input entry
        → Keeps I (db.insert_memory entry.memory_type entry)
    pub embeds : (v : String) (id : Uuid) → Keeps I (db.set_embedding v id)

  abbrev pub KeptEmbedder : Embedder W → Type 0
  KeptEmbedder f = (t : String) → Keeps I (f t)

  -- the pools, embedders and the client of an extractor
  pub record KeptAll (e : Extractor W) : Type 0 where
    pub episodic : OnSome Kept e.manager.episodic.pool
    pub semantic : OnSome Kept e.manager.semantic.pool
    pub procedural : OnSome Kept e.manager.procedural.pool
    pub pool : Kept e.manager.pool
    pub embedder : OnSome KeptEmbedder e.embedder
    pub episodic_embedder : OnSome KeptEmbedder e.manager.episodic.embedder
    pub procedural_embedder : OnSome KeptEmbedder e.manager.procedural.embedder
    pub client : OnSome (λ (c : Client W). (r : Request) → Keeps I (c.stream r)) e.llm_client

  module _ (text : ℕ → String) where
    embed-Keeps :
        (f : Option (Embedder W)) (db : MemoryDb W) (content : String) (id : Uuid)
        → OnSome KeptEmbedder f
        → Kept db
        → Keeps I (embed text f db content id)
    unfolding embed
    embed-Keeps none db content id h k = Keeps-pure I tt
    embed-Keeps (some f) db content id h k =
        Keeps-attempt I _ _ _
          (Keeps-bind I _ _ (h content) (λ v. k.embeds (vector_to_string text v) id))

    store_episodic-Keeps :
        (entry : MemoryEntry) (f : Option (Embedder W)) (pool : Option (MemoryDb W))
        → WellFormed scores input entry
        → entry.memory_type ≡ "episodic"
        → OnSome KeptEmbedder f
        → OnSome Kept pool
        → Keeps I (store_episodic text entry f pool)
    unfolding store_episodic
    store_episodic-Keeps entry f none formed t h k = Keeps-fail I _ _
    store_episodic-Keeps entry f (some db) formed t h k =
        Keeps-bind I _ _
          (Keeps-within I _ _
            (subst (λ kind. Keeps I (db.insert_memory kind entry)) t (k.inserts entry formed)))
          (λ id. Keeps-bind I _ _ (embed-Keeps f db entry.content id h k) (λ u. Keeps-pure I id))

    store_procedural-Keeps :
        (entry : MemoryEntry) (f : Option (Embedder W)) (pool : Option (MemoryDb W))
        → WellFormed scores input entry
        → entry.memory_type ≡ "procedural"
        → OnSome KeptEmbedder f
        → OnSome Kept pool
        → Keeps I (store_procedural text entry f pool)
    unfolding store_procedural
    store_procedural-Keeps entry f none formed t h k = Keeps-fail I _ _
    store_procedural-Keeps entry f (some db) formed t h k =
        Keeps-bind I _ _
          (Keeps-within I _ _
            (subst (λ kind. Keeps I (db.insert_memory kind entry)) t (k.inserts entry formed)))
          (λ id. Keeps-bind I _ _ (embed-Keeps f db entry.content id h k) (λ u. Keeps-pure I id))

    store_semantic-Keeps :
        (entry : MemoryEntry) (pool : Option (MemoryDb W))
        → WellFormed scores input entry
        → entry.memory_type ≡ "semantic"
        → OnSome Kept pool
        → Keeps I (store_semantic entry pool)
    unfolding store_semantic
    store_semantic-Keeps entry none formed t k = Keeps-fail I _ _
    store_semantic-Keeps entry (some db) formed t k =
        Keeps-within I _ _
          (subst (λ kind. Keeps I (db.insert_memory kind entry)) t (k.inserts entry formed))

    module _ (e : Extractor W) (k : KeptAll e) where
      store-Keeps :
          (entry : MemoryEntry)
          → WellFormed scores input entry
          → Keeps I (store text e.manager entry)
      unfolding store
      store-Keeps entry formed = elim formed.typed [
        | inl t ↦
            rw (is "episodic" t)
              (store_episodic-Keeps entry _ _ formed t k.episodic_embedder k.episodic)
        | inr (inl t) ↦
            rw (is "episodic" t)
              (rw (is "semantic" t) (store_semantic-Keeps entry _ formed t k.semantic))
        | inr (inr t) ↦ rw (is "episodic" t) (
            rw (is "semantic" t) (
              rw (is "procedural" t)
                (store_procedural-Keeps entry _ _ formed t k.procedural_embedder k.procedural)))
      ]
        where
          is :
              {kind : String} (name : String)
              → entry.memory_type ≡ kind
              → (entry.memory_type == name) ≡ (kind == name)
          is name t = ap (λ x. x == name) t

      after_store-Keeps :
          (entry : MemoryEntry) (r : Result Uuid) → Keeps I (after_store text scores e entry r)
      unfolding after_store
      after_store-Keeps entry (ok id) w i = elim (Bool-cases (entry.memory_type == "semantic")) [
        | inl same ↦
            rw same (embed-Keeps e.embedder e.manager.pool entry.content id k.embedder k.pool w i)
        | inr other ↦ rw other i
      ]
      after_store-Keeps entry (err f) w i = i
      after_store-Keeps entry panicked w i = i

      store_memory-Keeps :
          GoodScores scores → (m : ExtractedMemory) → Keeps I (store_memory text scores e input m)
      unfolding store_memory store_entry
      store_memory-Keeps good m w i = elim (Bool-cases (m.content == "")) [
        | inl empty ↦ rw empty (Keeps-pure I tt w i)
        | inr filled ↦ rw filled (elim (Bool-cases (m.memory_type == "")) [
          | inl empty ↦ rw empty (Keeps-pure I tt w i)
          | inr some_type ↦ rw some_type (
              after_store-Keeps (entry_of scores input m) _ _ (
                store-Keeps (entry_of scores input m)
                  (entry_of-WellFormed scores input m good filled) w i))
        ])
      ]

      store_memories-Keeps :
          GoodScores scores
          → (ms : List ExtractedMemory) → Keeps I (store_memories text scores e input ms)
      unfolding store_memories
      store_memories-Keeps good [] = Keeps-pure I tt
      store_memories-Keeps good (m ∷ ms) =
          Keeps-bind I _ _ (store_memory-Keeps good m) (λ u. store_memories-Keeps good ms)

      extract_from-Keeps :
          GoodScores scores
          → (texts : Texts) (raw : String) → Keeps I (extract_from text scores e texts input raw)
      unfolding extract_from
      extract_from-Keeps good texts raw = elim (Bool-cases (raw == "")) [
        | inl empty ↦ rw empty (Keeps-pure I tt)
        | inr filled ↦ rw filled (Keeps-bind I _ _ (λ w i. i) (store_memories-Keeps good))
      ]

      extract_by-Keeps :
          GoodScores scores
          → (texts : Texts) (client : Option (Client W))
          → OnSome (λ (c : Client W). (r : Request) → Keeps I (c.stream r)) client
          → Keeps I (extract_by text scores e texts input client)
      unfolding extract_by
      extract_by-Keeps good texts none h = Keeps-pure I tt
      extract_by-Keeps good texts (some client) h =
          Keeps-bind I _ _ (Keeps-within I _ _ (h (request_of texts e.model input)))
            (λ chunks. extract_from-Keeps good texts (concat (response_text chunks)))

-- If 0.5 and 1.0 are above 0 and not above 1, and what holds of the outside world is kept by the model's
-- client, by the embedders, by the updates of embeddings, and by each insertion of an entry under its
-- own type that has one of the three types, a text, the agent, the tenant and the session of the turn,
-- and an importance above 0 and not above 1, then it is kept by a whole extraction, whatever the model
-- answers.
pub extract_async-Keeps :
    {W : Type 0} (I : W → Type 0) (scores : Scores) (input : ExtractionInput) (text : ℕ → String)
    (e : Extractor W)
    → KeptAll I scores input e
    → GoodScores scores
    → (texts : Texts) → Keeps I (extract_async text scores e texts input)
unfolding extract_async
extract_async-Keeps I scores input text e k good texts w i =
    extract_by-Keeps I scores input text e k good texts e.llm_client k.client w i
