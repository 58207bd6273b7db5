-- ===== src/Memory/Consolidator.antt =====
-- internal/pond/memory/consolidator.go. Each SQL statement is a field of `MemoryStore`.
pub mod Merges
use capyclaw.Prelude.{
  ℕ, ℕ_eq, ◌==◌, ◌+◌, ◌||◌, Bool, true, false, List, [], ◌∷◌, Int64, Float64, FloatOps, add_int,
  sub_int, int_lt, if◌then◌else◌,
}
use capyclaw.Action.{Result, ok, err, panicked, Action, pure, fail, attempt, within, ◌>>=◌, ◌>>◌}
use capyclaw.Burrow.Types.{Uuid}

-- a row of the query for similar pairs, as far as the loop reads it
pub record Pair : Type 0 where
  pub id1 : Uuid
  pub id2 : Uuid
  pub importance1 : Float64
  pub importance2 : Float64
  pub access_count1 : Int64
  pub access_count2 : Int64

-- a query gives an error, or for each row what `Scan` gave
pub record MemoryStore (W : Type 0) : Type 0 where
  pub count : Uuid → Action W Int64
  pub boost : Uuid → Action W Int64
  pub similar_pairs : Uuid → Float64 → Action W (List (Result Pair))
  pub update_merged : Int64 → Float64 → Uuid → Action W (Unit {0})
  pub remove : Uuid → Action W (Unit {0})
  pub prune : Uuid → Float64 → Action W Int64
  pub remove_lowest : Uuid → Int64 → Action W Int64
  pub agents : Action W (List (Result Uuid))

pub record Consolidator (W : Type 0) : Type 0 where
  pub store : MemoryStore W
  pub max_per_agent : Int64
  pub similarity_threshold : Float64
  pub decay_threshold : Float64

-- the operations and constants of float64 that the loop uses
pub record ScoreOps : Type 0 where
  pub ops : FloatOps
  pub open ops use {of_int, mul, lt}
  pub add : Float64 → Float64 → Float64
  pub one : Float64
  pub five_hundredths : Float64

-- `NewConsolidator`, with the two defaults of its thresholds
unfoldable pub new_consolidator :
    {W : Type 0}
    → FloatOps
    → Float64 × Float64
    → MemoryStore W
    → Int64
    → Float64
    → Float64
    → Consolidator W
new_consolidator float defaults store max_per_agent similarity decay = record {
  store = store;
  max_per_agent = if int_lt 0 max_per_agent then max_per_agent else 500;
  similarity_threshold = if float.lt 0 similarity then similarity else defaults.0;
  decay_threshold = if float.lt 0 decay then decay else defaults.1;
}

-- the ids in the map of those that were deleted
unfoldable pub has : List Uuid → Uuid → Bool
has [] id = false
has (x ∷ xs) id = x == id || has xs id

-- `rows.Scan` of each row; the first error ends the loop
unfoldable pub scan_pairs : List (Result Pair) → Result (List Pair)
scan_pairs [] = ok []
scan_pairs (r ∷ rs) = elim r [
  | err e ↦ err e
  | panicked ↦ panicked
  | ok p ↦ elim (scan_pairs rs) [ ok ps ↦ ok (p ∷ ps) | err e ↦ err e | panicked ↦ panicked ]
]

-- which of the two stays, which goes, and the importance of the one that stays
pub record Choice : Type 0 where
  pub keep_id : Uuid
  pub delete_id : Uuid
  pub importance : Float64

module _ (float : ScoreOps) where
  unfoldable pub choose : Pair → Choice
  choose p =
      let score1 = float.mul p.importance1 (float.of_int (add_int p.access_count1 1)) in
      let score2 = float.mul p.importance2 (float.of_int (add_int p.access_count2 1)) in
      if float.lt score1 score2
      then record { keep_id = p.id2; delete_id = p.id1; importance = p.importance2 }
      else record { keep_id = p.id1; delete_id = p.id2; importance = p.importance1 }

  -- the importance of what stays, at most 1.0
  unfoldable pub raised : Float64 → Float64
  raised importance =
      let sum = float.add importance float.five_hundredths in
      if float.lt float.one sum then float.one else sum

-- the ids deleted so far and the number of merges, after the deletion
unfoldable pub after_remove : Uuid → List Uuid → ℕ → Bool → List Uuid × ℕ
after_remove id deleted merged true = (id ∷ deleted, merged + 1)
after_remove id deleted merged false = (deleted, merged)

module _ {W : Type 0} (float : ScoreOps) (store : MemoryStore W) where
  abbrev pub succeeded : Action W (Unit {0}) → Action W Bool
  succeeded = attempt (λ _. true) (λ _. false)

  -- after the update of the one that stays; an error leaves the pair as it is
  unfoldable pub after_update : Uuid → List Uuid → ℕ → Bool → Action W (List Uuid × ℕ)
  unfolding after_remove
  after_update id deleted merged false = pure (deleted, merged)
  after_update id deleted merged true = do
    removed ← succeeded (store.remove id)
    pure (after_remove id deleted merged removed)

  unfoldable pub merge_pair : Pair → List Uuid → ℕ → Action W (List Uuid × ℕ)
  unfolding after_update
  merge_pair p deleted merged =
      if has deleted p.id1 || has deleted p.id2
      then pure (deleted, merged)
      else (let c = choose float p in
          do
            updated ← succeeded (
                store.update_merged (add_int p.access_count1 p.access_count2)
                  (raised float c.importance) c.keep_id)
            after_update c.delete_id deleted merged updated)

  -- the loop over the pairs
  unfoldable pub merge_pairs : List Pair → List Uuid → ℕ → Action W ℕ
  merge_pairs [] deleted merged = pure merged
  merge_pairs (p ∷ ps) deleted merged = do
    (deleted', merged') ← merge_pair p deleted merged
    merge_pairs ps deleted' merged'

module _ {W : Type 0} (float : ScoreOps) (c : Consolidator W) where
  unfoldable pub merge_similar : Uuid → Action W ℕ
  merge_similar agent_id = do
    rows ← within "querying similar pairs: " (c.store.similar_pairs agent_id c.similarity_threshold)
    pairs ← within "scanning pair: " (λ w. (scan_pairs rows, w))
    merge_pairs float c.store pairs [] 0

  unfoldable pub enforce_hard_cap : Uuid → Action W Int64
  enforce_hard_cap agent_id = do
    count ← c.store.count agent_id
    if int_lt c.max_per_agent count
        then c.store.remove_lowest agent_id (sub_int count c.max_per_agent)
        else pure 0

  -- a step of `Consolidate`: its error is only logged
  abbrev pub logged : {A : Type 0} → Action W A → Action W (Unit {0})
  logged = attempt (λ _. tt) (λ _. tt)

  unfoldable pub consolidate : Uuid → Action W (Unit {0})
  consolidate agent_id = do
    within "counting memories: " (c.store.count agent_id)
    logged (c.store.boost agent_id)
    logged (merge_similar agent_id)
    logged (c.store.prune agent_id c.decay_threshold)
    logged (enforce_hard_cap agent_id)

  -- the ids that were scanned; a row that cannot be is skipped
  unfoldable pub scanned : List (Result Uuid) → List Uuid
  scanned [] = []
  scanned (r ∷ rs) =
      let rest = scanned rs in elim r [ ok id ↦ id ∷ rest | err e ↦ rest | panicked ↦ rest ]

  unfoldable pub consolidate_each : List Uuid → Action W (Unit {0})
  consolidate_each [] = pure tt
  consolidate_each (id ∷ ids) = do logged (consolidate id); consolidate_each ids

  unfoldable pub consolidate_all_agents : Action W (Unit {0})
  consolidate_all_agents = do
    rows ← within "listing agents with memories: " c.store.agents
    consolidate_each (scanned rows)
