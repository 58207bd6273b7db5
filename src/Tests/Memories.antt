-- ===== src/Tests/Memories.antt =====
-- Examples for internal/pond/memory.
use capyclaw.Prelude.{ℕ, suc, ℕ_eq, ◌==◌, ◌+◌, ◌*◌, ltb, if◌then◌else◌, List, [], ◌∷◌}
use capyclaw.Action.{ok, err}
use capyclaw.Memory.Consolidator.{Pair, MemoryStore, ScoreOps, merge_pairs}
use capyclaw.Memory.Consolidator.Merges.{Adds, Counts, journaled, merge_pairs-Adds}

-- each statement is counted, and the removal of memory 3 fails
abbrev store : MemoryStore ℕ
store = record {
  count = λ id w. (ok 3, suc w);
  boost = λ id w. (ok 0, suc w);
  similar_pairs = λ id t w. (ok [], suc w);
  update_merged = λ n f id w. (ok tt, suc w);
  remove = λ id w. (if id == 3 then err "locked" else ok tt, suc w);
  prune = λ id t w. (ok 0, suc w);
  remove_lowest = λ id n w. (ok 0, suc w);
  agents = λ w. (ok [], suc w);
}

abbrev whole : ScoreOps
whole = record {
  ops = record { of_int = λ n. n; mul = λ x y. x * y; lt = ltb };
  add = λ x y. x + y;
  one = 100;
  five_hundredths = 5;
}

abbrev pair_of : ℕ → ℕ → Pair
pair_of a b = record {
  id1 = a;
  id2 = b;
  importance1 = 50;
  importance2 = 40;
  access_count1 = 1;
  access_count2 = 2;
}

abbrev pairs : List Pair
pairs = pair_of 1 2 ∷ pair_of 2 3 ∷ pair_of 1 3 ∷ []

merge_pairs-Adds_example :
    Adds ℕ (Counts 0) [] [] (merge_pairs whole (journaled store) pairs [] 0 (0, []))
merge_pairs-Adds_example = merge_pairs-Adds whole store pairs [] 0 (0, [])
