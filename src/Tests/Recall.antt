-- ===== src/Tests/Recall.antt =====
-- Examples for the stores, the manager and the extractor of internal/pond/memory.
use capyclaw.Prelude.{
  ℕ, refl, ltb, String, String_eq, ◌==◌, false, none, some, List, [], ◌∷◌, All, if◌then◌else◌,
}
use capyclaw.Action.{ok, err, Action}
use capyclaw.Llm.{Client, ChunkType}
use capyclaw.Memory.Entries.{MemoryEntry, MemoryDb}
use capyclaw.Memory.Semantic.{SearchEngine}
use capyclaw.Memory.Manager.{Manager, recall}
use capyclaw.Memory.Manager.Layers.{Recalled, recall-Recalled}
use capyclaw.Memory.Extractor.{ExtractionInput, Scores, Texts, Extractor, extract_async}
use capyclaw.Memory.Extractor.Forms.{GoodScores, WellFormed}
use capyclaw.Memory.Extractor.Stored.{Kept, KeptAll, extract_async-Keeps}

-- the world is the table of memories
abbrev Table : Type 0
Table = List MemoryEntry

abbrev table : MemoryDb Table
table = record {
  search = λ kind agent v limit t. (if kind == "episodic" then err "gone" else ok [], t);
  count_access = λ ids t. (ok tt, t);
  insert_memory = λ kind entry t. (ok 7, entry ∷ t);
  set_embedding = λ v id t. (ok tt, t);
  remove = λ id agent t. (ok tt, []);
  query = λ q args t. (ok [], t);
}

abbrev engine : SearchEngine Table
engine agent_id v kind limit t =
    (ok (record { id = 7; content = "a fact"; importance_score = 5 } ∷ []), t)

abbrev embedder : String → Action Table (List ℕ)
embedder content t = (ok (1 ∷ 2 ∷ []), t)

abbrev manager : Manager Table
manager = record {
  episodic = record { pool = some table; embedder = some embedder };
  semantic = record { pool = some table; search = some engine };
  procedural = record { pool = none; embedder = none };
  pool = table;
  embedder = some embedder;
}

abbrev digit : ℕ → String
digit n = "1"

recall-Recalled_example :
    Recalled digit manager 1 "facts" 2 [] (recall digit manager 1 "facts" 2 [])
recall-Recalled_example = recall-Recalled digit manager 1 "facts" 2 []

-- tenths
abbrev tenths : Scores
tenths = record { not_positive = λ x. ltb x 1; above_one = λ x. ltb 10 x; half = 5; one = 10 }

abbrev tenths-GoodScores : GoodScores tenths
tenths-GoodScores = record {
  half_positive = refl;
  half_bounded = refl;
  one_positive = refl;
  one_bounded = refl;
}

abbrev texts : Texts
texts = record {
  size = λ t. 3;
  prefix = λ n t. t;
  trim_space = λ t. t;
  has_prefix = λ t p. false;
  split = λ t sep. t ∷ [];
  unmarshal = λ t. ok (
      record { memory_type = "fact"; content = "likes tea"; importance = 30 }
      ∷ record { memory_type = "episodic"; content = ""; importance = 3 }
      ∷ record { memory_type = "episodic"; content = "asked for tea"; importance = 0 }
      ∷ []);
}

abbrev model_client : Client Table
model_client = record {
  stream = λ r t. (
    ok (
        record {
          kind = ChunkType.text;
          content = "[]";
          tool_call = none;
          usage = none;
          finish_reason = "";
        }
        ∷ []),
    t,
  );
  count_tokens = λ ms t. (ok 0, t);
  provider = "test";
}

abbrev extractor : Extractor Table
extractor = record {
  llm_client = some model_client;
  model = "m";
  manager = manager;
  embedder = some embedder;
}

abbrev turn : ExtractionInput
turn = record {
  agent_id = 1;
  tenant_id = 2;
  session_id = 3;
  user_msg = "I like tea";
  assistant_msg = "Noted";
}

abbrev AllFormed : Table → Type 0
AllFormed t = All (WellFormed tenths turn) t

abbrev table-Kept : Kept AllFormed tenths turn table
table-Kept = record { inserts = λ entry formed t h. (formed, h); embeds = λ v id t h. h }

abbrev extractor-KeptAll : KeptAll AllFormed tenths turn extractor
extractor-KeptAll = record {
  episodic = table-Kept;
  semantic = table-Kept;
  procedural = tt;
  pool = table-Kept;
  embedder = λ content t h. h;
  episodic_embedder = λ content t h. h;
  procedural_embedder = tt;
  client = λ r t h. h;
}

extract_async-Keeps_example : AllFormed (extract_async digit tenths extractor texts turn []).1
extract_async-Keeps_example =
    extract_async-Keeps AllFormed tenths turn digit extractor extractor-KeptAll tenths-GoodScores
      texts [] tt
