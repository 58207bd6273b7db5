-- ===== src/Memory/Extractor.antt =====
-- internal/pond/memory/extractor.go: Extractor. The goroutine of ExtractAsync is run at the call, and so
-- is each goroutine that stores an embedding. The texts' bytes, their white space, encoding/json and
-- the numbers of float64 are parameters.
pub mod Forms
pub mod Stored
use capyclaw.Prelude.{
  ℕ, ◌-◌, leb, String, String_eq, ◌==◌, ◌||◌, Bool, true, false, Option, none, some, List, [], ◌∷◌,
  ◌++◌, length, take, drop, concat, join, Float64, if◌then◌else◌,
}
use capyclaw.Action.{Result, ok, err, panicked, Action, pure, fail, within, settle, ◌>>=◌, ◌>>◌}
use capyclaw.Burrow.Types.{Uuid, nil_uuid}
use capyclaw.Llm.{Message, Request, Chunk, ChunkType, Client}
use capyclaw.Memory.Entries.{MemoryEntry, MemoryDb, Embedder, embed}
use capyclaw.Memory.Manager.{Manager, store}

pub record ExtractionInput : Type 0 where
  pub agent_id : Uuid
  pub tenant_id : Uuid
  pub session_id : Uuid
  pub user_msg : String
  pub assistant_msg : String

pub record ExtractedMemory : Type 0 where
  pub memory_type : String
  pub content : String
  pub importance : Float64

-- `m <= 0`, `m > 1.0`, and the constants 0.5 and 1.0
pub record Scores : Type 0 where
  pub not_positive : Float64 → Bool
  pub above_one : Float64 → Bool
  pub half : Float64
  pub one : Float64

-- `len`, a prefix in bytes, `strings.TrimSpace`, `strings.HasPrefix`, `strings.Split`,
-- and `json.Unmarshal` of a list of memories
pub record Texts : Type 0 where
  pub size : String → ℕ
  pub prefix : ℕ → String → String
  pub trim_space : String → String
  pub has_prefix : String → String → Bool
  pub split : String → String → List String
  pub unmarshal : String → Result (List ExtractedMemory)

pub record Extractor (W : Type 0) : Type 0 where
  pub llm_client : Option (Client W)
  pub model : String
  pub manager : Manager W
  pub embedder : Option (Embedder W)

-- the two corrections of the importance
abbrev pub clamp : Scores → Float64 → Float64
clamp scores x =
    let y = if scores.not_positive x then scores.half else x in
    if scores.above_one y then scores.one else y

-- the three types, and semantic for all others
abbrev pub valid_type : String → String
valid_type t = if t == "episodic" || (t == "semantic" || t == "procedural") then t else "semantic"

abbrev pub entry_of : Scores → ExtractionInput → ExtractedMemory → MemoryEntry
entry_of scores input m = record {
  id = nil_uuid;
  agent_id = input.agent_id;
  tenant_id = input.tenant_id;
  memory_type = valid_type m.memory_type;
  content = m.content;
  importance_score = clamp scores m.importance;
  source_session_id = some input.session_id;
  access_count = 0;
}

-- the lines of `extractionPrompt` up to the user's message
abbrev pub instructions : String
instructions = concat (
    "Extract memories from this conversation turn. Return a JSON array only, no other text.\n"
    ∷ "\n"
    ∷ "Each item: {\"type\":\"episodic|semantic|procedural\",\"content\":\"concise memory text\",\"importance\":0.0-1.0}\n"
    ∷ "\n" ∷ "Classification rules:\n"
    ∷ "- \"semantic\": facts, definitions, knowledge, data points the user shared\n"
    ∷ "- \"procedural\": how-to steps, workflows, commands, tool usage patterns, solutions to problems\n"
    ∷ "- \"episodic\": user preferences, personal context, requests, opinions, events mentioned\n"
    ∷ "\n" ∷ "Importance scoring:\n"
    ∷ "- User says \"remember this\", \"don't forget\", \"important\" → 0.9\n"
    ∷ "- Key facts, solutions, or corrections → 0.7\n" ∷ "- General conversation context → 0.5\n"
    ∷ "- Trivial/obvious information → skip entirely\n" ∷ "\n" ∷ "Rules:\n"
    ∷ "- Skip greetings, small talk, confirmations (\"ok\", \"thanks\"), trivial exchanges\n"
    ∷ "- Keep memory content concise but self-contained (understandable without conversation context)\n"
    ∷ "- Return [] if nothing worth remembering\n" ∷ "- Maximum 3 memories per turn\n" ∷ "\n"
    ∷ "User: " ∷ [])

abbrev pub extraction_prompt : String → String → String
extraction_prompt user assistant = concat (instructions ∷ user ∷ "\nAssistant: " ∷ assistant ∷ [])

module _ (texts : Texts) where
  unfoldable pub truncate : String → ℕ → String
  truncate s max_len =
      if leb (texts.size s) max_len then s else concat (texts.prefix max_len s ∷ "..." ∷ [])

  -- the lines without the first and the last, if there are three
  abbrev pub without_fences : List String → List String
  without_fences lines =
      if leb 3 (length lines) then drop 1 (take (length lines - 1) lines) else lines

  unfoldable pub parse_extracted_memories : String → Result (List ExtractedMemory)
  parse_extracted_memories raw =
      let text = texts.trim_space raw in
      texts.unmarshal (
        if texts.has_prefix text "```"
        then texts.trim_space (join "\n" (without_fences (texts.split text "\n")))
        else text)

  abbrev pub request_of : String → ExtractionInput → Request
  request_of model input = record {
    model = model;
    messages =
        record {
          role = "user";
          content =
              extraction_prompt (truncate input.user_msg 500) (truncate input.assistant_msg 500);
          tool_calls = [];
          tool_results = [];
        }
        ∷ [];
    max_tokens = 4096;
    temperature = 0;
    tools = [];
    stream = true;
  }

-- the texts of the chunks; an error in the stream is logged only
unfoldable pub response_text : List Chunk → List String
response_text [] = []
response_text (c ∷ cs) =
    let rest = response_text cs in elim c.kind [ ChunkType.text ↦ c.content ∷ rest | _ ↦ rest ]

module _ {W : Type 0} (text : ℕ → String) (scores : Scores) (e : Extractor W) where
  -- after `Store`: the embedding of a semantic memory
  unfoldable pub after_store : MemoryEntry → Result Uuid → Action W (Unit {0})
  unfolding embed
  after_store entry (ok id) w =
      if entry.memory_type == "semantic"
      then embed text e.embedder e.manager.pool entry.content id w
      else (ok tt, w)
  after_store entry (err failed) w = (ok tt, w)
  after_store entry panicked w = (panicked, w)

  unfoldable pub store_entry : MemoryEntry → Action W (Unit {0})
  unfolding store after_store
  store_entry entry w = let (r, w') = store text e.manager entry w in after_store entry r w'

  -- a turn of the loop
  unfoldable pub store_memory : ExtractionInput → ExtractedMemory → Action W (Unit {0})
  unfolding store_entry
  store_memory input m =
      if m.content == "" || m.memory_type == ""
      then pure tt
      else store_entry (entry_of scores input m)

  unfoldable pub store_memories : ExtractionInput → List ExtractedMemory → Action W (Unit {0})
  unfolding store_memory
  store_memories input [] = pure tt
  store_memories input (m ∷ ms) = do store_memory input m; store_memories input ms

  abbrev pub in_raw : String → Result (List ExtractedMemory) → Result (List ExtractedMemory)
  in_raw raw (ok ms) = ok ms
  in_raw raw (err failed) =
      err (concat ("parsing response: " ∷ failed ∷ " (raw: " ∷ raw ∷ ")" ∷ []))
  in_raw raw panicked = panicked

  unfoldable pub extract_from : Texts → ExtractionInput → String → Action W (Unit {0})
  unfolding store_memories parse_extracted_memories
  extract_from texts input raw = if raw == "" then pure tt else (do
    ms ← λ w. (in_raw raw (parse_extracted_memories texts raw), w)
    store_memories input ms)

  unfoldable pub extract_by : Texts → ExtractionInput → Option (Client W) → Action W (Unit {0})
  unfolding extract_from response_text truncate
  extract_by texts input none = pure tt
  extract_by texts input (some client) = do
    chunks ← within "LLM call: " (client.stream (request_of texts e.model input))
    extract_from texts input (concat (response_text chunks))

  -- `extract`
  abbrev pub extract : Texts → ExtractionInput → Action W (Unit {0})
  extract texts input = extract_by texts input e.llm_client

  -- `ExtractAsync`: the error is logged
  unfoldable pub extract_async : Texts → ExtractionInput → Action W (Unit {0})
  unfolding extract_by
  extract_async texts input w =
      let (r, w') = extract texts input w in (settle (λ u. u) (λ f. tt) r, w')
