-- ===== src/Memory/Extractor/Forms.antt =====
-- The memories that an extraction stores: their type, their text, their owner and their importance.
use mathlib.Core.Path.{subst}
use capyclaw.Prelude.{
  ◌≡◌, ◌≢◌, refl, ◌⊎◌, inl, inr, String, String_eq, ◌==◌, false, Bool-cases, some, Float64,
}
use capyclaw.Memory.Entries.{MemoryEntry}
use capyclaw.Memory.Extractor.{
  ExtractionInput, ExtractedMemory, Scores, clamp, valid_type, entry_of,
}

-- 0.5 and 1.0 are above 0 and not above 1
pub record GoodScores (scores : Scores) : Type 0 where
  pub half_positive : scores.not_positive scores.half ≡ false
  pub half_bounded : scores.above_one scores.half ≡ false
  pub one_positive : scores.not_positive scores.one ≡ false
  pub one_bounded : scores.above_one scores.one ≡ false

pub record WellFormed (scores : Scores) (input : ExtractionInput) (entry : MemoryEntry)
    : Type 0 where
  pub typed :
      (entry.memory_type ≡ "episodic")
      ⊎ ((entry.memory_type ≡ "semantic") ⊎ (entry.memory_type ≡ "procedural"))
  pub filled : entry.content ≢ ""
  pub of_agent : entry.agent_id ≡ input.agent_id
  pub of_tenant : entry.tenant_id ≡ input.tenant_id
  pub of_session : entry.source_session_id ≡ some input.session_id
  pub positive : scores.not_positive entry.importance_score ≡ false
  pub bounded : scores.above_one entry.importance_score ≡ false

valid_type-one :
    (t : String)
    → (valid_type t ≡ "episodic") ⊎ ((valid_type t ≡ "semantic") ⊎ (valid_type t ≡ "procedural"))
valid_type-one t = elim (Bool-cases (t == "episodic")) [
  | inl same ↦ rw same (inl ((String_eq.same_iff t "episodic").0 same))
  | inr no1 ↦ elim (Bool-cases (t == "semantic")) [
    | inl same ↦ rw no1 (rw same (inr (inl ((String_eq.same_iff t "semantic").0 same))))
    | inr no2 ↦ elim (Bool-cases (t == "procedural")) [
      | inl same ↦
          rw no1 (rw no2 (rw same (inr (inr ((String_eq.same_iff t "procedural").0 same)))))
      | inr no3 ↦ rw no1 (rw no2 (rw no3 (inr (inl refl))))
    ]
  ]
]

clamp-positive :
    (scores : Scores) (x : Float64)
    → GoodScores scores
    → (scores.not_positive (clamp scores x) ≡ false) × (scores.above_one (clamp scores x) ≡ false)
clamp-positive scores x good = elim (Bool-cases (scores.not_positive x)) [
  | inl low ↦ rw low (rw good.half_bounded (good.half_positive, good.half_bounded))
  | inr high ↦ rw high (elim (Bool-cases (scores.above_one x)) [
    | inl above ↦ rw above (good.one_positive, good.one_bounded)
    | inr below ↦ rw below (high, below)
  ])
]

not_empty : (t : String) → (t == "") ≡ false → t ≢ ""
not_empty t h e = let h' = subst (λ x. (x == "") ≡ false) e h in cc

pub entry_of-WellFormed :
    (scores : Scores) (input : ExtractionInput) (m : ExtractedMemory)
    → GoodScores scores
    → (m.content == "") ≡ false
    → WellFormed scores input (entry_of scores input m)
entry_of-WellFormed scores input m good filled =
    let (positive, bounded) = clamp-positive scores m.importance good in
    record {
      typed = valid_type-one m.memory_type;
      filled = not_empty m.content filled;
      of_agent = refl;
      of_tenant = refl;
      of_session = refl;
      positive = positive;
      bounded = bounded;
    }
