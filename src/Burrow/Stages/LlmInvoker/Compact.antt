-- ===== src/Burrow/Stages/LlmInvoker/Compact.antt =====
-- What compactMessages keeps of the messages, in internal/burrow/pipeline.go.
use capyclaw.Prelude.{
  ℕ, zero, suc, ◌-◌, ◌≤◌, ◌<◌, ◌≡◌, sym, ap, ◌∙◌, String, false, Bool-cases, inl, inr, leb, List,
  [], ◌∷◌, ◌++◌, map, length, take, drop, length-drop, length-take, take-append-drop, arith,
}
use capyclaw.Action.{Result, ok, err, panicked}
use capyclaw.Llm.{Message}
use capyclaw.Instinct.Compaction.{Compactor, CompactionResult, compact_async}
use capyclaw.Burrow.Deps.{State, outside}
use capyclaw.Burrow.Stages.LlmInvoker.{
  recent_count, old_messages, recent_messages, summary_message, summary_text, rebuild,
  compact_messages,
}

recent_count-eq : (n : ℕ) → 5 < n → recent_count n ≡ 4
recent_count-eq n h = ground arith

length-recent : (ms : List Message) → 5 < length ms → length (recent_messages ms) ≡ 4
unfolding recent_messages
length-recent ms h =
    length-drop (length ms - recent_count (length ms)) ms
    ∙ rw (recent_count-eq (length ms) h) (omega arith)

-- What may come of compacting `ms`: the same messages; or the first message, a summary in the place of at least
-- one, and the last four; or the panic of the provider.
pub data Compacted (ms : List Message) : Result (List Message) → Type 0 where
  unchanged : Compacted ms (ok ms)
  summed :
      (first : Message) (old recent : List Message) (summary : String)
      → ms ≡ first ∷ (old ++ recent)
      → 1 ≤ length old
      → length recent ≡ 4
      → Compacted ms (ok (first ∷ summary_message summary ∷ recent))
  failed : Compacted ms panicked

append-drop-take :
    {A : Type 0} (k : ℕ) (x : A) (xs : List A)
    → 1 ≤ k
    → x ∷ xs ≡ x ∷ (drop 1 (take k (x ∷ xs)) ++ drop k (x ∷ xs))
append-drop-take zero x xs h = elim h [ ]
append-drop-take (suc k) x xs h = ap (λ l. x ∷ l) (sym (take-append-drop k xs))

-- where the messages are cut, for a list of `n` of them
cut : ℕ → ℕ
cut n = n - recent_count n

cut-le : (n : ℕ) → 5 < n → (2 ≤ cut n) × (cut n ≤ n)
unfolding cut
cut-le n h = rw (recent_count-eq n h) (omega (arith, h), omega arith)

length-old :
    (m : Message) (ms : List Message) → 5 < length (m ∷ ms) → 1 ≤ length (old_messages (m ∷ ms))
unfolding old_messages cut
length-old m ms h =
    let (two, most) = cut-le (length (m ∷ ms)) h in
    omega (
      arith,
      length-drop 1 (take (cut (length (m ∷ ms))) (m ∷ ms)),
      length-take (cut (length (m ∷ ms))) (m ∷ ms),
    )

partition :
    (m : Message) (ms : List Message)
    → 5 < length (m ∷ ms)
    → m ∷ ms ≡ m ∷ (old_messages (m ∷ ms) ++ recent_messages (m ∷ ms))
unfolding old_messages recent_messages cut
partition m ms h =
    append-drop-take (cut (length (m ∷ ms))) m ms (omega (arith, cut-le (length (m ∷ ms)) h))

rebuild-Compacted :
    (ms : List Message)
    → 5 < length ms
    → (r : Result CompactionResult) → Compacted ms (rebuild ms r)
unfolding rebuild
rebuild-Compacted [] h (ok r) = elim h [ ]
rebuild-Compacted (m ∷ ms) h (ok r) =
    summed m (old_messages (m ∷ ms)) (recent_messages (m ∷ ms)) r.summary (partition m ms h)
      (length-old m ms h) (length-recent (m ∷ ms) h)
rebuild-Compacted ms h (err e) = unchanged
rebuild-Compacted ms h panicked = failed

leb-false : (n : ℕ) → leb n 5 ≡ false → 5 < n
leb-false n h = ground arith

-- Compaction never fails with an error. It gives back the messages as they were, or the first
-- message, a summary in the place of at least one message, and the last four, in their order and
-- with their contents; only a panic of the provider stops it.
pub compact_messages-Compacted :
    {W : Type 0} (c : Compactor W) (ms : List Message) (s : State W)
    → Compacted ms (compact_messages c ms s).0
unfolding compact_messages
compact_messages-Compacted c ms s = elim (Bool-cases (leb (length ms) 5)) [
  | inl h ↦ rw (h, compact_messages) unchanged
  | inr h ↦
      rw (h, compact_messages)
        (rebuild-Compacted ms (leb-false (length ms) h)
          (outside (compact_async c (map summary_text (old_messages ms))) s).0)
]
