-- ===== src/Burrow/Stages/Stream/Output.antt =====
-- The loop over the chunks of a provider sends texts.
use capyclaw.Prelude.{String, Bool, Bool-cases, inl, inr, List, [], ◌∷◌, Int64}
use capyclaw.Llm.{Chunk, ChunkType}
use capyclaw.Burrow.Deps.{State}
use capyclaw.Burrow.Sends.{Sends, Sent, IsBody, Sent-refl, Sent-trans, Sent-emit}
use capyclaw.Burrow.Stages.Stream.{Collected, text_chunk, forward, is_error, collect}

text-IsBody : (content : String) → IsBody (text_chunk content)
text-IsBody content = record { not_done = λ e. cc; not_error = λ e. cc }

Sent-forward :
    {W : Type 0} (has_output : Bool) (k : ChunkType) (c : Chunk) (s : State W)
    → Sent W s (forward has_output k c s)
unfolding forward
Sent-forward has_output ChunkType.text c s =
    Sent-emit has_output (text_chunk c.content) s (text-IsBody c.content)
Sent-forward has_output _ c s = Sent-refl s

module _ {W : Type 0} (put : Int64 → Int64 → Int64) (prefix : String) (has_output : Bool) where
  Sent-collect :
      (cs : List Chunk) (v : Collected) (s : State W)
      → Sent W s (collect put prefix has_output cs v s).1
  unfolding collect
  Sent-collect [] v s = Sent-refl s
  Sent-collect (c ∷ cs) v s = elim (Bool-cases (is_error c.kind)) [
    | inl h ↦ rw (h, collect) (Sent-refl s)
    | inr h ↦
        rw (h, collect)
          (Sent-trans (Sent-forward has_output c.kind c s)
            (Sent-collect cs _ (forward has_output c.kind c s)))
  ]

  pub collect-Sends :
      (cs : List Chunk) (v : Collected) → Sends W Collected (collect put prefix has_output cs v)
  collect-Sends cs v = record { at = Sent-collect cs v }
