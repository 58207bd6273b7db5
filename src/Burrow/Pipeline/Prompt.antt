-- ===== src/Burrow/Pipeline/Prompt.antt =====
-- What ExecutePrompt of internal/burrow/pipeline.go makes of the chunks of a run.
use Prim.Native.String.{◌++◌ as append}
use capyclaw.Prelude.{
  String, ◌≡◌, refl, ap, ◌∙◌, Option, none, some, List, [], ◌∷◌, ◌++◌, All, concat,
}
use capyclaw.Action.{Result, ok, err, panicked}
use capyclaw.Burrow.Types.{Uuid, StreamChunk, StreamType, PipelineRequest}
use capyclaw.Burrow.Deps.{PipelineDeps, State}
use capyclaw.Burrow.Sends.{IsBody}
use capyclaw.Burrow.Pipeline.{
  new_pipeline, new_request, no_config, run_stages, execute, read_chunks, read_out, run_prompt,
  execute_prompt,
}
use capyclaw.Burrow.Pipeline.Output.{
  chain, chain-Sends, new_pipeline-AllSend, run_stages-Ends, last_chunk, reported, with_output,
}

-- the texts of the chunks, one after the other
abbrev pub texts : String → List StreamChunk → String
texts result [] = result
texts result (c ∷ cs) = elim c.kind [
  | StreamType.text ↦ texts (append result c.content) cs
  | _ ↦ texts result cs
]

abbrev pub failure : Result PipelineRequest → Option String
failure (err e) = some (concat ("pipeline error: " ∷ e ∷ []))
failure _ = none

-- what the caller gets, from the outcome of the stages and the texts sent
abbrev pub answer : Result PipelineRequest → String → Result (String × Option String)
answer (ok _) text = ok (text, none)
answer (err e) text = ok (text, failure (err e))
answer panicked text = panicked

read_chunks-last :
    (r : Result PipelineRequest) (result : String)
    → read_chunks result (last_chunk r) ≡ (result, failure r)
unfolding read_chunks
read_chunks-last (ok _) result = refl
read_chunks-last (err _) result = refl
read_chunks-last panicked result = refl

module _ (r : Result PipelineRequest) where
  read_chunks-kind :
      (k : StreamType) (c : StreamChunk) (cs : List StreamChunk) (result : String)
      → c.kind ≡ k
      → IsBody c
      → ((result : String) → read_chunks result (cs ++ last_chunk r) ≡ (texts result cs, failure r))
      → read_chunks result (c ∷ cs ++ last_chunk r) ≡ (texts result (c ∷ cs), failure r)
  unfolding read_chunks
  read_chunks-kind StreamType.text c cs result e b h =
      rw (e, read_chunks, texts) (h (append result c.content))
  read_chunks-kind StreamType.tool_result c cs result e b h = rw (e, read_chunks, texts) (h result)
  read_chunks-kind StreamType.done c cs result e b h = absurd (b.not_done e)
  read_chunks-kind StreamType.error c cs result e b h = absurd (b.not_error e)

  read_chunks-texts :
      (cs : List StreamChunk) (result : String)
      → All IsBody cs
      → read_chunks result (cs ++ last_chunk r) ≡ (texts result cs, failure r)
  read_chunks-texts [] result h = read_chunks-last r result
  read_chunks-texts (c ∷ cs) result (b, h) =
      read_chunks-kind c.kind c cs result refl b (λ result. read_chunks-texts cs result h)

read_out-answer :
    {W : Type 0} (r : Result PipelineRequest) (x : Result (Unit {0}) × State W) (text : String)
    → x.0 ≡ reported r
    → read_chunks "" x.1.out ≡ (text, failure r)
    → (read_out x).0 ≡ answer r text
unfolding read_out
read_out-answer (ok req) (ok _, s) text e h = ap ok h
read_out-answer (ok req) (err y, s) text e h = cc
read_out-answer (ok req) (panicked, s) text e h = cc
read_out-answer (err x) (ok _, s) text e h = ap ok h
read_out-answer (err x) (err y, s) text e h = cc
read_out-answer (err x) (panicked, s) text e h = cc
read_out-answer panicked (ok _, s) text e h = cc
read_out-answer panicked (err y, s) text e h = cc
read_out-answer panicked (panicked, s) text e h = refl

module _ {W : Type 0} (d : PipelineDeps W) (aid tid : Uuid) (prompt key : String)
    (s : State W) where
  -- the request that the prompt makes, and the stages' own run on it
  abbrev pub prompt_request : PipelineRequest
  prompt_request = with_output (
      new_request aid tid
        (record { session_key = key; content = prompt; role = "user"; user_id = "" }) no_config)

  abbrev pub prompt_run : Result PipelineRequest × State W
  prompt_run = chain (new_pipeline d) prompt_request (record s { out = [] })

  run_prompt-answer :
      (run_prompt (new_pipeline d) prompt key (ok aid) (ok tid) s).0
      ≡ answer prompt_run.0 (texts "" prompt_run.1.out)
  unfolding run_prompt execute
  run_prompt-answer =
      let sent =
        (chain-Sends (new_pipeline d) (new_pipeline-AllSend d) prompt_request).at
          (record s { out = [] }) in
      let ends = run_stages-Ends (new_pipeline d) prompt_request (record s { out = [] }) in
      read_out-answer prompt_run.0
        (run_stages (new_pipeline d) prompt_request (record s { out = [] }))
        (texts "" prompt_run.1.out) ends.result_eq
        (ap (read_chunks "") ends.out_eq
          ∙ read_chunks-texts prompt_run.0 prompt_run.1.out "" (rw sent.grown sent.is_body))

-- `ExecutePrompt` with two valid ids: if all stages succeed, it returns the texts that the stages sent, one after
-- the other, and no error; if a stage fails, it returns the texts sent until then, and the error
-- with the name of the stage; it panics if a stage does. Chunks of tool results are not part of the text.
pub execute_prompt-answer :
    {W : Type 0} (d : PipelineDeps W) (agent_id tenant_id prompt key : String) (aid tid : Uuid)
    (s : State W)
    → d.codec.parse_uuid agent_id ≡ ok aid
    → d.codec.parse_uuid tenant_id ≡ ok tid
    → (execute_prompt (new_pipeline d) d agent_id tenant_id prompt key s).0
      ≡ answer
          (prompt_run d aid tid prompt key s).0
          (texts "" (prompt_run d aid tid prompt key s).1.out)
unfolding execute_prompt
execute_prompt-answer d agent_id tenant_id prompt key aid tid s ha ht =
    rw (ha, ht) (run_prompt-answer d aid tid prompt key s)
