-- ===== src/Burrow/Pipeline/Output.antt =====
-- The chunks that a run of the pipeline sends: the stages send none that ends the stream, and the
-- goroutine of `Execute` sends one.
use mathlib.Core.List.{append-nil}
use capyclaw.Prelude.{String, ◌≡◌, refl, sym, ap, ◌∙◌, true, List, [], ◌∷◌, ◌++◌, All, concat}
use capyclaw.Action.{Result, ok, err, panicked, Action}
use capyclaw.Burrow.Types.{StreamChunk, StreamType, PipelineRequest}
use capyclaw.Burrow.Deps.{PipelineDeps, State, emit}
use capyclaw.Burrow.Sends.{Sends, Sends-pure, Sent, IsBody, Sent-refl, Sent-trans}
use capyclaw.Burrow.Stages.SessionResolver.Output.{resolve_session-Sends}
use capyclaw.Burrow.Stages.WorkspaceLoader.Output.{load_workspace-Sends}
use capyclaw.Burrow.Stages.ModelSelector.{select_model}
use capyclaw.Burrow.Stages.PromptBuilder.Output.{build_prompt-Sends}
use capyclaw.Burrow.Stages.ToolPolicyFilter.Output.{filter_tools-Sends}
use capyclaw.Burrow.Stages.LlmInvoker.Output.{invoke_llm-Sends}
use capyclaw.Burrow.Stages.ToolExecutor.Output.{execute_tools-Sends}
use capyclaw.Burrow.Stages.SessionPersister.Output.{persist-Sends}
use capyclaw.Burrow.Pipeline.{
  Stage, new_pipeline, max_tool_iterations, end_chunk, next_stage, run_stages, execute,
}

-- an error that stops the stages stands with the name of its stage
abbrev pub named : String → Result PipelineRequest → Result PipelineRequest
named name (ok req) = ok req
named name (err e) = err (concat ("pipeline stage " ∷ name ∷ " failed: " ∷ e ∷ []))
named name panicked = panicked

-- the last chunk for an outcome of the stages: none after a panic
abbrev pub last_chunk : Result PipelineRequest → List StreamChunk
last_chunk (ok _) = end_chunk StreamType.done "" ∷ []
last_chunk (err e) = end_chunk StreamType.error e ∷ []
last_chunk panicked = []

-- the goroutine reports an error on the channel only
abbrev pub reported : Result PipelineRequest → Result (Unit {0})
reported (ok _) = ok tt
reported (err _) = ok tt
reported panicked = panicked

-- the request that `Execute` hands to the first stage
abbrev pub with_output : PipelineRequest → PipelineRequest
with_output req = record req { has_output = true }

module _ {W : Type 0} where
  abbrev pub then_run :
      (PipelineRequest → Action (State W) PipelineRequest)
      → Result PipelineRequest
      → Action (State W) PipelineRequest
  then_run next (ok req) s = next req s
  then_run next (err e) s = (err e, s)
  then_run next panicked s = (panicked, s)

  -- the stages one after the other, with no word of chunks
  unfoldable pub chain : List (Stage W) → PipelineRequest → Action (State W) PipelineRequest
  chain [] req s = (ok req, s)
  chain (stage ∷ stages) req s =
      let (r, s') = stage.process req s in then_run (chain stages) (named stage.name r) s'

  pub data AllSend : List (Stage W) → Type 0 where
    none_left : AllSend []
    and_then :
        {stage : Stage W} {stages : List (Stage W)}
        → ((req : PipelineRequest) → Sends W PipelineRequest (stage.process req))
        → AllSend stages
        → AllSend (stage ∷ stages)

  Sent-then_run :
      (next : PipelineRequest → Action (State W) PipelineRequest) (r : Result PipelineRequest)
      (s : State W)
      → ((req : PipelineRequest) → Sends W _ (next req))
      → Sent W s (then_run next r s).1
  Sent-then_run next (ok req) s h = (h req).at s
  Sent-then_run next (err e) s h = Sent-refl s
  Sent-then_run next panicked s h = Sent-refl s

  pub chain-Sends :
      (stages : List (Stage W))
      → AllSend stages
      → (req : PipelineRequest) → Sends W PipelineRequest (chain stages req)
  unfolding chain
  chain-Sends [] none_left req = record { at = λ s. Sent-refl s }
  chain-Sends (stage ∷ stages) (and_then h hs) req = record {
    at = λ s. Sent-trans ((h req).at s) (
        Sent-then_run (chain stages) (named stage.name (stage.process req s).0)
          (stage.process req s).1 (chain-Sends stages hs));
  }

  pub new_pipeline-AllSend : (d : PipelineDeps W) → AllSend (new_pipeline d)
  unfolding new_pipeline select_model
  new_pipeline-AllSend d = and_then (resolve_session-Sends d) (
      and_then (load_workspace-Sends d) (
        and_then (λ req. Sends-pure _)
          (and_then (build_prompt-Sends d) (
            and_then (filter_tools-Sends d) (
              and_then (invoke_llm-Sends d) (
                and_then (execute_tools-Sends d (max_tool_iterations d.config))
                  (and_then (persist-Sends d) none_left)))))))

  -- a run of the goroutine, against the stages' own run
  pub record Ends (run : Result PipelineRequest × State W) (r : Result (Unit {0}) × State W)
      : Type 0 where
    pub out_eq : r.1.out ≡ run.1.out ++ last_chunk run.0
    pub result_eq : r.0 ≡ reported run.0

  next_stage-Ends :
      (stages : List (Stage W)) (name : String) (r : Result PipelineRequest) (s : State W)
      → ((req : PipelineRequest) (s : State W)
          → Ends (chain stages req s) (run_stages stages req s))
      → Ends (then_run (chain stages) (named name r) s) (next_stage (run_stages stages) name r s)
  unfolding next_stage emit
  next_stage-Ends stages name (ok req) s h = h req s
  next_stage-Ends stages name (err e) s h = record { out_eq = refl; result_eq = refl }
  next_stage-Ends stages name panicked s h = record {
    out_eq = sym (append-nil s.out);
    result_eq = refl;
  }

  pub run_stages-Ends :
      (stages : List (Stage W)) (req : PipelineRequest) (s : State W)
      → Ends (chain stages req s) (run_stages stages req s)
  unfolding run_stages chain emit
  run_stages-Ends [] req s = record { out_eq = refl; result_eq = refl }
  run_stages-Ends (stage ∷ stages) req s =
      next_stage-Ends stages stage.name (stage.process req s).0 (stage.process req s).1
        (run_stages-Ends stages)

  -- what a reader of the output channel gets from one run
  pub record OneEnd (d : PipelineDeps W) (req : PipelineRequest) (s : State W) : Type 0 where
    pub body : List StreamChunk
    pub is_body : All IsBody body
    pub out_eq :
        (execute (new_pipeline d) req s).1.out
        ≡ (s.out ++ body) ++ last_chunk (chain (new_pipeline d) (with_output req) s).0
    pub result_eq :
        (execute (new_pipeline d) req s).0 ≡ reported (chain (new_pipeline d) (with_output req) s).0

  -- A run of the pipeline sends, after what was sent before, chunks that do not end the stream,
  -- and then one chunk that does: "done" if all eight stages succeeded, "error" with the failing
  -- stage's name and error otherwise, and none if a stage panicked. `Execute` itself
  -- never returns an error.
  pub execute-OneEnd : (d : PipelineDeps W) (req : PipelineRequest) (s : State W) → OneEnd d req s
  unfolding execute
  execute-OneEnd d req s =
      let sent = (chain-Sends (new_pipeline d) (new_pipeline-AllSend d) (with_output req)).at s in
      let ends = run_stages-Ends (new_pipeline d) (with_output req) s in
      record {
        body = sent.body;
        is_body = sent.is_body;
        out_eq =
            ends.out_eq
            ∙ ap (λ o. o ++ last_chunk (chain (new_pipeline d) (with_output req) s).0) sent.grown;
        result_eq = ends.result_eq;
      }
