-- ===== src/Herd/Workflow/Sequence.antt =====
-- What a sequential workflow of internal/burrow/herd/workflow.go ends with.
use mathlib.Core.List.{append_assoc, append-nil}
use capyclaw.Prelude.{
  String, String_eq, ◌==◌, ==_neq, concat, ◌≡◌, ◌≢◌, refl, sym, ap, ◌∙◌, Bool-cases, inl, inr, List,
  [], ◌∷◌, ◌++◌,
}
use capyclaw.Action.{Result, ok, err, panicked, Action}
use capyclaw.Herd.Workflow.{
  AgentAssignment, AgentResult, WorkflowResult, succeeded, failed, sequential_prompt, after_agent,
  run_sequential, execute_sequential,
}

abbrev output_of : AgentAssignment → String → AgentResult
output_of a output = record { agent_slug = a.agent_slug; output = output; error = "" }

abbrev error_of : AgentAssignment → String → AgentResult
error_of a e = record { agent_slug = a.agent_slug; output = ""; error = e }

-- The prompt of an agent: its own after an empty output, or else the output of the agent before and then
-- its own.
pub data AskedWith (prev : String) (a : AgentAssignment) : String → Type 0 where
  own : prev ≡ "" → AskedWith prev a a.prompt
  passed_on :
      prev ≢ ""
      → AskedWith prev a
          (concat ("Previous agent output:\n" ∷ prev ∷ "\n\nYour task:\n" ∷ a.prompt ∷ []))

sequential_prompt-AskedWith :
    (prev : String) (a : AgentAssignment) → AskedWith prev a (sequential_prompt prev a)
unfolding sequential_prompt
sequential_prompt-AskedWith prev a = elim (Bool-cases (prev == "")) [
  | inl empty ↦ rw empty (AskedWith.own ((String_eq.same_iff prev "").0 empty))
  | inr filled ↦ rw filled (AskedWith.passed_on (==_neq filled))
]

module _ {S : Type 0} (delegate : String → String → Action S String) where
  -- The agents of the list answer in turn, each asked with the output of the one before; the
  -- results are theirs, and the last state and output are `t` and `last`.
  pub data Answered
      : List AgentAssignment → String → S → List AgentResult → String → S → Type 0 where
    nobody : {prev : String} {s : S} → Answered [] prev s [] prev s
    then_next :
        {a : AgentAssignment} {rest : List AgentAssignment} {prev asked output last : String}
        {s s' t : S} {results : List AgentResult}
        → AskedWith prev a asked
        → delegate a.agent_slug asked s ≡ (ok output, s')
        → Answered rest output s' results last t
        → Answered (a ∷ rest) prev s (output_of a output ∷ results) last t

  -- the three ways in which a run on `agents` ends, after the results `before`
  pub data Sequence (agents : List AgentAssignment) (prev : String) (before : List AgentResult)
      (s : S) : Result WorkflowResult × S → Type 0 where
    completed :
        (results : List AgentResult) (last : String) (t : S) (r : WorkflowResult)
        → Answered agents prev s results last t
        → r.results ≡ before ++ results
        → r.error ≡ ""
        → Sequence agents prev before s (ok r, t)
    stopped :
        (first after : List AgentAssignment) (a : AgentAssignment) (results : List AgentResult)
        (last asked e : String) (t t' : S) (r : WorkflowResult)
        → agents ≡ first ++ a ∷ after
        → Answered first prev s results last t
        → AskedWith last a asked
        → delegate a.agent_slug asked t ≡ (err e, t')
        → r.results ≡ before ++ (results ++ error_of a e ∷ [])
        → r.error ≡ concat ("agent " ∷ a.agent_slug ∷ " failed: " ∷ e ∷ [])
        → Sequence agents prev before s (ok r, t')
    crashed :
        (first after : List AgentAssignment) (a : AgentAssignment) (results : List AgentResult)
        (last asked : String) (t t' : S)
        → agents ≡ first ++ a ∷ after
        → Answered first prev s results last t
        → AskedWith last a asked
        → delegate a.agent_slug asked t ≡ (panicked, t')
        → Sequence agents prev before s (panicked, t')

  Sequence-step :
      (a : AgentAssignment) (rest : List AgentAssignment) (prev output : String)
      (before : List AgentResult) (s s' : S) (x : Result WorkflowResult × S)
      → delegate a.agent_slug (sequential_prompt prev a) s ≡ (ok output, s')
      → Sequence rest output (before ++ succeeded a output ∷ []) s' x
      → Sequence (a ∷ rest) prev before s x
  Sequence-step a rest prev output before s s' _ h (completed results last t r answered eq e) =
      completed (succeeded a output ∷ results) last t r
        (then_next (sequential_prompt-AskedWith prev a) h answered)
        (eq ∙ append_assoc before (succeeded a output ∷ []) results) e
  Sequence-step a rest prev output before s s' _ h
        (stopped first after b results last asked x t t' r split answered told f eq e) =
      stopped (a ∷ first) after b (succeeded a output ∷ results) last asked x t t' r
        (ap (λ l. a ∷ l) split) (then_next (sequential_prompt-AskedWith prev a) h answered) told f
        (eq ∙ append_assoc before (succeeded a output ∷ []) (results ++ failed b x ∷ [])) e
  Sequence-step a rest prev output before s s' _ h
        (crashed first after b results last asked t t' split answered told f) =
      crashed (a ∷ first) after b (succeeded a output ∷ results) last asked t t'
        (ap (λ l. a ∷ l) split) (then_next (sequential_prompt-AskedWith prev a) h answered) told f

  Sequence-after :
      (a : AgentAssignment) (rest : List AgentAssignment) (prev : String)
      (before : List AgentResult) (s s' : S) (r : Result String)
      → delegate a.agent_slug (sequential_prompt prev a) s ≡ (r, s')
      → ((output : String) (before : List AgentResult)
          → Sequence rest output before s' (run_sequential delegate rest output before s'))
      → Sequence
          (a ∷ rest)
          prev
          before
          s
          (after_agent delegate (run_sequential delegate rest) before a r s')
  unfolding after_agent
  Sequence-after a rest prev before s s' (ok output) h later =
      Sequence-step a rest prev output before s s' _ h
        (later output (before ++ succeeded a output ∷ []))
  Sequence-after a rest prev before s s' (err e) h later =
      stopped [] rest a [] prev (sequential_prompt prev a) e s s' _ refl nobody
        (sequential_prompt-AskedWith prev a) h refl refl
  Sequence-after a rest prev before s s' panicked h later =
      crashed [] rest a [] prev (sequential_prompt prev a) s s' refl nobody
        (sequential_prompt-AskedWith prev a) h

  run_sequential-Sequence :
      (agents : List AgentAssignment) (prev : String) (before : List AgentResult) (s : S)
      → Sequence agents prev before s (run_sequential delegate agents prev before s)
  unfolding run_sequential
  run_sequential-Sequence [] prev before s =
      completed [] prev s _ nobody (sym (append-nil before)) refl
  run_sequential-Sequence (a ∷ rest) prev before s =
      Sequence-after a rest prev before s (delegate a.agent_slug (sequential_prompt prev a) s).1
        (delegate a.agent_slug (sequential_prompt prev a) s).0 refl
        (λ output before. run_sequential-Sequence rest output before _)

  -- A sequential workflow asks its agents in turn, the first with its prompt, and each other with
  -- the output of the one before, if it is not empty, and then its prompt. Either
  -- all answer, and the results are theirs and there is no error; or the first one that fails ends the workflow: the results are those of the agents before it and its failure,
  -- and the error names it; or an agent panics. The workflow itself never returns an error, and
  -- no agent after a failure is asked.
  pub execute_sequential-Sequence :
      (agents : List AgentAssignment) (s : S)
      → Sequence agents "" [] s (execute_sequential delegate agents s)
  unfolding execute_sequential
  execute_sequential-Sequence agents s = run_sequential-Sequence agents "" [] s
