-- ===== src/Herd/Workflow.antt =====
-- internal/burrow/herd/workflow.go, over the `Delegate` of the router. Parallel calls of `Delegate`
-- are run one after the other, in an order that is a parameter: the one in which they end.
pub mod Sequence
pub mod Workers
pub mod Places
use capyclaw.Prelude.{
  ℕ, zero, suc, ltb, String, String_eq, ◌==◌, ◌⊎◌, inl, inr, Option, none, some, List, [], ◌∷◌,
  ◌++◌, map, length, concat, if◌then◌else◌,
}
use capyclaw.Action.{Result, ok, err, panicked, Action, pure, fail, attempt, ◌>>=◌, ◌>>◌}
use capyclaw.Burrow.Types.{Uuid}
use capyclaw.Herd.Manager.{Manager, Setup}
use capyclaw.Herd.Router.{delegate}

-- `other` is any string that is none of the three
pub data WorkflowType : Type 0 where
  sequential parallel supervisor : WorkflowType
  other : String → WorkflowType

pub record AgentAssignment : Type 0 where
  pub agent_slug : String
  pub role : String
  pub prompt : String
  pub depends_on : List ℕ

pub record MultiAgentWorkflowInput : Type 0 where
  pub agents : List AgentAssignment
  pub coordination : WorkflowType
  pub prompt : String

pub record AgentResult : Type 0 where
  pub agent_slug : String
  pub output : String
  pub error : String

pub record WorkflowResult : Type 0 where
  pub results : List AgentResult
  pub error : String

abbrev pub succeeded : AgentAssignment → String → AgentResult
succeeded a output = record { agent_slug = a.agent_slug; output = output; error = "" }

-- `Delegate` gives no output beside an error
abbrev pub failed : AgentAssignment → String → AgentResult
failed a e = record { agent_slug = a.agent_slug; output = ""; error = e }

abbrev pub failure_text : AgentAssignment → String → String
failure_text a e = concat ("agent " ∷ a.agent_slug ∷ " failed: " ∷ e ∷ [])

unfoldable pub sequential_prompt : String → AgentAssignment → String
sequential_prompt prev a =
    if prev == ""
    then a.prompt
    else concat ("Previous agent output:\n" ∷ prev ∷ "\n\nYour task:\n" ∷ a.prompt ∷ [])

abbrev pub worker_lines : List AgentAssignment → List String
worker_lines [] = []
worker_lines (a ∷ rest) =
    concat ("- " ∷ a.agent_slug ∷ " (role: " ∷ a.role ∷ ")\n" ∷ []) ∷ worker_lines rest

abbrev pub supervisor_prompt : AgentAssignment → List AgentAssignment → String → String
supervisor_prompt boss workers task = concat (
    boss.prompt
    ∷ "\n\n"
    ∷ "Available workers:\n"
    ∷ concat (worker_lines workers)
    ∷ "\n\nOriginal task:\n"
    ∷ task
    ∷ [])

abbrev pub worker_prompt : String → AgentAssignment → String
worker_prompt plan a =
    concat (
      "Supervisor's plan:\n" ∷ plan ∷ "\n\nYour role: " ∷ a.role ∷ "\nYour task:\n" ∷ a.prompt ∷ [])

-- `results[idx] = r`
unfoldable pub set_at : ℕ → AgentResult → List AgentResult → List AgentResult
set_at i r [] = []
set_at zero r (x ∷ xs) = r ∷ xs
set_at (suc i) r (x ∷ xs) = x ∷ set_at i r xs

unfoldable pub indexed : ℕ → List AgentAssignment → List (ℕ × AgentAssignment)
indexed i [] = []
indexed i (a ∷ rest) = (i, a) ∷ indexed (suc i) rest

abbrev pub no_result : AgentResult
no_result = record { agent_slug = ""; output = ""; error = "" }

abbrev pub first_error : Option String → String → Option String
first_error none e = some e
first_error (some e) _ = some e

abbrev pub error_or_empty : Option String → String
error_or_empty none = ""
error_or_empty (some e) = e

module _ {S : Type 0} (delegate : String → String → Action S String) where
  -- what the loop does with the answer of an agent; `next` is the rest of the loop
  unfoldable pub after_agent :
      (String → List AgentResult → Action S WorkflowResult)
      → List AgentResult
      → AgentAssignment
      → Result String
      → Action S WorkflowResult
  after_agent next results a (ok output) s = next output (results ++ succeeded a output ∷ []) s
  after_agent next results a (err e) s =
      (ok (record { results = results ++ failed a e ∷ []; error = failure_text a e }), s)
  after_agent next results a panicked s = (panicked, s)

  unfoldable pub run_sequential :
      List AgentAssignment → String → List AgentResult → Action S WorkflowResult
  run_sequential [] prev results s = (ok (record { results = results; error = "" }), s)
  run_sequential (a ∷ rest) prev results s =
      let (r, s') = delegate a.agent_slug (sequential_prompt prev a) s in
      after_agent (run_sequential rest) results a r s'

  unfoldable pub execute_sequential : List AgentAssignment → Action S WorkflowResult
  execute_sequential agents = run_sequential agents "" []

  -- one agent's work in a goroutine: its result, and the error if there was one
  unfoldable pub work : AgentAssignment → String → Action S (AgentResult × Option String)
  work a prompt =
      attempt (λ output. (succeeded a output, none)) (λ e. (failed a e, some e))
        (delegate a.agent_slug prompt)

  unfoldable pub run_parallel :
      List (ℕ × AgentAssignment) → List AgentResult → Option String → Action S WorkflowResult
  run_parallel [] results e = pure (record { results = results; error = error_or_empty e })
  run_parallel ((i, a) ∷ rest) results e = do
    done ← work a a.prompt
    run_parallel rest (set_at i done.0 results)
        (elim done.1 [ none ↦ e | some e' ↦ first_error e e' ])

  -- `order` is the order in which the goroutines end
  unfoldable pub execute_parallel :
      (List (ℕ × AgentAssignment) → List (ℕ × AgentAssignment))
      → List AgentAssignment
      → Action S WorkflowResult
  execute_parallel order agents =
      run_parallel (order (indexed 0 agents)) (map (λ _. no_result) agents) none

  unfoldable pub run_workers :
      String → List AgentAssignment → List AgentResult → Action S WorkflowResult
  run_workers plan [] results = pure (record { results = results; error = "" })
  run_workers plan (a ∷ rest) results = do
    done ← work a (worker_prompt plan a)
    run_workers plan rest (results ++ done.0 ∷ [])

  -- a failure of the supervisor is in the result
  unfoldable pub with_plan :
      AgentAssignment → List AgentAssignment → String ⊎ String → Action S WorkflowResult
  with_plan boss workers (inl plan) = run_workers plan workers (succeeded boss plan ∷ [])
  with_plan boss workers (inr e) =
      pure (record { results = []; error = concat ("supervisor failed: " ∷ e ∷ []) })

  unfoldable pub execute_supervisor :
      (List AgentAssignment → List AgentAssignment)
      → String
      → List AgentAssignment
      → Action S WorkflowResult
  execute_supervisor order task [] = fail "supervisor workflow requires at least 2 agents"
  execute_supervisor order task (boss ∷ []) = fail "supervisor workflow requires at least 2 agents"
  execute_supervisor order task (boss ∷ worker ∷ workers) = do
    plan ←
        attempt (λ plan. inl plan) (λ e. inr e)
          (delegate boss.agent_slug (supervisor_prompt boss (worker ∷ workers) task))
    with_plan boss (order (worker ∷ workers)) plan

module _ {W : Type 0} (m : Setup W)
    (order : List (ℕ × AgentAssignment) → List (ℕ × AgentAssignment))
    (worker_order : List AgentAssignment → List AgentAssignment) where
  unfoldable pub execute : Uuid → MultiAgentWorkflowInput → Action (Manager W) WorkflowResult
  execute parent_id input = elim input.coordination [
    | sequential ↦ execute_sequential (delegate m parent_id) input.agents
    | parallel ↦ execute_parallel (delegate m parent_id) order input.agents
    | supervisor ↦ execute_supervisor (delegate m parent_id) worker_order input.prompt input.agents
    | other t ↦ fail (concat ("unknown workflow type: " ∷ t ∷ []))
  ]
