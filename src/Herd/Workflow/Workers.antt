-- ===== src/Herd/Workflow/Workers.antt =====
-- What a supervisor workflow of internal/burrow/herd/workflow.go ends with.
use mathlib.Core.List.{append_assoc, append-nil}
use mathlib.Core.List.Perm
use mathlib.Core.Path.{subst}
use mathlib.Core.List.{Perm}
use capyclaw.Prelude.{
  String, ◌≡◌, refl, sym, ap, ◌∙◌, ◌⊎◌, inl, inr, Option, none, some, List, [], ◌∷◌, ◌++◌, map,
  concat,
}
use capyclaw.Action.{Result, ok, err, panicked, Action, attempt, settle, pure, fail}
use capyclaw.Action.OnOk.{OnOk, OnOk-bind, OnOk-any, OnOk-map, OnOk-eq}
use capyclaw.Herd.Workflow.{
  AgentAssignment, AgentResult, WorkflowResult, succeeded, failed, work, run_workers, with_plan,
  execute_supervisor, worker_prompt,
}

abbrev pub assigned : List AgentAssignment → List String
assigned = map (λ (a : AgentAssignment). a.agent_slug)

abbrev pub answered : List AgentResult → List String
answered = map (λ (r : AgentResult). r.agent_slug)

map-append : (rs ss : List AgentResult) → answered (rs ++ ss) ≡ answered rs ++ answered ss
map-append [] ss = refl
map-append (r ∷ rs) ss = ap (λ l. r.agent_slug ∷ l) (map-append rs ss)

abbrev pub IsOf : AgentAssignment → AgentResult × Option String → Type 0
IsOf a d = d.0.agent_slug ≡ a.agent_slug

settle-IsOf :
    (a : AgentAssignment) (r : Result String)
    → OnOk (IsOf a) (settle (λ output. (succeeded a output, none)) (λ e. (failed a e, some e)) r)
settle-IsOf a (ok _) = refl
settle-IsOf a (err _) = refl
settle-IsOf a panicked = tt

-- Every agent has one result and there is no error, or the supervisor failed.
pub Supervised : List AgentAssignment → WorkflowResult → Type 0
Supervised agents r =
    (Perm (answered r.results) (assigned agents) × (r.error ≡ ""))
    ⊎ ((e : String) × (r
          ≡ record { results = []; error = concat ("supervisor failed: " ∷ e ∷ []) }))

module _ {S : Type 0} (delegate : String → String → Action S String) where
  pub work-IsOf :
      (a : AgentAssignment) (prompt : String) (s : S) → OnOk (IsOf a) (work delegate a prompt s).0
  unfolding work attempt
  work-IsOf a prompt s = settle-IsOf a (delegate a.agent_slug prompt s).0

  -- a result for each of the slugs
  Covers : List String → WorkflowResult → Type 0
  Covers slugs r = (answered r.results ≡ slugs) × (r.error ≡ "")

  snoc-assigned :
      (results : List AgentResult) (a : AgentAssignment) (rest : List AgentAssignment)
      (d : AgentResult × Option String)
      → IsOf a d
      → answered (results ++ d.0 ∷ []) ++ assigned rest ≡ answered results ++ assigned (a ∷ rest)
  snoc-assigned results a rest d e =
      ap (λ l. l ++ assigned rest) (map-append results (d.0 ∷ []))
      ∙ append_assoc (answered results) (d.0.agent_slug ∷ []) (assigned rest)
      ∙ ap (λ slug. answered results ++ slug ∷ assigned rest) e

  run_workers-Covers :
      (plan : String) (workers : List AgentAssignment) (results : List AgentResult) (s : S)
      → OnOk
          (Covers (answered results ++ assigned workers))
          (run_workers delegate plan workers results s).0
  unfolding run_workers pure Covers
  run_workers-Covers plan [] results s = (sym (append-nil (answered results)), refl)
  run_workers-Covers plan (a ∷ rest) results s =
      OnOk-bind (IsOf a) (Covers (answered results ++ assigned (a ∷ rest)))
        (work delegate a (worker_prompt plan a)) _ s (work-IsOf a (worker_prompt plan a) s)
        (λ d s e.
          subst
            (λ slugs.
              OnOk (Covers slugs) (run_workers delegate plan rest (results ++ d.0 ∷ []) s).0)
            (snoc-assigned results a rest d e)
            (run_workers-Covers plan rest (results ++ d.0 ∷ []) s))

  with_plan-Supervised :
      (boss : AgentAssignment) (order : List AgentAssignment → List AgentAssignment)
      (workers : List AgentAssignment) (p : String ⊎ String) (s : S)
      → Perm (order workers) workers
      → OnOk (Supervised (boss ∷ workers)) (with_plan delegate boss (order workers) p s).0
  unfolding with_plan Supervised pure Covers
  with_plan-Supervised boss order workers (inl plan) s h =
      OnOk-map (Covers (boss.agent_slug ∷ assigned (order workers))) _
        (run_workers delegate plan (order workers) (succeeded boss plan ∷ []) s).0
        (λ r c. inl (rw (c.0) (Perm.cons boss.agent_slug (Perm.map _ h)), c.1))
        (run_workers-Covers plan (order workers) (succeeded boss plan ∷ []) s)
  with_plan-Supervised boss order workers (inr e) s h = inr (e, refl)

  execute_supervisor-OnOk :
      (order : List AgentAssignment → List AgentAssignment) (task : String)
      (agents : List AgentAssignment) (s : S)
      → ((l : List AgentAssignment) → Perm (order l) l)
      → OnOk (Supervised agents) (execute_supervisor delegate order task agents s).0
  unfolding execute_supervisor fail
  execute_supervisor-OnOk order task [] s h = tt
  execute_supervisor-OnOk order task (boss ∷ []) s h = tt
  execute_supervisor-OnOk order task (boss ∷ worker ∷ workers) s h =
      OnOk-bind (λ _. Unit) (Supervised (boss ∷ worker ∷ workers)) _ _ s (OnOk-any _)
        (λ plan s _.
          with_plan-Supervised boss order (worker ∷ workers) plan s (h (worker ∷ workers)))

  -- When a supervisor workflow returns a result, each agent has exactly one result in it and there is no error,
  -- in whatever order the workers end; or the supervisor failed, and the result says so and holds
  -- no agent's result.
  pub execute_supervisor-Supervised :
      (order : List AgentAssignment → List AgentAssignment) (task : String)
      (agents : List AgentAssignment) (s : S) (r : WorkflowResult)
      → ((l : List AgentAssignment) → Perm (order l) l)
      → (execute_supervisor delegate order task agents s).0 ≡ ok r
      → Supervised agents r
  execute_supervisor-Supervised order task agents s r h e =
      OnOk-eq (Supervised agents) _ r e (execute_supervisor-OnOk order task agents s h)
