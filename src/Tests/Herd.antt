-- ===== src/Tests/Herd.antt =====
-- Examples for internal/burrow/herd.
use mathlib.Core.List.Perm
use capyclaw.Prelude.{
  zero, ap, some_inj, inl, inr, ℕ, suc, String, ◌≡◌, refl, none, some, List, [], ◌∷◌, ℕ_eq,
}
use capyclaw.Action.{Action, ok, pure, attempt, ◌>>=◌}
use capyclaw.Herd.Manager.{AgentHandle, Manager, Setup}
use capyclaw.Herd.Workflow.{
  AgentAssignment, WorkflowResult, execute_sequential, execute_supervisor, indexed, with_plan,
  run_workers, work,
}
use capyclaw.Herd.Workflow.Sequence.{Sequence, execute_sequential-Sequence}
use capyclaw.Llm.Failover.{at}
use capyclaw.Herd.Workflow.Places.{Job, In, IsOrder}
use capyclaw.Herd.Workflow.Workers.{Supervised, execute_supervisor-Supervised}

abbrev setup : Setup ℕ
setup = record {
  tenant_id = 1;
  factory = none;
  new_uuid = λ w. (ok w, suc w);
  uuid_text = λ id. "id";
  range = λ hs. hs;
}

abbrev child : ℕ → AgentHandle ℕ
child id = record {
  id = id;
  parent_id = 1;
  slug = "writer";
  status = "running";
  runner = some (record {
    process_message = λ content key w. (ok [], suc w);
    shutdown = λ w. (ok tt, suc w);
  });
}

abbrev two_children : Manager ℕ
two_children = record { world = 0; agents = (5, child 5) ∷ (6, child 6) ∷ [] }

-- each call of an agent is counted, and its answer is its slug
abbrev counted : String → String → Action ℕ String
counted slug prompt w = (ok slug, suc w)

abbrev member : String → AgentAssignment
member slug = record { agent_slug = slug; role = "r"; prompt = "p"; depends_on = [] }

execute_sequential-Sequence_example :
    Sequence counted
      (member "a" ∷ member "b" ∷ [])
      ""
      []
      0
      (execute_sequential counted (member "a" ∷ member "b" ∷ []) 0)
execute_sequential-Sequence_example =
    execute_sequential-Sequence counted (member "a" ∷ member "b" ∷ []) 0

abbrev in_turn : List AgentAssignment → List AgentAssignment
in_turn l = l

abbrev supervised : WorkflowResult
supervised = record {
  results =
      record { agent_slug = "boss"; output = "boss"; error = "" }
      ∷ record { agent_slug = "a"; output = "a"; error = "" }
      ∷ [];
  error = "";
}

execute_supervisor-Supervised_example : Supervised (member "boss" ∷ member "a" ∷ []) supervised
unfolding execute_supervisor with_plan run_workers work attempt pure ◌>>=◌
execute_supervisor-Supervised_example =
    execute_supervisor-Supervised counted in_turn "task" (member "boss" ∷ member "a" ∷ []) 0
      supervised (λ l. Perm.refl l) refl

abbrev last_first : List Job → List Job
last_first [] = []
last_first (x ∷ []) = x ∷ []
last_first (x ∷ y ∷ rest) = y ∷ x ∷ rest

last_first-IsOrder :
    IsOrder (member "a" ∷ member "b" ∷ []) (last_first (indexed 0 (member "a" ∷ member "b" ∷ [])))
unfolding indexed
last_first-IsOrder = record { started = (refl, (refl, tt)); ended = ended }
  where
    ended :
        (i : ℕ) (a : AgentAssignment)
        → at i (member "a" ∷ member "b" ∷ []) ≡ some a
        → In (i, a) ((1, member "b") ∷ (0, member "a") ∷ [])
    ended zero a h = inr (inl (ap (λ x. (0, x)) (some_inj h)))
    ended (suc zero) a h = inl (ap (λ x. (1, x)) (some_inj h))
    ended (suc (suc i)) a h = cc
