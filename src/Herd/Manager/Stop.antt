-- ===== src/Herd/Manager/Stop.antt =====
-- What Stop of internal/burrow/herd/manager.go does to the agents.
use capyclaw.Prelude.{
  ℕ_eq, ◌==◌, ◌≡◌, refl, ap, ◌∙◌, Option, none, some, lookup, delete, lookup-delete, if◌then◌else◌,
}
use capyclaw.Action.{Result, ok, err, panicked, fail, continue, ◌>>=◌}
use capyclaw.Burrow.Types.{Uuid}
use capyclaw.Herd.Manager.{
  AgentHandle, Manager, Setup, on_agents, remove_agent, shut_down, stop_found, stop,
}

module _ {W : Type 0} (m : Setup W) (id : Uuid) where
  -- the agents once the runner was shut down with `r`
  after_shut_down :
      (r : Result (Unit {0})) (s t : Manager W)
      → t.agents ≡ s.agents
      → (continue r (λ _. remove_agent id) t).0 ≡ ok tt
      → (continue r (λ _. remove_agent id) t).1.agents ≡ delete id s.agents
  unfolding remove_agent
  after_shut_down (ok u) s t e h = ap (delete id) e
  after_shut_down (err x) s t e h = cc
  after_shut_down panicked s t e h = cc

  stop_found-agents :
      (o : Option (AgentHandle W)) (s : Manager W)
      → (stop_found m id o s).0 ≡ ok tt
      → (stop_found m id o s).1.agents ≡ delete id s.agents
  unfolding stop_found fail ◌>>=◌ on_agents
  stop_found-agents none s h = cc
  stop_found-agents (some x) s h =
      after_shut_down (on_agents (shut_down x.runner) s).0 s (on_agents (shut_down x.runner) s).1
        refl h

  -- After a `Stop` that succeeded, the agent is gone and every other agent is as it was.
  pub stop-lookup :
      (j : Uuid) (s : Manager W)
      → (stop m id s).0 ≡ ok tt
      → lookup j (stop m id s).1.agents ≡ (if id == j then none else lookup j s.agents)
  unfolding stop
  stop-lookup j s h =
      ap (lookup j) (stop_found-agents (lookup id s.agents) s h) ∙ lookup-delete id j s.agents
