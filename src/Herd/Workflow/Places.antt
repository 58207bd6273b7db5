-- ===== src/Herd/Workflow/Places.antt =====
-- Where a parallel workflow of internal/burrow/herd/workflow.go leaves its results.
use capyclaw.Prelude.{
  ℕ, zero, suc, nat_eq, nat_eq_iff, Bool-cases, false, String, ◌≡◌, refl, sym, ap, ◌∙◌, ◌⊎◌, inl,
  inr, Option, none, some, some_inj, List, [], ◌∷◌, map, length, All, arith,
}
use capyclaw.Action.{ok, Action, pure}
use capyclaw.Action.OnOk.{OnOk, OnOk-bind, OnOk-eq}
use capyclaw.Llm.Failover.{at}
use capyclaw.Herd.Workflow.{
  AgentAssignment, AgentResult, WorkflowResult, no_result, set_at, indexed, work, run_parallel,
  execute_parallel,
}
use capyclaw.Herd.Workflow.Workers.{assigned, answered, IsOf, work-IsOf}

abbrev pub Job : Type 0
Job = ℕ × AgentAssignment

abbrev pub In : Job → List Job → Type 0
In x [] = ⊥
In x (y ∷ l) = (y ≡ x) ⊎ In x l

-- the goroutines that end are those that were started, one for each agent
pub record IsOrder (agents : List AgentAssignment) (jobs : List Job) : Type 0 where
  pub started : All (λ (job : Job). at job.0 agents ≡ some job.1) jobs
  pub ended : (i : ℕ) (a : AgentAssignment) → at i agents ≡ some a → In (i, a) jobs

-- the result of `a` stands at `i`
Placed : ℕ → AgentAssignment → List AgentResult → Type 0
Placed i a results = (r : AgentResult) × ((at i results ≡ some r) × (r.agent_slug ≡ a.agent_slug))

length-set_at : (i : ℕ) (r : AgentResult) (l : List AgentResult) → length (set_at i r l) ≡ length l
unfolding set_at
length-set_at i r [] = refl
length-set_at zero r (x ∷ l) = refl
length-set_at (suc i) r (x ∷ l) = ap suc (length-set_at i r l)

at-set_at :
    (i : ℕ) (r : AgentResult) (agents : List AgentAssignment) (a : AgentAssignment)
    (l : List AgentResult)
    → length l ≡ length agents
    → at i agents ≡ some a
    → at i (set_at i r l) ≡ some r
unfolding set_at
at-set_at i r [] a l e h = cc
at-set_at i r (b ∷ agents) a [] e h = absurd (omega (arith, e))
at-set_at zero r (b ∷ agents) a (x ∷ l) e h = refl
at-set_at (suc i) r (b ∷ agents) a (x ∷ l) e h = at-set_at i r agents a l (omega (arith, e)) h

at-set_at-other :
    (i j : ℕ) (r : AgentResult) (l : List AgentResult)
    → nat_eq j i ≡ false
    → at i (set_at j r l) ≡ at i l
unfolding set_at
at-set_at-other i j r [] d = refl
at-set_at-other zero zero r (x ∷ l) d = absurd (ground arith)
at-set_at-other (suc i) zero r (x ∷ l) d = refl
at-set_at-other zero (suc j) r (x ∷ l) d = refl
at-set_at-other (suc i) (suc j) r (x ∷ l) d = at-set_at-other i j r l (ground arith)

-- all results stand at their places
answered-assigned :
    (agents : List AgentAssignment) (results : List AgentResult)
    → length results ≡ length agents
    → ((i : ℕ) (a : AgentAssignment) → at i agents ≡ some a → Placed i a results)
    → answered results ≡ assigned agents
unfolding Placed
answered-assigned [] [] e h = refl
answered-assigned [] (r ∷ results) e h = absurd (omega (arith, e))
answered-assigned (a ∷ agents) [] e h = absurd (omega (arith, e))
answered-assigned (a ∷ agents) (r ∷ results) e h =
    let (x, (found, slug)) = h zero a refl in
    let head : r.agent_slug ≡ a.agent_slug =
      ap (λ (y : AgentResult). y.agent_slug) (some_inj found) ∙ slug in
    ap (λ s. s ∷ answered results) head
    ∙ ap (λ l. a.agent_slug ∷ l)
        (answered-assigned agents results (omega (arith, e)) (λ i b found. h (suc i) b found))

-- what is not pending is placed
record Progress (agents : List AgentAssignment) (jobs : List Job) (results : List AgentResult)
    : Type 0 where
  same_length : length results ≡ length agents
  placed :
      (i : ℕ) (a : AgentAssignment)
      → at i agents ≡ some a
      → (In (i, a) jobs → ⊥)
      → Placed i a results

Progress-step :
    (agents : List AgentAssignment) (j : ℕ) (b : AgentAssignment) (jobs : List Job)
    (results : List AgentResult) (r : AgentResult)
    → at j agents ≡ some b
    → r.agent_slug ≡ b.agent_slug
    → Progress agents ((j, b) ∷ jobs) results
    → Progress agents jobs (set_at j r results)
unfolding Placed
Progress-step agents j b jobs results r good slug p = record {
  same_length = length-set_at j r results ∙ p.same_length;
  placed = λ i a found free. elim (Bool-cases (nat_eq j i)) [
    | inl e ↦ here i a found ((nat_eq_iff j i).0 e)
    | inr d ↦
        let (x, (stands, is)) = p.placed i a found (λ m. elim m [
          | inl eq ↦ ne i j d (ap (λ (job : Job). job.0) eq)
          | inr later ↦ free later
        ]) in
        (x, (at-set_at-other i j r results d ∙ stands, is))
  ];
}
  where
    ne : (i j : ℕ) → nat_eq j i ≡ false → j ≡ i → ⊥
    ne i j d e = ground arith

    here :
        (i : ℕ) (a : AgentAssignment)
        → at i agents ≡ some a
        → j ≡ i
        → Placed i a (set_at j r results)
    here i a found e =
        let b_is_a : b ≡ a = some_inj (sym good ∙ ap (λ k. at k agents) e ∙ found) in
        (
          r,
          (
            ap (λ k. at k (set_at j r results)) (sym e)
                ∙ at-set_at j r agents b results p.same_length good,
            slug ∙ ap (λ (x : AgentAssignment). x.agent_slug) b_is_a,
          ),
        )

module _ {S : Type 0} (delegate : String → String → Action S String)
    (agents : List AgentAssignment) where
  Complete : WorkflowResult → Type 0
  Complete r = answered r.results ≡ assigned agents

  run_parallel-Complete :
      (jobs : List Job) (results : List AgentResult) (e : Option String) (s : S)
      → All (λ (job : Job). at job.0 agents ≡ some job.1) jobs
      → Progress agents jobs results
      → OnOk Complete (run_parallel delegate jobs results e s).0
  unfolding run_parallel pure Complete
  run_parallel-Complete [] results e s started p =
      answered-assigned agents results p.same_length (λ i a found. p.placed i a found (λ m. m))
  run_parallel-Complete ((j, b) ∷ jobs) results e s (good, started) p =
      OnOk-bind (IsOf b) Complete (work delegate b b.prompt) _ s (work-IsOf delegate b b.prompt s)
        (λ d s slug.
          run_parallel-Complete jobs (set_at j d.0 results) _ s started
            (Progress-step agents j b jobs results d.0 good slug p))

  length-blank : (l : List AgentAssignment) → length (map (λ _. no_result) l) ≡ length l
  length-blank [] = refl
  length-blank (a ∷ l) = ap suc (length-blank l)

  -- In whatever order the goroutines of a parallel workflow end, if it returns a result then each
  -- agent's result stands at the agent's place.
  pub execute_parallel-places :
      (order : List Job → List Job) (s : S) (r : WorkflowResult)
      → IsOrder agents (order (indexed 0 agents))
      → (execute_parallel delegate order agents s).0 ≡ ok r
      → answered r.results ≡ assigned agents
  unfolding execute_parallel Complete
  execute_parallel-places order s r fair e = OnOk-eq Complete _ r e (
      run_parallel-Complete (order (indexed 0 agents)) (map (λ _. no_result) agents) none s
        fair.started
        (record {
          same_length = length-blank agents;
          placed = λ i a found free. absurd (free (fair.ended i a found));
        }))
