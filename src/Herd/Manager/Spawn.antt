-- ===== src/Herd/Manager/Spawn.antt =====
-- What Spawn of internal/burrow/herd/manager.go leaves for FindBySlug.
use capyclaw.Prelude.{
  String, String_eq, ℕ_eq, ◌==◌, ==_refl, ◌≡◌, refl, sym, ap, ◌∙◌, ◌⊎◌, inl, inr, true, false,
  Bool-cases, Option, some, List, [], ◌∷◌, Map, insert, values,
}
use capyclaw.Action.{ok}
use capyclaw.Action.OnOk.{OnOk, OnOk-eq, Post-bind}
use capyclaw.Burrow.Types.{Uuid}
use capyclaw.Herd.Manager.{
  AgentHandle, AgentRunner, Manager, Setup, is_child, find_child, add_agent, spawn, find_by_slug,
}

module _ {W : Type 0} where
  abbrev pub In : AgentHandle W → List (AgentHandle W) → Type 0
  In x [] = ⊥
  In x (y ∷ l) = (y ≡ x) ⊎ In x l

  find_child-found :
      (parent_id : Uuid) (slug : String) (hs : List (AgentHandle W)) (h : AgentHandle W)
      → In h hs
      → is_child parent_id slug h ≡ true
      → (x : AgentHandle W) × (find_child parent_id slug hs ≡ some x)
  unfolding find_child
  find_child-found parent_id slug [] h m c = elim m [ ]
  find_child-found parent_id slug (y ∷ hs) h m c = elim (Bool-cases (is_child parent_id slug y)) [
    | inl e ↦ (y, rw (e, find_child) refl)
    | inr e ↦ elim m [
      | inl same ↦ absurd (no_child (sym e ∙ ap (is_child parent_id slug) same ∙ c))
      | inr later ↦
          let (x, found) = find_child-found parent_id slug hs h later c in
          (x, rw (e, find_child) found)
    ]
  ]
    where
      no_child : false ≡ true → ⊥
      no_child e = cc

  In-insert :
      (id : Uuid) (h : AgentHandle W) (agents : Map Uuid (AgentHandle W))
      → In h (values (insert id h agents))
  unfolding insert
  In-insert id h [] = inl refl
  In-insert id h ((j, x) ∷ agents) = elim (Bool-cases (j == id)) [
    | inl e ↦ rw (e, insert) (inl refl)
    | inr e ↦ rw (e, insert) (inr (In-insert id h agents))
  ]

  -- a running child of the parent with the slug stands among the agents
  Child : Uuid → String → AgentHandle W → Manager W → Type 0
  Child parent_id slug h s = In h (values s.agents) × (is_child parent_id slug h ≡ true)

module _ {W : Type 0} (m : Setup W) (parent_id : Uuid) (slug : String) where
  new_child :
      (id : Uuid) (runner : Option (AgentRunner W))
      → is_child parent_id slug (record {
        id = id;
        parent_id = parent_id;
        slug = slug;
        status = "running";
        runner = runner;
      })
        ≡ true
  new_child id runner = rw (==_refl slug, ==_refl parent_id) refl

  spawn-Child :
      (s : Manager W)
      → OnOk (λ h. Child parent_id slug h (spawn m parent_id slug s).1) (spawn m parent_id slug s).0
  unfolding spawn add_agent Child
  spawn-Child s = Post-bind (Child parent_id slug) _ _ s (λ id s.
      Post-bind (Child parent_id slug) _ _ s
        (λ runner s. (In-insert id _ s.agents, new_child id runner)))

  -- After a `Spawn` that succeeded, `FindBySlug` finds an agent for the same parent and slug, so that
  -- the next `Delegate` to it spawns none. The order in which Go ranges over the agents leaves none
  -- out.
  pub spawn-found :
      (s : Manager W) (h : AgentHandle W)
      → ((l : List (AgentHandle W)) (x : AgentHandle W) → In x l → In x (m.range l))
      → (spawn m parent_id slug s).0 ≡ ok h
      → (x : AgentHandle W) × (find_by_slug m parent_id slug (spawn m parent_id slug s).1 ≡ some x)
  unfolding find_by_slug Child
  spawn-found s h all e =
      let child =
        OnOk-eq (λ a. Child parent_id slug a (spawn m parent_id slug s).1) _ h e (spawn-Child s) in
      find_child-found parent_id slug (m.range (values (spawn m parent_id slug s).1.agents)) h
        (all _ h child.0) child.1
