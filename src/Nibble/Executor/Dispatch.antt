-- ===== src/Nibble/Executor/Dispatch.antt =====
-- What Execute does on each of its ways: MCP server, built-in handler, sandbox.
use mathlib.Core.Path.{subst}
use capyclaw.Prelude.{
  Option, ◌≢◌, ==_neq, some_inj, concat, [], ◌∷◌, if◌then◌else◌, String, ◌≡◌, refl, inl, inr, none,
  some, Option-cases, lookup, lookup-insert, ◌==◌, ==_refl, true, String_eq, ap, sym, ◌∙◌, false,
  Bool-cases,
}
use capyclaw.Action.{Result, ok, err, panicked, settle, Action, pure, attempt, panic}
use capyclaw.Mudbath.{Tier, Tier_eq, tier_eq_iff, Sandbox, ExecResult, new_sandbox}
use capyclaw.Nibble.Registry.{ToolDef, get}
use capyclaw.Nibble.Executor.{
  ToolCall, ToolResult, Input, Executor, ExecutorState, on_world, execute_mcp, run_in,
  after_sandbox, get_sandbox, execute_sandboxed, execute_local, is_mcp, execute, tier_from_string,
  from_exec, exec_request, store, no_result,
}

none-ne-some : {A : Type 0} {a : A} → none ≡ some a → ⊥
none-ne-some h = cc

abbrev result_for : ToolCall → String → String → String → ToolResult
result_for call output error tier = record {
  call_id = call.id;
  output = output;
  error = error;
  sandbox_tier = tier;
}

-- the result for what a handler answers: its output, or its error as it is shown
abbrev pub told : ToolCall → (String → String) → Result String → Result ToolResult
told call shown (ok output) = ok (result_for call output "" "")
told call shown (err x) = ok (result_for call "" (shown x) "")
told call shown panicked = panicked

-- the result for what a sandbox answers: its output, with its error, or what it wrote to stderr if it has
-- none
abbrev pub told_by_sandbox : ToolCall → String → Result ExecResult → Result ToolResult
told_by_sandbox call tier (ok r) =
    ok (result_for call r.stdout (if r.error == "" then r.stderr else r.error) tier)
told_by_sandbox call tier (err x) =
    ok (result_for call "" (concat ("execution failed: " ∷ x ∷ [])) tier)
told_by_sandbox call tier panicked = panicked

abbrev pub mcp_failure : String → String
mcp_failure x = concat ("MCP call failed: " ∷ x ∷ [])

is_mcp-some :
    (o : Option ToolDef) (def : ToolDef)
    → is_mcp o ≡ some def
    → (o ≡ some def) × (def.source ≡ "mcp")
is_mcp-some none def h = absurd (none-ne-some h)
is_mcp-some (some found) def h = elim (Bool-cases (found.source == "mcp")) [
  | inl mcp ↦
      let same = some_inj (rw mcp at h) in
      (
        ap (λ d. some d) same,
        ap (λ d. d.source) (sym same) ∙ (String_eq.same_iff found.source "mcp").0 mcp,
      )
  | inr other ↦ absurd (none-ne-some (rw other at h))
]

is_mcp-none :
    (o : Option ToolDef) → is_mcp o ≡ none → (def : ToolDef) → o ≡ some def → def.source ≢ "mcp"
is_mcp-none none h def e = absurd (none-ne-some e)
is_mcp-none (some found) h def e = elim (Bool-cases (found.source == "mcp")) [
  | inl mcp ↦ absurd (none-ne-some (sym (rw mcp at h)))
  | inr other ↦ λ same. ==_neq other (ap (λ d. d.source) (some_inj e) ∙ same)
]

module _ {W : Type 0} (e : Executor W) (call : ToolCall) (tier : String) (s : ExecutorState W) where
  -- the tool is none of an MCP server
  abbrev NotMcp : Type 0
  NotMcp = (def : ToolDef) → get call.name s.registry ≡ some def → def.source ≢ "mcp"

  -- What Execute comes to, by who runs the tool: its MCP server, its built-in handler, or the sandbox of
  -- its tier. The result has the call's id, and each failure in its error.
  pub data Completes : Result ToolResult × ExecutorState W → Type 0 where
    no_caller :
        (def : ToolDef)
        → get call.name s.registry ≡ some def
        → def.source ≡ "mcp"
        → e.mcp_caller ≡ none
        → Completes (ok (result_for call "" "MCP caller not configured" ""), s)
    by_mcp :
        (def : ToolDef) (call_tool : String → String → Input → Action W String) (r : Result String)
        (w : W)
        → get call.name s.registry ≡ some def
        → def.source ≡ "mcp"
        → e.mcp_caller ≡ some call_tool
        → call_tool def.mcp_server_id def.mcp_tool_name call.input s.world ≡ (r, w)
        → Completes (told call mcp_failure r, record s { world = w })
    by_handler :
        (handler : Input → Action W String) (r : Result String) (w : W)
        → NotMcp
        → e.get_builtin call.name ≡ some handler
        → handler call.input s.world ≡ (r, w)
        → Completes (told call (λ x. x) r, record s { world = w })
    no_sandbox :
        (x : String) (s' : ExecutorState W)
        → NotMcp
        → e.get_builtin call.name ≡ none
        → get_sandbox e (tier_from_string tier) s ≡ (err x, s')
        → Completes
            (ok (result_for call "" (concat ("sandbox initialization failed: " ∷ x ∷ [])) tier), s')
    by_sandbox :
        (sb : Sandbox W) (s' : ExecutorState W) (r : Result ExecResult) (w : W)
        → NotMcp
        → e.get_builtin call.name ≡ none
        → get_sandbox e (tier_from_string tier) s ≡ (ok sb, s')
        → sb.execute
            (record {
              command = call.name;
              args = e.marshal call.input ∷ [];
              stdin = "";
              env = [];
              work_dir = "";
              timeout_sec = e.timeout_seconds;
              memory_mb = 256;
            })
            s'.world
          ≡ (r, w)
        → Completes (told_by_sandbox call tier r, record s' { world = w })
    broken :
        (s' : ExecutorState W)
        → NotMcp
        → e.get_builtin call.name ≡ none
        → get_sandbox e (tier_from_string tier) s ≡ (panicked, s')
        → Completes (panicked, s')

  settle-told :
      (shown : String → String) (r : Result String)
      → settle
          (λ output. record (no_result call) { output = output })
          (λ x. record (no_result call) { error = shown x })
          r
        ≡ told call shown r
  settle-told shown (ok output) = refl
  settle-told shown (err x) = refl
  settle-told shown panicked = refl

  settle-told_by_sandbox :
      (r : Result ExecResult)
      → settle
          (from_exec call tier)
          (λ x. record (no_result call) {
            error = concat ("execution failed: " ∷ x ∷ []);
            sandbox_tier = tier;
          })
          r
        ≡ told_by_sandbox call tier r
  settle-told_by_sandbox (ok r) = refl
  settle-told_by_sandbox (err x) = refl
  settle-told_by_sandbox panicked = refl

  mcp-missing :
      (def : ToolDef)
      → e.mcp_caller ≡ none
      → execute_mcp e call def s ≡ (ok (result_for call "" "MCP caller not configured" ""), s)
  unfolding execute_mcp pure
  mcp-missing def h = rw h refl

  mcp-called :
      (def : ToolDef) (call_tool : String → String → Input → Action W String)
      → e.mcp_caller ≡ some call_tool
      → execute_mcp e call def s ≡ (
          let (r, w) = call_tool def.mcp_server_id def.mcp_tool_name call.input s.world in
          (told call mcp_failure r, record s { world = w }))
  unfolding execute_mcp on_world attempt
  mcp-called def call_tool h = rw h (
      ap
        (λ r. (
          r,
          record s { world = (call_tool def.mcp_server_id def.mcp_tool_name call.input s.world).1 },
        ))
        (settle-told mcp_failure _))

  execute_mcp-Completes :
      (def : ToolDef)
      → get call.name s.registry ≡ some def
      → def.source ≡ "mcp"
      → Completes (execute_mcp e call def s)
  execute_mcp-Completes def found mcp = elim (Option-cases e.mcp_caller) [
    | inl h ↦ subst Completes (sym (mcp-missing def h)) (Completes.no_caller def found mcp h)
    | inr (call_tool, h) ↦
        subst Completes (sym (mcp-called def call_tool h))
          (Completes.by_mcp def call_tool _ _ found mcp h refl)
  ]

  after_sandbox-Completes :
      (r : Result (Sandbox W)) (s' : ExecutorState W)
      → NotMcp
      → e.get_builtin call.name ≡ none
      → get_sandbox e (tier_from_string tier) s ≡ (r, s')
      → Completes (after_sandbox e call tier r s')
  unfolding after_sandbox on_world attempt pure panic
  after_sandbox-Completes (ok sb) s' not_mcp h g =
      subst
        (λ r. Completes (r, record s' { world = (sb.execute (exec_request e call) s'.world).1 }))
        (sym (settle-told_by_sandbox (sb.execute (exec_request e call) s'.world).0))
        (Completes.by_sandbox sb s' _ _ not_mcp h g refl)
  after_sandbox-Completes (err x) s' not_mcp h g = Completes.no_sandbox x s' not_mcp h g
  after_sandbox-Completes panicked s' not_mcp h g = Completes.broken s' not_mcp h g

  execute_local-Completes : NotMcp → Completes (execute_local e call tier s)
  unfolding execute_local on_world attempt
  execute_local-Completes not_mcp = elim (Option-cases (e.get_builtin call.name)) [
    | inl h ↦ rw (h, execute_local) (after_sandbox-Completes _ _ not_mcp h refl)
    | inr (handler, h) ↦
        rw (h, execute_local)
          (subst (λ r. Completes (r, record s { world = (handler call.input s.world).1 }))
            (sym (settle-told (λ x. x) (handler call.input s.world).0))
            (Completes.by_handler handler _ _ not_mcp h refl))
  ]

  -- `Execute` never returns an error. A tool of an MCP server is called there, under its name there, and
  -- its answer is the output; a built-in handler gets the input; any other tool runs in the sandbox that
  -- is handed out for its tier. The result has the call's id. Each failure is in its error: a missing
  -- caller, the error of the server, of the handler, of the making of the sandbox or of the run, and
  -- what the tool itself reports. A panic of one of these goes through.
  pub execute-Completes : Completes (execute e call tier s)
  unfolding execute
  execute-Completes = elim (Option-cases (is_mcp (get call.name s.registry))) [
    | inl h ↦ rw (h, execute) (execute_local-Completes (is_mcp-none _ h))
    | inr (def, h) ↦
        let (found, mcp) = is_mcp-some _ def h in
        rw (h, execute) (execute_mcp-Completes def found mcp)
  ]

module _ {W : Type 0} where
  cached-store :
      (t u : Tier) (x : Result (Sandbox W) × ExecutorState W) (sb : Sandbox W)
      → (t == u) ≡ false
      → lookup u x.1.sandboxes ≡ some sb
      → lookup u (store t x).1.sandboxes ≡ some sb
  unfolding store
  cached-store t u (ok new, s) sb d h = rw (lookup-insert t u new s.sandboxes, d) h
  cached-store t u (err x, s) sb d h = h
  cached-store t u (panicked, s) sb d h = h

  store-lookup :
      (t : Tier) (x : Result (Sandbox W) × ExecutorState W) (sb : Sandbox W) (s' : ExecutorState W)
      → store t x ≡ (ok sb, s')
      → lookup t s'.sandboxes ≡ some sb
  unfolding store
  store-lookup t (ok new, s) sb s' h =
      ap (λ (p : Result (Sandbox W) × ExecutorState W). lookup t p.1.sandboxes) (sym h)
      ∙ lookup-insert t t new s.sandboxes
      ∙ rw (==_refl t) (cc (ap (λ (p : Result (Sandbox W) × ExecutorState W). p.0) h))
  store-lookup t (err x, s) sb s' h = cc (ap (λ (p : Result (Sandbox W) × ExecutorState W). p.0) h)
  store-lookup t (panicked, s) sb s' h =
      cc (ap (λ (p : Result (Sandbox W) × ExecutorState W). p.0) h)

ne-cached :
    {W : Type 0} (t u : Tier) (s : ExecutorState W) (sb : Sandbox W)
    → lookup t s.sandboxes ≡ none
    → lookup u s.sandboxes ≡ some sb
    → (t == u) ≡ false
ne-cached t u s sb n h = elim (Bool-cases (t == u)) [
  | inl e ↦
      absurd (none-ne-some (sym n ∙ ap (λ v. lookup v s.sandboxes) ((tier_eq_iff t u).0 e) ∙ h))
  | inr e ↦ e
]

module _ {W : Type 0} (e : Executor W) (t : Tier) where
  get_sandbox-hit :
      (s : ExecutorState W) (sb : Sandbox W)
      → lookup t s.sandboxes ≡ some sb
      → get_sandbox e t s ≡ (ok sb, s)
  unfolding get_sandbox
  get_sandbox-hit s sb h = rw (h, get_sandbox)

  get_sandbox-miss :
      (s : ExecutorState W)
      → lookup t s.sandboxes ≡ none
      → get_sandbox e t s ≡ store t (on_world (new_sandbox e.new_sandboxes t) s)
  unfolding get_sandbox
  get_sandbox-miss s h = rw (h, get_sandbox)

  get_sandbox-lookup :
      (s s' : ExecutorState W) (sb : Sandbox W)
      → get_sandbox e t s ≡ (ok sb, s')
      → lookup t s'.sandboxes ≡ some sb
  get_sandbox-lookup s s' sb h = elim (Option-cases (lookup t s.sandboxes)) [
    | inl n ↦ store-lookup t _ sb s' (sym (get_sandbox-miss s n) ∙ h)
    | inr (old, f) ↦
        let same : (ok old, s) ≡ (ok sb, s') = sym (get_sandbox-hit s old f) ∙ h in
        ap (λ (p : Result (Sandbox W) × ExecutorState W). lookup t p.1.sandboxes) (sym same)
        ∙ f
        ∙ cc (ap (λ (p : Result (Sandbox W) × ExecutorState W). p.0) same)
  ]

  -- Once a tier's sandbox was handed out, the next request for the tier gets the same sandbox,
  -- and calls nothing outside.
  pub get_sandbox_again :
      (s s' : ExecutorState W) (sb : Sandbox W)
      → get_sandbox e t s ≡ (ok sb, s')
      → get_sandbox e t s' ≡ (ok sb, s')
  get_sandbox_again s s' sb h = get_sandbox-hit s' sb (get_sandbox-lookup s s' sb h)

  -- the request of another tier leaves a cached sandbox in the cache
  cached-get_sandbox :
      (u : Tier) (s : ExecutorState W) (sb : Sandbox W)
      → lookup u s.sandboxes ≡ some sb
      → lookup u (get_sandbox e t s).1.sandboxes ≡ some sb
  cached-get_sandbox u s sb h = elim (Option-cases (lookup t s.sandboxes)) [
    | inr (old, f) ↦ rw (get_sandbox-hit s old f) h
    | inl n ↦ rw (get_sandbox-miss s n) (
        cached-store t u (on_world (new_sandbox e.new_sandboxes t) s) sb (ne-cached t u s sb n h)
          (unfold on_world in h))
  ]

-- `Execute` on its way through the sandboxes, and past them.
module _ {W : Type 0} (e : Executor W) (call : ToolCall) (tier : String) (s : ExecutorState W) where
  -- If an MCP caller is set, a tool of an MCP server goes to that server, under its name there, and
  -- nothing else changes: neither the tier nor a built-in handler of the same name matters.
  pub execute-mcp :
      (def : ToolDef) (call_tool : String → String → Input → Action W String)
      → get call.name s.registry ≡ some def
      → (def.source == "mcp") ≡ true
      → e.mcp_caller ≡ some call_tool
      → (execute e call tier s).1
        ≡ record s { world = (call_tool def.mcp_server_id def.mcp_tool_name call.input s.world).1 }
  unfolding execute
  execute-mcp def call_tool g m c = rw (g, execute) (rw (m, execute) (rw (c, execute_mcp) refl))

  -- A tool that is not of an MCP server and has a built-in handler runs in the process, whatever
  -- the tier: the handler gets the input, and no sandbox is looked up, made or entered.
  pub execute-builtin :
      (handler : Input → Action W String)
      → is_mcp (get call.name s.registry) ≡ none
      → e.get_builtin call.name ≡ some handler
      → (execute e call tier s).1 ≡ record s { world = (handler call.input s.world).1 }
  unfolding execute
  execute-builtin handler m b = rw (m, execute) (rw (b, execute_local) refl)

  -- A tool that is not of an MCP server and has no built-in handler runs in the sandbox that is
  -- handed out for its tier: if the sandbox gives a result, so does `Execute`, and what changes is
  -- what handing out the sandbox and running in it changed.
  pub execute-sandbox :
      (sb : Sandbox W) (s' : ExecutorState W) (r : ExecResult) (w : W)
      → is_mcp (get call.name s.registry) ≡ none
      → e.get_builtin call.name ≡ none
      → get_sandbox e (tier_from_string tier) s ≡ (ok sb, s')
      → sb.execute (exec_request e call) s'.world ≡ (ok r, w)
      → execute e call tier s ≡ (ok (from_exec call tier r), record s' { world = w })
  unfolding execute
  execute-sandbox sb s' r w m b g x =
      rw (m, execute) (rw (b, execute_local) (rw (g, execute_sandboxed) (rw (x, run_in) refl)))
