-- ===== src/Wetland/Tenant.antt =====
-- internal/wetland/marsh/tenant.go: TenantManager.
pub mod Update
use capyclaw.Prelude.{
  ℕ, String, Option, none, some, List, [], ◌∷◌, ◌++◌, concat, ◌==◌, String_eq, if◌then◌else◌,
}
use capyclaw.Action.{Result, ok, err, panicked, Action, pure, within, ◌>>=◌}
use capyclaw.Sql.{Arg, Statement, Field, start, add, add_fields, scan_rows}

-- the times of the creation and of the last update are left out
pub record TenantRow : Type 0 where
  pub id : String
  pub name : String
  pub slug : String
  pub plan : String
  pub status : String
  pub quota : List ℕ
  pub suspended_reason : Option String

-- `pool.QueryRow(…).Scan(…)`, and `pool.Query` with a scan of each row
pub record TenantDb (W : Type 0) : Type 0 where
  pub query_row : String → List Arg → Action W TenantRow
  pub query : String → List Arg → Action W (List (Result TenantRow))
  pub number_text : ℕ → String

abbrev pub columns : String
columns =
    "id, name, slug, plan, status, quota, suspended_at, suspended_reason, created_at, updated_at"

-- a raw message is its bytes
pub record TenantUpdate : Type 0 where
  pub name : Option String
  pub plan : Option String
  pub status : Option String
  pub quota : Option (List ℕ)

abbrev pub text_arg : Option String → Option Arg
text_arg none = none
text_arg (some t) = some (Arg.text t)

abbrev pub raw_arg : Option (List ℕ) → Option Arg
raw_arg none = none
raw_arg (some bytes) = some (Arg.raw bytes)

-- the fields of an update in the order of the code, with their clauses
abbrev pub update_fields : TenantUpdate → List Field
update_fields u =
    (", name = $", text_arg u.name)
    ∷ (", plan = $", text_arg u.plan)
    ∷ (", status = $", text_arg u.status)
    ∷ (", quota = $", raw_arg u.quota)
    ∷ []

module _ {W : Type 0} (db : TenantDb W) where
  -- `Get`
  unfoldable pub get_tenant : String → Action W TenantRow
  get_tenant id = within "get tenant: " (
      db.query_row (concat ("SELECT " ∷ columns ∷ " FROM tenants WHERE id = $1" ∷ []))
        (Arg.uuid id ∷ []))

  -- `Create`
  unfoldable pub create_tenant : String → String → String → Action W TenantRow
  create_tenant name slug plan = within "create tenant: " (
      db.query_row
        (concat
          ("INSERT INTO tenants (name, slug, plan) VALUES ($1, $2, $3) RETURNING " ∷ columns ∷ []))
        (Arg.text name ∷ Arg.text slug ∷ Arg.text plan ∷ []))

  -- `List`
  unfoldable pub list_tenants : Action W (List TenantRow)
  unfolding scan_rows
  list_tenants = do
    rows ←
        within "list tenants: "
          (db.query (concat ("SELECT " ∷ columns ∷ " FROM tenants ORDER BY name" ∷ [])) [])
    λ w. (scan_rows rows [], w)

  -- the statement of `Update` up to the clause of the identifier
  unfoldable pub update_statement : String → TenantUpdate → Statement
  update_statement id u =
      add db.number_text " WHERE id = $" (Arg.uuid id) (
        add_fields db.number_text (update_fields u) (start "UPDATE tenants SET updated_at = NOW()"))

  -- `Update`
  unfoldable pub update_tenant : String → TenantUpdate → Action W TenantRow
  unfolding update_statement
  update_tenant id u =
      let s = update_statement id u in
      within "update tenant: "
        (db.query_row (concat (s.query ∷ " RETURNING " ∷ columns ∷ [])) s.args)

  -- `Suspend`
  unfoldable pub suspend_tenant : String → String → Action W TenantRow
  suspend_tenant id reason = within "suspend tenant: " (
      db.query_row
        (concat (
          "UPDATE tenants SET status = 'suspended', suspended_at = NOW(), suspended_reason = $2, "
          ∷ "updated_at = NOW() WHERE id = $1 RETURNING " ∷ columns ∷ []))
        (Arg.uuid id ∷ Arg.text reason ∷ []))
