-- ===== src/Wetland/Footprint.antt =====
-- internal/wetland/footprint/events.go and logger.go: the audit log.
pub mod Filter
use capyclaw.Prelude.{
  ℕ, ◌+◌, ◌^◌, String, String_eq, ◌==◌, ◌||◌, Option, none, some, List, [], ◌∷◌, ◌++◌, concat,
  Int64, int_lt, if◌then◌else◌,
}
use capyclaw.Action.{Result, ok, err, panicked, Action, pure, within, ◌>>=◌, ◌>>◌}
use capyclaw.Sql.{Arg, Statement, Field, start, add, add_fields, scan_rows}

-- `details` is the bytes of a JSON text; the time of the creation is left out
pub record AuditEvent : Type 0 where
  pub id : Int64
  pub tenant_id : String
  pub actor_id : Option String
  pub actor_type : String
  pub action : String
  pub resource_type : String
  pub resource_id : Option String
  pub details : List ℕ
  pub ip_address : String
  pub user_agent : String
  pub request_id : String

pub record AuditFilter : Type 0 where
  pub tenant_id : Option String
  pub actor_id : Option String
  pub action : String
  pub resource_type : String
  pub since : Option ℕ
  pub until : Option ℕ
  pub limit : Int64
  pub offset : Int64

abbrev pub action_llm_request : String
action_llm_request = "llm.request"

-- `pool.Exec` of the insertion, and `pool.Query` with a scan of each row
pub record AuditDb (W : Type 0) : Type 0 where
  pub insert_event : AuditEvent → Action W (Unit {0})
  pub query : String → List Arg → Action W (List (Result AuditEvent))
  pub number_text : ℕ → String

abbrev pub uuid_arg : Option String → Option Arg
uuid_arg none = none
uuid_arg (some id) = some (Arg.uuid id)

abbrev pub instant_arg : Option ℕ → Option Arg
instant_arg none = none
instant_arg (some t) = some (Arg.instant t)

-- `if v != ""`
abbrev pub non_empty_arg : String → Option Arg
non_empty_arg t = if t == "" then none else some (Arg.text t)

-- the conditions of a filter in the order of the code
abbrev pub filter_fields : AuditFilter → List Field
filter_fields f =
    (" AND tenant_id = $", uuid_arg f.tenant_id)
    ∷ (" AND actor_id = $", uuid_arg f.actor_id)
    ∷ (" AND action = $", non_empty_arg f.action)
    ∷ (" AND resource_type = $", non_empty_arg f.resource_type)
    ∷ (" AND created_at >= $", instant_arg f.since)
    ∷ (" AND created_at <= $", instant_arg f.until)
    ∷ []

-- `if limit <= 0 || limit > 200 { limit = 50 }`
unfoldable pub effective_limit : Int64 → Int64
effective_limit limit = if int_lt limit 1 || int_lt 200 limit then 50 else limit

-- `if offset < 0 { offset = 0 }`
unfoldable pub effective_offset : Int64 → Int64
effective_offset offset = if int_lt offset 0 then 0 else offset

abbrev pub select_events : String
select_events = concat (
    "SELECT id, tenant_id, actor_id, actor_type, action, resource_type, resource_id, details, "
    ∷ "ip_address, user_agent, request_id, created_at FROM audit_log WHERE 1=1" ∷ [])

module _ {W : Type 0} (db : AuditDb W) where
  -- `Log`
  unfoldable pub log : AuditEvent → Action W (Unit {0})
  log event = within "logging audit event: " (db.insert_event event)

  -- the statement of `Query`; its last clause has two placeholders
  unfoldable pub filter_statement : AuditFilter → Statement
  unfolding effective_limit effective_offset
  filter_statement f = add db.number_text " OFFSET $" (Arg.int (effective_offset f.offset)) (
      add db.number_text " ORDER BY id DESC LIMIT $" (Arg.int (effective_limit f.limit))
        (add_fields db.number_text (filter_fields f) (start select_events)))

  -- `Query`
  unfoldable pub query_events : AuditFilter → Action W (List AuditEvent)
  unfolding filter_statement scan_rows
  query_events f = do
    rows ←
        within "querying audit log: "
          (db.query (filter_statement f).query (filter_statement f).args)
    λ w. (
      elim (scan_rows rows []) [
        | ok events ↦ ok events
        | err e ↦ err (concat ("scanning audit event: " ∷ e ∷ []))
        | panicked ↦ panicked
      ],
      w,
    )
