-- ===== src/Middleware/Audit.antt =====
-- internal/riverbank/middleware/audit.go. The goroutine that writes the event is run at once.
use text.Mathlib.Text.{starts_with}
use capyclaw.Prelude.{
  String, String_eq, ◌==◌, ◌||◌, ◌&&◌, not, Bool, true, false, Option, none, some, List, [], ◌∷◌,
  concat, if◌then◌else◌,
}
use capyclaw.Action.{Result, ok, err, panicked}
use capyclaw.Middleware.Http.{
  Request, Context, Exchange, Response, Handler, value_or_empty, split_slashes, trim_left,
  trim_right,
}
use capyclaw.Wetland.Footprint.{AuditDb, AuditEvent, log}

-- `uuid.Parse` of a text, as the identifier that it is read as; and `strings.ToLower`
pub record Texts : Type 0 where
  pub parse_uuid : String → Option String
  pub lower : String → String

-- `isAuditableGet`
abbrev pub is_auditable_get : String → Bool
is_auditable_get path = starts_with path "/api/v1/admin/"

abbrev pub is_some : {A : Type 0} → Option A → Bool
is_some none = false
is_some (some _) = true

abbrev pub nil_uuid : String
nil_uuid = "00000000-0000-0000-0000-000000000000"

module _ (texts : Texts) where
  -- the loop of `deriveAction`
  unfoldable pub resource_of : String → List String → String
  resource_of resource [] = resource
  resource_of resource (s ∷ ss) =
      resource_of
        (if not (is_some (texts.parse_uuid s)) && not (s == "api") && not (s == "v1")
          then s
          else resource)
        ss

  -- `deriveAction`
  unfoldable pub derive_action : String → String → String
  unfolding resource_of split_slashes trim_left trim_right
  derive_action method path =
      let resource = resource_of "" (split_slashes (trim_right (trim_left path))) in
      if method == "POST"
      then concat (resource ∷ ".create" ∷ [])
      else if method == "PATCH" || method == "PUT"
      then concat (resource ∷ ".update" ∷ [])
      else if method == "DELETE"
      then concat (resource ∷ ".delete" ∷ [])
      else if method == "GET"
      then concat (resource ∷ ".read" ∷ [])
      else concat (resource ∷ "." ∷ texts.lower method ∷ [])

  -- whether a request is logged
  unfoldable pub is_audited : Request → Bool
  is_audited r =
      if r.method == "GET" && not (is_auditable_get r.path)
      then false
      else if r.method == "OPTIONS" || r.method == "HEAD"
      then false
      else if r.path == "/healthz" || r.path == "/readyz"
      then false
      else true

  unfoldable pub audit_event : Request → Context → AuditEvent
  unfolding derive_action
  audit_event r ctx = record {
    id = 0;
    tenant_id = elim (texts.parse_uuid (value_or_empty ctx.tenant_id)) [
      | none ↦ nil_uuid
      | some t ↦ t
    ];
    actor_id = texts.parse_uuid (value_or_empty ctx.user_id);
    actor_type = "user";
    action = derive_action r.method r.path;
    resource_type = "";
    resource_id = none;
    details = [];
    ip_address = r.remote_addr;
    user_agent = r.user_agent;
    request_id = value_or_empty ctx.request_id;
  }

  module _ {W : Type 0} (db : AuditDb W) where
    -- the event is written after the handler, and an error of the log is dropped
    unfoldable pub logged :
        Request → Context → Result Response × Exchange W → Result Response × Exchange W
    unfolding is_audited audit_event log
    logged r ctx (ok response, x) =
        let (_, w) = log db (audit_event r ctx) x.world in
        (ok response, if is_audited r then record x { world = w } else x)
    logged r ctx (err e, x) = (err e, x)
    logged r ctx (panicked, x) = (panicked, x)

    -- `Audit`
    unfoldable pub audit : Handler W → Handler W
    unfolding logged
    audit next r ctx x = logged r ctx (next r ctx x)
