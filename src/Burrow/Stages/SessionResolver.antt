-- ===== src/Burrow/Stages/SessionResolver.antt =====
-- SessionResolver.Process
pub mod Output
use capyclaw.Prelude.{String, String_eq, ◌==◌, Option, none, some, if◌then◌else◌}
use capyclaw.Action.{Action, pure, within, ◌>>=◌}
use capyclaw.Burrow.Types.{Uuid, Session, PipelineRequest}
use capyclaw.Burrow.Session.{new_session}
use capyclaw.Burrow.Deps.{StoredSession, SessionRepository, PipelineDeps, State, outside}

abbrev pub or_empty : Option String → String
or_empty none = ""
or_empty (some s) = s

unfoldable pub to_session : StoredSession → Session
to_session db = record {
  id = db.id;
  agent_id = db.agent_id;
  tenant_id = db.tenant_id;
  session_key = db.session_key;
  compaction_count = db.compaction_count;
  total_input_tokens = db.total_input_tokens;
  total_output_tokens = db.total_output_tokens;
  total_cost_usd = db.total_cost_usd;
  context_summary = or_empty db.context_summary;
  status = db.status;
}

module _ {W : Type 0} (d : PipelineDeps W) where
  pub in_memory : PipelineRequest → Action (State W) PipelineRequest
  in_memory req = do
    id ← outside d.codec.new_uuid
    pure (record req {
      session = some (new_session id req.agent_id req.tenant_id req.message.session_key);
    })

  pub session_key : PipelineRequest → Action (State W) String
  session_key req =
      if req.message.session_key == ""
      then (do id ← outside d.codec.new_uuid; pure (d.codec.uuid_text id))
      else pure req.message.session_key

  pub from_repo : SessionRepository W → PipelineRequest → Action (State W) PipelineRequest
  from_repo repo req = do
    key ← session_key req
    db ← within "resolving session: " (outside (repo.get_or_create req.agent_id req.tenant_id key))
    pure (record req { session = some (to_session db) })

  unfoldable pub resolve_session : PipelineRequest → Action (State W) PipelineRequest
  resolve_session req = elim d.session_repo [
    | none ↦ in_memory req
    | some repo ↦ from_repo repo req
  ]
