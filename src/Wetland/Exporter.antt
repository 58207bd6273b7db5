-- ===== src/Wetland/Exporter.antt =====
-- internal/wetland/footprint/exporter.go: Exporter. The ticks of its loop are a count.
pub mod Cursor
use capyclaw.Prelude.{
  ℕ, zero, suc, String, Bool, Option, none, some, List, [], ◌∷◌, concat, Int64, int_lt, ltb, not,
  ◌||◌, true, false, if◌then◌else◌,
}
use capyclaw.Action.{Result, ok, err, panicked, Action, pure, fail, within, attempt, ◌>>=◌, ◌>>◌}
use capyclaw.Wetland.Footprint.{AuditDb, AuditEvent, AuditFilter, query_events}

-- `json.Marshal` of the events, to a body of the type `B`, and the request to the endpoint with its
-- body: the status of the answer
pub record Siem (W : Type 0) (B : Type 0) : Type 0 where
  pub marshal : List AuditEvent → Result B
  pub new_request : String → Result (Unit {0})
  pub post : String → B → Action W ℕ
  pub number_text : ℕ → String

pub record Exporter : Type 0 where
  pub endpoint : String
  pub enabled : Bool
  pub last_id : Int64

-- the events after `last`
unfoldable pub newer : Int64 → List AuditEvent → List AuditEvent
newer last [] = []
newer last (ev ∷ events) =
    let rest = newer last events in if int_lt last ev.id then ev ∷ rest else rest

-- the cursor moved up over the events
unfoldable pub highest : Int64 → List AuditEvent → Int64
highest last [] = last
highest last (ev ∷ events) = highest (if int_lt last ev.id then ev.id else last) events

-- the filter of an export: the latest 200 events
abbrev pub export_filter : AuditFilter
export_filter = record {
  tenant_id = none;
  actor_id = none;
  action = "";
  resource_type = "";
  since = none;
  until = none;
  limit = 200;
  offset = 0;
}

module _ {W B : Type 0} (db : AuditDb W) (siem : Siem W B) where
  -- the batch is sent; a status of 300 or more is an error
  unfoldable pub send_events : String → List AuditEvent → Action W (Unit {0})
  send_events endpoint events = do
    body ← within "marshaling events: " (λ w. (siem.marshal events, w))
    within "creating export request: " (λ w. (siem.new_request endpoint, w))
    status ← within "sending events to SIEM: " (siem.post endpoint body)
    if ltb status 300
        then pure tt
        else fail (concat ("SIEM returned status " ∷ siem.number_text status ∷ []))

  -- the cursor follows a batch that was taken
  unfoldable pub sent_new :
      Result (Unit {0}) → Exporter → List AuditEvent → W → Result (Unit {0}) × Exporter × W
  unfolding highest
  sent_new (ok _) e batch w = (ok tt, record e { last_id = highest e.last_id batch }, w)
  sent_new (err m) e batch w = (err m, e, w)
  sent_new panicked e batch w = (panicked, e, w)

  unfoldable pub export_batch : List AuditEvent → Exporter → W → Result (Unit {0}) × Exporter × W
  unfolding sent_new send_events
  export_batch [] e w = (ok tt, e, w)
  export_batch (ev ∷ rest) e w =
      let (r, w') = send_events e.endpoint (ev ∷ rest) w in sent_new r e (ev ∷ rest) w'

  -- the part of `export` after the query
  unfoldable pub export_new : List AuditEvent → Exporter → W → Result (Unit {0}) × Exporter × W
  unfolding newer export_batch
  export_new events e w = export_batch (newer e.last_id events) e w

  unfoldable pub export_queried :
      Result (List AuditEvent) → Exporter → W → Result (Unit {0}) × Exporter × W
  unfolding export_new
  export_queried (ok events) e w = export_new events e w
  export_queried (err m) e w = (err (concat ("querying events for export: " ∷ m ∷ [])), e, w)
  export_queried panicked e w = (panicked, e, w)

  -- `export`
  unfoldable pub export : Exporter → W → Result (Unit {0}) × Exporter × W
  unfolding export_queried
  export e w = let (r, w') = query_events db export_filter w in export_queried r e w'

  -- what is left of the loop after a tick; an error is logged
  unfoldable pub after_tick :
      (Exporter → W → Result (Unit {0}) × Exporter × W)
      → Result (Unit {0})
      → Exporter
      → W
      → Result (Unit {0}) × Exporter × W
  after_tick later (ok _) e w = later e w
  after_tick later (err m) e w = later e w
  after_tick later panicked e w = (panicked, e, w)

  -- the loop of `Start` over so many ticks
  unfoldable pub run_ticks : ℕ → Exporter → W → Result (Unit {0}) × Exporter × W
  unfolding export after_tick
  run_ticks zero e w = (ok tt, e, w)
  run_ticks (suc n) e w =
      let (r, e', w') = export e w in after_tick (λ x v. run_ticks n x v) r e' w'

  -- `Start`
  unfoldable pub start_exporter : ℕ → Exporter → W → Result (Unit {0}) × Exporter × W
  unfolding run_ticks
  start_exporter ticks e w = if e.enabled then run_ticks ticks e w else (ok tt, e, w)

  -- `Export`
  unfoldable pub export_events : Exporter → List AuditEvent → Action W (Unit {0})
  unfolding send_events
  export_events e [] = pure tt
  export_events e (ev ∷ events) =
      if e.enabled then send_events e.endpoint (ev ∷ events) else pure tt
