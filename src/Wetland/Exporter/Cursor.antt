-- ===== src/Wetland/Exporter/Cursor.antt =====
-- What the ticks of the exporter send.
use mathlib.Core.Path.{subst}
use capyclaw.Prelude.{
  ℕ, zero, suc, ltb, ◌≡◌, refl, sym, ◌∙◌, arith, true, false, true_neq_false, Bool-cases, ◌⊎◌, inl,
  inr, String, List, [], ◌∷◌, All, All-map, Int64, int_lt, if◌then◌else◌,
}
use capyclaw.Action.{Result, ok, err, panicked, pure, fail, within, ◌>>=◌}
use capyclaw.Action.Keeps.{Keeps-bind, Keeps-within}
use capyclaw.Wetland.Footprint.{AuditDb, AuditEvent, query_events}
use capyclaw.Wetland.Exporter.{
  Siem, Exporter, newer, highest, export_filter, send_events, sent_new, export_batch, export_new,
  export_queried, export, after_tick, run_ticks,
}

abbrev pub Above : Int64 → List AuditEvent → Type 0
Above last events = All (λ (ev : AuditEvent). int_lt last ev.id ≡ true) events

-- Of the batches that the endpoint took, the latest first: every event of a batch has a number above
-- those of all events of the batches before it.
abbrev pub NoRepeat : List (List AuditEvent) → Type 0
NoRepeat [] = Unit {0}
NoRepeat (batch ∷ earlier) =
    All (λ (old : List AuditEvent). All (λ (ev : AuditEvent). Above ev.id batch) old) earlier
    × NoRepeat earlier

-- the world, with the batches that the endpoint took, the latest first
abbrev pub Journal : Type 0 → Type 0
Journal W = W × List (List AuditEvent)

abbrev taken : Result ℕ → List AuditEvent → List (List AuditEvent) → List (List AuditEvent)
taken (ok status) events log = if ltb status 300 then events ∷ log else log
taken (err e) events log = log
taken panicked events log = log

abbrev with_events : {B : Type 0} → List AuditEvent → Result B → Result (List AuditEvent × B)
with_events events (ok body) = ok (events, body)
with_events events (err e) = err e
with_events events panicked = panicked

-- the endpoint, which writes into the journal each batch that is posted to it and that it answers with
-- a status below 300
abbrev pub journaled : {W B : Type 0} → Siem W B → Siem (Journal W) (List AuditEvent × B)
journaled siem = record {
  marshal = λ events. with_events events (siem.marshal events);
  new_request = siem.new_request;
  post =
      λ endpoint body s. let (r, w) = siem.post endpoint body.1 s.0 in (r, (w, taken r body.0 s.1));
  number_text = siem.number_text;
}

abbrev pub beside : {W : Type 0} → AuditDb W → AuditDb (Journal W)
beside db = record {
  insert_event = λ event s. let (r, w) = db.insert_event event s.0 in (r, (w, s.1));
  query = λ query args s. let (r, w) = db.query query args s.0 in (r, (w, s.1));
  number_text = db.number_text;
}

newer-Above : (last : Int64) (events : List AuditEvent) → Above last (newer last events)
unfolding newer
newer-Above last [] = tt
newer-Above last (ev ∷ events) = elim (Bool-cases (int_lt last ev.id)) [
  | inl above ↦ rw above (above, newer-Above last events)
  | inr below ↦ rw below (newer-Above last events)
]

up-below :
    (last id x : Int64)
    → int_lt (if int_lt last id then id else last) x ≡ true
    → (int_lt last x ≡ true) × (int_lt id x ≡ true)
up-below last id x h = ground (arith, h)

-- what is above the cursor after a batch is above the cursor before it, and above the batch
highest-start :
    (events : List AuditEvent) (last x : Int64)
    → int_lt (highest last events) x ≡ true
    → int_lt last x ≡ true
unfolding highest
highest-start [] last x h = h
highest-start (ev ∷ events) last x h = (up-below last ev.id x (highest-start events _ x h)).0

not_lower : (a b x : Int64) → int_lt a b ≡ false → int_lt a x ≡ true → int_lt b x ≡ true
not_lower a b x h k = ground (arith, h, k)

not_self : (x : Int64) → int_lt x x ≡ true → ⊥
not_self x h = ground (arith, h)

-- what is not above the cursor before a batch is not above the cursor after it
highest-below :
    (events : List AuditEvent) (last x : Int64)
    → int_lt last x ≡ false
    → int_lt (highest last events) x ≡ false
highest-below events last x h = elim (Bool-cases (int_lt (highest last events) x)) [
  | inl above ↦ absurd (true_neq_false (sym (highest-start events last x above) ∙ h))
  | inr below ↦ below
]

highest-all :
    (events : List AuditEvent) (last : Int64)
    → All (λ (ev : AuditEvent). int_lt (highest last events) ev.id ≡ false) events
unfolding highest
highest-all [] last = tt
highest-all (ev ∷ events) last = (
  elim (Bool-cases (int_lt (highest (if int_lt last ev.id then ev.id else last) events) ev.id)) [
    | inl above ↦
        absurd (not_self ev.id (up-below last ev.id ev.id (highest-start events _ ev.id above)).1)
    | inr below ↦ below
  ],
  highest-all events _,
)

-- the journal of an exporter whose cursor began at `begun`
record Logged (begun cursor : Int64) (log : List (List AuditEvent)) : Type 0 where
  pub moved_up : int_lt cursor begun ≡ false
  pub new : All (Above begun) log
  pub passed :
      All (λ (b : List AuditEvent). All (λ (ev : AuditEvent). int_lt cursor ev.id ≡ false) b) log
  pub no_repeat : NoRepeat log

Logged-batch :
    (begun cursor : Int64) (log : List (List AuditEvent)) (batch : List AuditEvent)
    → Above cursor batch
    → Logged begun cursor log
    → Logged begun (highest cursor batch) (batch ∷ log)
Logged-batch begun cursor log batch above l = record {
  moved_up = highest-below batch cursor begun l.moved_up;
  new = (All-map (λ ev h. not_lower cursor begun ev.id l.moved_up h) batch above, l.new);
  passed = (
    highest-all batch cursor,
    All-map (λ b old. All-map (λ ev h. highest-below batch cursor ev.id h) b old) log l.passed,
  );
  no_repeat = (
    All-map
        (λ b old.
          All-map (λ ev h. All-map (λ y up. not_lower cursor ev.id y.id h up) batch above) b old)
        log l.passed,
    l.no_repeat,
  );
}

module _ {W B : Type 0} (db : AuditDb W) (siem : Siem W B) where
  -- a batch that was sent is in the journal, and one that was not is not
  abbrev Noted : List AuditEvent → List (List AuditEvent) → Result (Unit {0}) × Journal W → Type 0
  Noted batch log (ok _, s) = s.1 ≡ batch ∷ log
  Noted batch log (err m, s) = s.1 ≡ log
  Noted batch log (panicked, s) = s.1 ≡ log

  Noted-status :
      (status : ℕ) (batch : List AuditEvent) (log : List (List AuditEvent)) (w : W) (m : String)
      → Noted batch log
          ((if ltb status 300 then pure tt else fail m) (w, taken (ok status) batch log))
  unfolding pure fail
  Noted-status status batch log w m = elim (Bool-cases (ltb status 300)) [
    | inl low ↦ rw low refl
    | inr high ↦ rw high refl
  ]

  send_events-Noted :
      (endpoint : String) (batch : List AuditEvent) (s : Journal W)
      → Noted batch s.1 (send_events (beside db) (journaled siem) endpoint batch s)
  unfolding send_events within ◌>>=◌
  send_events-Noted endpoint batch s = by_body (siem.marshal batch) refl
    where
      by_post :
          (b : B) (r : Result ℕ) (w : W)
          → siem.marshal batch ≡ ok b
          → siem.new_request endpoint ≡ ok tt
          → siem.post endpoint b s.0 ≡ (r, w)
          → Noted batch s.1 (send_events (beside db) (journaled siem) endpoint batch s)
      by_post b (ok status) w h k p = rw (h, k, p) (Noted-status status batch s.1 w _)
      by_post b (err e) w h k p = rw (h, k, p) refl
      by_post b panicked w h k p = rw (h, k, p) refl

      by_request :
          (b : B) (r : Result (Unit {0}))
          → siem.marshal batch ≡ ok b
          → siem.new_request endpoint ≡ r
          → Noted batch s.1 (send_events (beside db) (journaled siem) endpoint batch s)
      by_request b (ok tt) h k = by_post b (siem.post endpoint b s.0).0 _ h k refl
      by_request b (err e) h k = rw (h, k) refl
      by_request b panicked h k = rw (h, k) refl

      by_body :
          (r : Result B)
          → siem.marshal batch ≡ r
          → Noted batch s.1 (send_events (beside db) (journaled siem) endpoint batch s)
      by_body (ok b) h = by_request b (siem.new_request endpoint) h refl
      by_body (err e) h = rw h refl
      by_body panicked h = rw h refl

  -- the journal after a tick fits the cursor after it
  abbrev Ticked : Int64 → Result (Unit {0}) × Exporter × Journal W → Type 0
  Ticked begun (r, e, s) = Logged begun e.last_id s.1

  sent_new-Ticked :
      (begun : Int64) (x : Result (Unit {0}) × Journal W) (e : Exporter) (batch : List AuditEvent)
      (log : List (List AuditEvent))
      → Above e.last_id batch
      → Logged begun e.last_id log
      → Noted batch log x
      → Ticked begun (sent_new (beside db) (journaled siem) x.0 e batch x.1)
  unfolding sent_new
  sent_new-Ticked begun (ok _, s) e batch log above l noted =
      subst (λ j. Logged begun (highest e.last_id batch) j) (sym noted)
        (Logged-batch begun e.last_id log batch above l)
  sent_new-Ticked begun (err m, s) e batch log above l noted =
      subst (λ j. Logged begun e.last_id j) (sym noted) l
  sent_new-Ticked begun (panicked, s) e batch log above l noted =
      subst (λ j. Logged begun e.last_id j) (sym noted) l

  export_batch-Ticked :
      (begun : Int64) (batch : List AuditEvent) (e : Exporter) (s : Journal W)
      → Above e.last_id batch
      → Logged begun e.last_id s.1
      → Ticked begun (export_batch (beside db) (journaled siem) batch e s)
  unfolding export_batch
  export_batch-Ticked begun [] e s above l = l
  export_batch-Ticked begun (ev ∷ rest) e s above l =
      sent_new-Ticked begun (send_events (beside db) (journaled siem) e.endpoint (ev ∷ rest) s) e
        (ev ∷ rest) s.1 above l (send_events-Noted e.endpoint (ev ∷ rest) s)

  export_queried-Ticked :
      (begun : Int64) (q : Result (List AuditEvent)) (e : Exporter) (s : Journal W)
      → Logged begun e.last_id s.1
      → Ticked begun (export_queried (beside db) (journaled siem) q e s)
  unfolding export_queried export_new
  export_queried-Ticked begun (ok events) e s l =
      export_batch-Ticked begun (newer e.last_id events) e s (newer-Above e.last_id events) l
  export_queried-Ticked begun (err m) e s l = l
  export_queried-Ticked begun panicked e s l = l

  export-Ticked :
      (begun : Int64) (e : Exporter) (s : Journal W)
      → Logged begun e.last_id s.1
      → Ticked begun (export (beside db) (journaled siem) e s)
  unfolding export query_events
  export-Ticked begun e s l =
      export_queried-Ticked begun (query_events (beside db) export_filter s).0 e _ (
        Keeps-bind (λ (j : Journal W). Logged begun e.last_id j.1) _ _
          (Keeps-within (λ (j : Journal W). Logged begun e.last_id j.1) _ _ (λ j h. h))
          (λ rows j h. h) s l)

  after_tick-Ticked :
      (begun : Int64) (later : Exporter → Journal W → Result (Unit {0}) × Exporter × Journal W)
      (x : Result (Unit {0}) × Exporter × Journal W)
      → Ticked begun x
      → ((e : Exporter) (s : Journal W) → Logged begun e.last_id s.1 → Ticked begun (later e s))
      → Ticked begun (after_tick (beside db) (journaled siem) later x.0 x.1 x.2)
  unfolding after_tick
  after_tick-Ticked begun later (ok _, e, s) l next = next e s l
  after_tick-Ticked begun later (err m, e, s) l next = next e s l
  after_tick-Ticked begun later (panicked, e, s) l next = l

  run_ticks-Ticked :
      (begun : Int64) (n : ℕ) (e : Exporter) (s : Journal W)
      → Logged begun e.last_id s.1
      → Ticked begun (run_ticks (beside db) (journaled siem) n e s)
  unfolding run_ticks
  run_ticks-Ticked begun zero e s l = l
  run_ticks-Ticked begun (suc n) e s l =
      after_tick-Ticked begun _ (export (beside db) (journaled siem) e s)
        (export-Ticked begun e s l) (λ e' s' l'. run_ticks-Ticked begun n e' s' l')

  -- the journal of so many ticks, from an empty one
  abbrev pub journal : ℕ → Exporter → W → List (List AuditEvent)
  journal n e w = (run_ticks (beside db) (journaled siem) n e (w, [])).2.1

  -- However many ticks the exporter runs, and whatever the database and the endpoint answer: of the
  -- batches that were posted and that the endpoint took, by an answer with a status below 300, every
  -- event has a number above the cursor of the start, and above the numbers of all events in the
  -- batches that it took before. So no event is taken again with a later batch.
  pub run_ticks-NoRepeat :
      (n : ℕ) (e : Exporter) (w : W)
      → All (Above e.last_id) (journal n e w) × NoRepeat (journal n e w)
  run_ticks-NoRepeat n e w =
      let l =
        run_ticks-Ticked e.last_id n e (w, [])
          (record {
            moved_up = below (Bool-cases (int_lt e.last_id e.last_id));
            new = tt;
            passed = tt;
            no_repeat = tt;
          }) in
      (l.new, l.no_repeat)
    where
      below :
          (int_lt e.last_id e.last_id ≡ true) ⊎ (int_lt e.last_id e.last_id ≡ false)
          → int_lt e.last_id e.last_id ≡ false
      below (inl above) = absurd (not_self e.last_id above)
      below (inr not_above) = not_above
