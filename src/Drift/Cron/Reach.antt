-- ===== src/Drift/Cron/Reach.antt =====
-- The states of a manager that its operations can reach.
use capyclaw.Prelude.{
  ℕ, ◌+◌, String, String_eq, ◌≡◌, inl, inr, refl, ◌∙◌, arith, Bool, true, false, Option, none, some,
  Option-cases, List, [], ◌∷◌, lookup,
}
use capyclaw.Action.{Result, ok, err, panicked, Action}
use capyclaw.Drift.Cron.{
  CronJob, Scheduler, CronManager, new_cron_manager, schedule_job, register_job, registered_as,
  unschedule_job, unschedule_found, unregistered_as, load_next, load_rows, loaded,
  load_and_schedule, register,
}
use capyclaw.Drift.Cron.Tracked.{
  Tracked, Tracked-insert, Tracked-delete, Tracked-same, added, removed,
}

-- What the manager relies on: an entry that is registered gets an identifier that no other has and is
-- listed until it is unregistered, a call that fails changes nothing, and `Unregister` finds what is
-- listed.
pub record Listing {W P : Type 0} (scheduler : Scheduler W P) : Type 0 where
  pub has : String → W → Bool
  pub register_lem :
      (spec kind : String) (payload : P) (queue : Option String) (w : W) (e : String)
      → has e (scheduler.register spec kind payload queue w).1
        ≡ added (scheduler.register spec kind payload queue w).0 (λ e'. has e' w) e
  pub register_new :
      (spec kind : String) (payload : P) (queue : Option String) (w : W) (e : String)
      → (scheduler.register spec kind payload queue w).0 ≡ ok e
      → has e w ≡ false
  pub unregister_lem :
      (entry : String) (w : W) (e : String)
      → has e (scheduler.unregister entry w).1
        ≡ removed entry (scheduler.unregister entry w).0 (λ e'. has e' w) e
  pub unregister_found :
      (entry : String) (w : W) → has entry w ≡ true → (scheduler.unregister entry w).0 ≡ ok tt

module _ {W P : Type 0} (scheduler : Scheduler W P) (listing : Listing scheduler) where
  -- the map is right about the scheduler
  abbrev pub Sound : CronManager W → Type 0
  Sound m = Tracked (λ e. listing.has e m.world) m.entry_ids

  registered_as-Sound :
      (job : CronJob) (r : Result String) (m : CronManager W) (before : String → Bool)
      → ((e : String) → listing.has e m.world ≡ added r before e)
      → ((e : String) → r ≡ ok e → before e ≡ false)
      → Tracked before m.entry_ids
      → Sound (registered_as scheduler job r m).1
  unfolding registered_as
  registered_as-Sound job (ok entry) m before after new t =
      Tracked-insert before _ m.entry_ids job.id entry (new entry refl) after t
  registered_as-Sound job (err e) m before after new t = Tracked-same before _ m.entry_ids after t
  registered_as-Sound job panicked m before after new t = Tracked-same before _ m.entry_ids after t

  register_job-Sound :
      (job : CronJob) (r : Result P) (m : CronManager W)
      → Sound m
      → Sound (register_job scheduler job r m).1
  unfolding register_job
  register_job-Sound job (ok payload) m t =
      registered_as-Sound job _ _ (λ e. listing.has e m.world)
        (listing.register_lem _ _ payload _ m.world) (listing.register_new _ _ payload _ m.world) t
  register_job-Sound job (err e) m t = t
  register_job-Sound job panicked m t = t

  schedule_job-Sound :
      (job : CronJob) (m : CronManager W) → Sound m → Sound (schedule_job scheduler job m).1
  unfolding schedule_job
  schedule_job-Sound job m t = register_job-Sound job _ m t

  unregistered_as-Sound :
      (job entry : String) (r : Result (Unit {0})) (m : CronManager W) (before : String → Bool)
      → lookup job m.entry_ids ≡ some entry
      → ((e : String) → listing.has e m.world ≡ removed entry r before e)
      → Tracked before m.entry_ids
      → Sound (unregistered_as scheduler job r m).1
  unfolding unregistered_as
  unregistered_as-Sound job entry (ok _) m before found after t =
      Tracked-delete before _ m.entry_ids job entry found after t
  unregistered_as-Sound job entry (err e) m before found after t =
      Tracked-same before _ m.entry_ids after t
  unregistered_as-Sound job entry panicked m before found after t =
      Tracked-same before _ m.entry_ids after t

  unschedule_job-Sound :
      (job : String) (m : CronManager W) → Sound m → Sound (unschedule_job scheduler job m).1
  unfolding unschedule_job unschedule_found
  unschedule_job-Sound job m t = elim (Option-cases (lookup job m.entry_ids)) [
    | inl missing ↦ rw missing t
    | inr (entry, found) ↦ rw found (
        unregistered_as-Sound job entry _ _ (λ e. listing.has e m.world) found
          (listing.unregister_lem entry m.world) t)
  ]

  load_next-Sound :
      (later : ℕ → Action (CronManager W) ℕ) (r : Result (Unit {0})) (count : ℕ) (m : CronManager W)
      → ((n : ℕ) (m' : CronManager W) → Sound m' → Sound (later n m').1)
      → Sound m
      → Sound (load_next scheduler later r count m).1
  unfolding load_next
  load_next-Sound later (ok _) count m go t = go (count + 1) m t
  load_next-Sound later (err e) count m go t = go count m t
  load_next-Sound later panicked count m go t = t

  load_rows-Sound :
      (rows : List (Result CronJob)) (count : ℕ) (m : CronManager W)
      → Sound m
      → Sound (load_rows scheduler rows count m).1
  unfolding load_rows
  load_rows-Sound [] count m t = t
  load_rows-Sound (ok job ∷ rows) count m t =
      load_next-Sound (λ n. load_rows scheduler rows n) (schedule_job scheduler job m).0 count _
        (λ n m' t'. load_rows-Sound rows n m' t') (schedule_job-Sound job m t)
  load_rows-Sound (err e ∷ rows) count m t = load_rows-Sound rows count m t
  load_rows-Sound (panicked ∷ rows) count m t = t

  loaded-Sound :
      (r : Result (List (Result CronJob))) (m : CronManager W)
      → Sound m
      → Sound (loaded scheduler r m).1
  unfolding loaded
  loaded-Sound (ok rows) m t = load_rows-Sound rows 0 m t
  loaded-Sound (err e) m t = t
  loaded-Sound panicked m t = t

  register-Sound :
      (spec kind : String) (payload : P) (m : CronManager W)
      → Sound m
      → Sound (register scheduler spec kind payload m).1
  unfolding register
  register-Sound spec kind payload m t = record {
    there =
        λ j e h. listing.register_lem spec kind payload none m.world e ∙ kept _ e (t.there j e h);
    apart = t.apart;
  }
    where
      kept :
          (r : Result String) (e : String)
          → listing.has e m.world ≡ true
          → added r (λ e'. listing.has e' m.world) e ≡ true
      kept (ok entry) e h = ground (arith, h)
      kept (err _) e h = h
      kept panicked e h = h

  -- the states of a manager; a query of the jobs leaves the scheduler's entries as they are
  pub data Reached : CronManager W → Type 0 where
    created : (w : W) → Reached (new_cron_manager w)
    scheduled :
        (job : CronJob) (m : CronManager W) → Reached m → Reached (schedule_job scheduler job m).1
    unscheduled :
        (job : String) (m : CronManager W) → Reached m → Reached (unschedule_job scheduler job m).1
    registered :
        (spec kind : String) (payload : P) (m : CronManager W)
        → Reached m
        → Reached (register scheduler spec kind payload m).1
    rows_loaded :
        (query : Action W (List (Result CronJob))) (m : CronManager W)
        → ((e : String) → listing.has e (query m.world).1 ≡ listing.has e m.world)
        → Reached m
        → Reached (load_and_schedule scheduler query m).1

  -- In every state that the manager's operations reach, each job in the map has an entry that the
  -- scheduler has, and no two jobs have the same one.
  pub Reached-Sound : (m : CronManager W) → Reached m → Sound m
  unfolding load_and_schedule lookup
  Reached-Sound _ (Reached.created w) = record {
    there = λ j e h. absurd (cc h);
    apart = λ j k e h. absurd (cc h);
  }
  Reached-Sound _ (Reached.scheduled job m r) = schedule_job-Sound job m (Reached-Sound m r)
  Reached-Sound _ (Reached.unscheduled job m r) = unschedule_job-Sound job m (Reached-Sound m r)
  Reached-Sound _ (Reached.registered spec kind payload m r) =
      register-Sound spec kind payload m (Reached-Sound m r)
  Reached-Sound _ (Reached.rows_loaded query m same r) =
      loaded-Sound (query m.world).0 _
        (Tracked-same (λ e. listing.has e m.world) _ m.entry_ids same (Reached-Sound m r))
