-- ===== src/Drift/Cron/Entries.antt =====
-- What ScheduleJob and UnscheduleJob do to the entries, in a state that the operations reach.
use capyclaw.Prelude.{
  String, String_eq, ◌≡◌, ◌≢◌, refl, arith, Bool, true, false, none, some, Map, lookup,
  lookup-insert, lookup-delete,
}
use capyclaw.Action.{Result, ok, err, panicked}
use capyclaw.Drift.Cron.{
  CronJob, Scheduler, CronManager, schedule_job, register_job, registered_as, unschedule_job,
  unschedule_found, unregistered_as,
}
use capyclaw.Drift.Cron.Tracked.{Tracked, added, removed}
use capyclaw.Drift.Cron.Reach.{Listing, Sound, Reached, Reached-Sound}

module _ {W P : Type 0} (scheduler : Scheduler W P) (listing : Listing scheduler) where
  -- the entry that a job had is gone from the scheduler, and the job from the map
  pub record Unscheduled (job entry : String) (ids : Map String String) (m' : CronManager W)
      : Type 0 where
    gone : listing.has entry m'.world ≡ false
    forgotten : lookup job m'.entry_ids ≡ none
    others : (j : String) → j ≢ job → lookup j m'.entry_ids ≡ lookup j ids

  unregistered_as-Unscheduled :
      (job entry : String) (r : Result (Unit {0})) (m : CronManager W) (before : String → Bool)
      → r ≡ ok tt
      → ((e : String) → listing.has e m.world ≡ removed entry r before e)
      → ((unregistered_as scheduler job r m).0 ≡ ok tt)
        × Unscheduled job entry m.entry_ids (unregistered_as scheduler job r m).1
  unfolding unregistered_as
  unregistered_as-Unscheduled job entry (ok _) m before h after = (
    refl,
    record {
      gone = ground (arith, after entry, String_eq.same_iff entry entry);
      forgotten = ground (arith, lookup-delete job job m.entry_ids, String_eq.same_iff job job);
      others = λ j other.
          ground (arith, lookup-delete job j m.entry_ids, String_eq.same_iff job j, other);
    },
  )
  unregistered_as-Unscheduled job entry (err e) m before h after = absurd (cc h)
  unregistered_as-Unscheduled job entry panicked m before h after = absurd (cc h)

  -- In a state that the operations reach, UnscheduleJob of a job that has an entry succeeds: the
  -- scheduler no longer has the entry, the map no longer has the job, and every other job has the
  -- entry that it had.
  pub unschedule_job-Unscheduled :
      (m : CronManager W) (job entry : String)
      → Reached scheduler listing m
      → lookup job m.entry_ids ≡ some entry
      → ((unschedule_job scheduler job m).0 ≡ ok tt)
        × Unscheduled job entry m.entry_ids (unschedule_job scheduler job m).1
  unfolding unschedule_job unschedule_found
  unschedule_job-Unscheduled m job entry r found = rw found (
      unregistered_as-Unscheduled job entry _ _ (λ e. listing.has e m.world)
        (listing.unregister_found entry m.world
          ((Reached-Sound scheduler listing m r).there job entry found))
        (listing.unregister_lem entry m.world))

  -- what a job's earlier entry is after the job was scheduled again
  pub record Orphan (entry : String) (m : CronManager W) : Type 0 where
    still_there : listing.has entry m.world ≡ true
    unknown : (job : String) → lookup job m.entry_ids ≢ some entry

  registered_as-Orphan :
      (job : CronJob) (r : Result String) (m : CronManager W) (before : String → Bool)
      (entry : String)
      → (registered_as scheduler job r m).0 ≡ ok tt
      → ((e : String) → listing.has e m.world ≡ added r before e)
      → ((e : String) → r ≡ ok e → before e ≡ false)
      → Tracked before m.entry_ids
      → lookup job.id m.entry_ids ≡ some entry
      → Orphan entry (registered_as scheduler job r m).1
  unfolding registered_as
  registered_as-Orphan job (ok fresh) m before entry h after new t found = record {
    still_there = ground (arith, after entry, t.there job.id entry found);
    unknown = λ j e. ground (
      arith,
      new fresh refl,
      t.there job.id entry found,
      t.apart job.id j entry found,
      lookup-insert job.id j fresh m.entry_ids,
      e,
      String_eq.same_iff job.id j,
    );
  }
  registered_as-Orphan job (err e) m before entry h after new t found = absurd (cc h)
  registered_as-Orphan job panicked m before entry h after new t found = absurd (cc h)

  register_job-Orphan :
      (job : CronJob) (r : Result P) (m : CronManager W) (entry : String)
      → (register_job scheduler job r m).0 ≡ ok tt
      → Sound scheduler listing m
      → lookup job.id m.entry_ids ≡ some entry
      → Orphan entry (register_job scheduler job r m).1
  unfolding register_job
  register_job-Orphan job (ok payload) m entry h t found =
      registered_as-Orphan job _ _ (λ e. listing.has e m.world) entry h
        (listing.register_lem _ _ payload _ m.world) (listing.register_new _ _ payload _ m.world) t
        found
  register_job-Orphan job (err e) m entry h t found = absurd (cc h)
  register_job-Orphan job panicked m entry h t found = absurd (cc h)

  -- In a state that the operations reach, a ScheduleJob that succeeds for a job that already has an
  -- entry leaves that entry in the scheduler, and no job in the map has it.
  pub schedule_job-Orphan :
      (m : CronManager W) (job : CronJob) (entry : String)
      → Reached scheduler listing m
      → lookup job.id m.entry_ids ≡ some entry
      → (schedule_job scheduler job m).0 ≡ ok tt
      → Orphan entry (schedule_job scheduler job m).1
  unfolding schedule_job
  schedule_job-Orphan m job entry r found h =
      register_job-Orphan job _ m entry h (Reached-Sound scheduler listing m r) found
