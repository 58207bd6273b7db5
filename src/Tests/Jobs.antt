-- ===== src/Tests/Jobs.antt =====
-- Examples for internal/lodge/drift/cron.go.
use mathlib.Core.Path.{subst}
use capyclaw.Prelude.{
  String, String_eq, ◌==◌, ◌≡◌, refl, arith, Bool, true, false, lookup, insert, ap, if◌then◌else◌,
}
use capyclaw.Action.{Result, ok, err}
use capyclaw.Drift.Cron.{
  CronJob, CronExecutePayload, Scheduler, CronManager, new_cron_manager, schedule_job,
  unschedule_job,
}
use capyclaw.Drift.Cron.Tracked.{added, removed}
use capyclaw.Drift.Cron.Reach.{Listing, Reached, Reached-Sound, Sound}
use capyclaw.Drift.Cron.Entries.{
  Unscheduled, unschedule_job-Unscheduled, Orphan, schedule_job-Orphan,
}

-- a scheduler with room for two entries
abbrev Slots : Type 0
Slots = Bool × Bool

abbrev take_slot : Slots → Result String × Slots
take_slot (false, b) = (ok "a", (true, b))
take_slot (true, false) = (ok "b", (true, true))
take_slot (true, true) = (err "full", (true, true))

abbrev free_slot : String → Slots → Result (Unit {0}) × Slots
free_slot entry (a, b) =
    if entry == "a"
    then (if a then (ok tt, (false, b)) else (err "not found", (a, b)))
    else if entry == "b"
    then (if b then (ok tt, (a, false)) else (err "not found", (a, b)))
    else (err "not found", (a, b))

abbrev two_slots : Scheduler Slots CronExecutePayload
two_slots = record {
  register = λ spec kind payload queue w. take_slot w;
  unregister = free_slot;
  marshal = λ payload. ok payload;
  quoted = λ t. t;
}

abbrev has_slot : String → Slots → Bool
has_slot e (a, b) = if "a" == e then a else if "b" == e then b else false

take_slot-added :
    (w : Slots) (e : String)
    → has_slot e (take_slot w).1 ≡ added (take_slot w).0 (λ e'. has_slot e' w) e
take_slot-added (false, b) e = ground arith
take_slot-added (true, false) e = ground arith
take_slot-added (true, true) e = refl

take_slot-new : (w : Slots) (e : String) → (take_slot w).0 ≡ ok e → has_slot e w ≡ false
take_slot-new (false, b) e h = ground (arith, h, String_eq.same_iff "a" e)
take_slot-new (true, false) e h =
    subst (λ x. has_slot x (true, false) ≡ false) (ap (λ r. elim r [ ok x ↦ x | _ ↦ "b" ]) h) refl
take_slot-new (true, true) e h = absurd (cc h)

free_slot-removed :
    (entry : String) (w : Slots) (e : String)
    → has_slot e (free_slot entry w).1 ≡ removed entry (free_slot entry w).0 (λ e'. has_slot e' w) e
free_slot-removed entry (true, true) e = ground (
  arith,
  String_eq.same_iff entry "a",
  String_eq.same_iff entry "b",
  String_eq.same_iff "a" e,
  String_eq.same_iff "b" e,
  String_eq.same_iff entry e,
)
free_slot-removed entry (true, false) e = ground (
  arith,
  String_eq.same_iff entry "a",
  String_eq.same_iff entry "b",
  String_eq.same_iff "a" e,
  String_eq.same_iff "b" e,
  String_eq.same_iff entry e,
)
free_slot-removed entry (false, true) e = ground (
  arith,
  String_eq.same_iff entry "a",
  String_eq.same_iff entry "b",
  String_eq.same_iff "a" e,
  String_eq.same_iff "b" e,
  String_eq.same_iff entry e,
)
free_slot-removed entry (false, false) e = ground (
  arith,
  String_eq.same_iff entry "a",
  String_eq.same_iff entry "b",
  String_eq.same_iff "a" e,
  String_eq.same_iff "b" e,
  String_eq.same_iff entry e,
)

free_slot-found :
    (entry : String) (w : Slots) → has_slot entry w ≡ true → (free_slot entry w).0 ≡ ok tt
free_slot-found entry (a, b) h = ground (
  arith,
  h,
  String_eq.same_iff entry "a",
  String_eq.same_iff entry "b",
  String_eq.same_iff "a" entry,
  String_eq.same_iff "b" entry,
)

two_slots-Listing : Listing two_slots
two_slots-Listing = record {
  has = has_slot;
  register_lem = λ spec kind payload queue w e. take_slot-added w e;
  register_new = λ spec kind payload queue w e h. take_slot-new w e h;
  unregister_lem = free_slot-removed;
  unregister_found = free_slot-found;
}

abbrev report : CronJob
report = record {
  id = "j";
  tenant_id = "t";
  agent_id = "g";
  name = "report";
  schedule = "@daily";
  prompt = "Report.";
  enabled = true;
}

abbrev started : CronManager Slots
started = (schedule_job two_slots report (new_cron_manager (false, false))).1

started-Reached : Reached two_slots two_slots-Listing started
started-Reached = Reached.scheduled report _ (Reached.created (false, false))

Reached-Sound_example : Sound two_slots two_slots-Listing started
Reached-Sound_example = Reached-Sound two_slots two_slots-Listing started started-Reached

unschedule_job-Unscheduled_example :
    ((unschedule_job two_slots "j" started).0 ≡ ok tt)
    × Unscheduled two_slots two_slots-Listing "j" "a" started.entry_ids
        (unschedule_job two_slots "j" started).1
unfolding schedule_job lookup insert
unschedule_job-Unscheduled_example =
    unschedule_job-Unscheduled two_slots two_slots-Listing started "j" "a" started-Reached refl

schedule_job-Orphan_example :
    Orphan two_slots two_slots-Listing "a" (schedule_job two_slots report started).1
unfolding schedule_job lookup insert
schedule_job-Orphan_example =
    schedule_job-Orphan two_slots two_slots-Listing started report "a" started-Reached refl refl
