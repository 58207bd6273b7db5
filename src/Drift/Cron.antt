-- ===== src/Drift/Cron.antt =====
-- internal/lodge/drift/cron.go: CronManager. The scheduler of github.com/hibiken/asynq and the query
-- of the jobs are parameters. A UUID is its text, and a time stamp is left out.
pub mod Tracked
pub mod Reach
pub mod Entries
use capyclaw.Prelude.{
  ℕ, ◌+◌, String, String_eq, Bool, Option, none, some, List, [], ◌∷◌, concat, Map, lookup, insert,
  delete,
}
use capyclaw.Action.{Result, ok, err, panicked, Action}

pub record CronJob : Type 0 where
  pub id : String
  pub tenant_id : String
  pub agent_id : String
  pub name : String
  pub schedule : String
  pub prompt : String
  pub enabled : Bool

pub record CronExecutePayload : Type 0 where
  pub cron_job_id : String
  pub agent_id : String
  pub tenant_id : String
  pub prompt : String
  pub job_name : String

-- `asynq.Scheduler`, with the entry's expression, the type of its task, the task's payload and the
-- queue's name, if it is given; `json.Marshal` of a payload; and the verb %q
pub record Scheduler (W : Type 0) (P : Type 0) : Type 0 where
  pub register : String → String → P → Option String → Action W String
  pub unregister : String → Action W (Unit {0})
  pub marshal : CronExecutePayload → Result P
  pub quoted : String → String

pub record CronManager (W : Type 0) : Type 0 where
  pub world : W
  pub entry_ids : Map String String

abbrev pub type_cron_execute : String
type_cron_execute = "cron:execute"

module _ {W : Type 0} where
  -- `NewCronManager`
  abbrev pub new_cron_manager : W → CronManager W
  new_cron_manager w = record { world = w; entry_ids = [] }

module _ {W P : Type 0} (scheduler : Scheduler W P) where
  unfoldable pub registered_as :
      CronJob → Result String → CronManager W → Result (Unit {0}) × CronManager W
  registered_as job (ok entry_id) m =
      (ok tt, record m { entry_ids = insert job.id entry_id m.entry_ids })
  registered_as job (err e) m = (
    err (
        concat
          ("registering cron " ∷ scheduler.quoted job.name ∷ " (" ∷ job.schedule ∷ "): " ∷ e ∷ [])),
    m,
  )
  registered_as job panicked m = (panicked, m)

  unfoldable pub register_job : CronJob → Result P → Action (CronManager W) (Unit {0})
  unfolding registered_as
  register_job job (ok payload) m =
      let (r, w) =
        scheduler.register job.schedule type_cron_execute payload (some "default") m.world in
      registered_as job r (record m { world = w })
  register_job job (err e) m = (err (concat ("marshaling payload: " ∷ e ∷ [])), m)
  register_job job panicked m = (panicked, m)

  -- `ScheduleJob`
  unfoldable pub schedule_job : CronJob → Action (CronManager W) (Unit {0})
  unfolding register_job
  schedule_job job = register_job job (
      scheduler.marshal (record {
        cron_job_id = job.id;
        agent_id = job.agent_id;
        tenant_id = job.tenant_id;
        prompt = job.prompt;
        job_name = job.name;
      }))

  unfoldable pub unregistered_as :
      String → Result (Unit {0}) → CronManager W → Result (Unit {0}) × CronManager W
  unregistered_as job_id (ok _) m = (ok tt, record m { entry_ids = delete job_id m.entry_ids })
  unregistered_as job_id (err e) m =
      (err (concat ("unregistering cron " ∷ job_id ∷ ": " ∷ e ∷ [])), m)
  unregistered_as job_id panicked m = (panicked, m)

  unfoldable pub unschedule_found : String → Option String → Action (CronManager W) (Unit {0})
  unfolding unregistered_as
  unschedule_found job_id none m = (err (concat ("cron job " ∷ job_id ∷ " not scheduled" ∷ [])), m)
  unschedule_found job_id (some entry_id) m =
      let (r, w) = scheduler.unregister entry_id m.world in
      unregistered_as job_id r (record m { world = w })

  -- `UnscheduleJob`
  unfoldable pub unschedule_job : String → Action (CronManager W) (Unit {0})
  unfolding unschedule_found
  unschedule_job job_id m = unschedule_found job_id (lookup job_id m.entry_ids) m

  -- the end of a turn of the loop, with the rest of the loop; an error is logged
  unfoldable pub load_next :
      (ℕ → Action (CronManager W) ℕ) → Result (Unit {0}) → ℕ → Action (CronManager W) ℕ
  load_next later (ok _) count m = later (count + 1) m
  load_next later (err e) count m = later count m
  load_next later panicked count m = (panicked, m)

  -- the loop of `LoadAndSchedule` over the rows that were scanned, with the count of the jobs scheduled
  unfoldable pub load_rows : List (Result CronJob) → ℕ → Action (CronManager W) ℕ
  unfolding schedule_job load_next
  load_rows [] count m = (ok count, m)
  load_rows (ok job ∷ rows) count m =
      let (r, m') = schedule_job job m in load_next (λ n. load_rows rows n) r count m'
  load_rows (err e ∷ rows) count m = load_rows rows count m
  load_rows (panicked ∷ rows) count m = (panicked, m)

  unfoldable pub loaded : Result (List (Result CronJob)) → Action (CronManager W) (Unit {0})
  unfolding load_rows
  loaded (ok rows) m =
      let (r, m') = load_rows rows 0 m in
      (elim r [ ok _ ↦ ok tt | err e ↦ err e | panicked ↦ panicked ], m')
  loaded (err e) m = (err (concat ("querying cron jobs: " ∷ e ∷ [])), m)
  loaded panicked m = (panicked, m)

  -- `LoadAndSchedule`, with the query of the enabled jobs
  unfoldable pub load_and_schedule :
      Action W (List (Result CronJob)) → Action (CronManager W) (Unit {0})
  unfolding loaded
  load_and_schedule query m = let (r, w) = query m.world in loaded r (record m { world = w })

  -- `Register`
  unfoldable pub register : String → String → P → Action (CronManager W) String
  register cron_expr task_type payload m =
      let (r, w) = scheduler.register cron_expr task_type payload none m.world in
      (r, record m { world = w })
