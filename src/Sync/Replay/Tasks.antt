-- ===== src/Sync/Replay/Tasks.antt =====
-- The handlers for compute tasks, called twice.
use substra_backend.Prelude.{
  ℕ, String, ◌≡◌, refl, sym, Option, none, some, List, ok, does_not_exist, arith, bind-eq-ok,
  or_raise-eq-ok, ok-injective,
}
use substra_backend.Models.{Db, Date, ComputeTask, ComputePlan, TaskStatus}
use substra_backend.Store.{get?, save}
use substra_backend.Store.Laws.{get?-save_edited, save-save_self}
use substra_backend.Sync.Events.{Env, TaskData, FailureReportData}
use substra_backend.Sync.Assets.{task_key, plan_key}
use substra_backend.Sync.Tasks.{
  dates_from_status, first_date, updated_task, update_computetask, on_update_computetask,
}
use substra_backend.Sync.Refresh.{refresh_plan-eq-ok, refresh_plan-refresh_plan, refreshed}

-- The same environment at another time.
abbrev pub at_time : Env → Date → Env
at_time env t = record env { now = t }

module _ (env : Env) (later : Date) where
  first_date-first_date :
      (old : Option Date) (s : Option String)
      → first_date env (first_date env old s) s ≡ first_date env old s
  first_date-first_date (some d) s = refl
  first_date-first_date none none = refl
  first_date-first_date none (some s) = ground arith

  pub updated_task-updated_task :
      (status : Option TaskStatus) (start_date end_date : Option String)
      (report : Option FailureReportData) (t : ComputeTask)
      → updated_task env status start_date end_date report
          (updated_task env status start_date end_date report t)
        ≡ updated_task env status start_date end_date report t
  unfolding updated_task
  updated_task-updated_task status start_date end_date none t = ground (
    arith,
    first_date-first_date t.start_date start_date,
    first_date-first_date t.end_date end_date,
  )
  updated_task-updated_task status start_date end_date (some r) t = ground (
    arith,
    first_date-first_date t.start_date start_date,
    first_date-first_date t.end_date end_date,
  )

  key-updated_task :
      (status : Option TaskStatus) (start_date end_date : Option String)
      (report : Option FailureReportData) (t : ComputeTask)
      → (updated_task env status start_date end_date report t).key ≡ t.key
  unfolding updated_task
  key-updated_task status start_date end_date none t = refl
  key-updated_task status start_date end_date (some r) t = refl

  -- What `_update_computetask` did, if it did not raise.
  pub update_computetask-eq-ok :
      (key : ℕ) (status : Option TaskStatus) (start_date end_date : Option String)
      (report : Option FailureReportData) (db db' : Db)
      → update_computetask env key status start_date end_date report db ≡ ok db'
      → (t : ComputeTask) × (get? task_key key db.tasks ≡ some t)
        × (db' ≡ record db {
          tasks = save task_key (updated_task env status start_date end_date report t) db.tasks;
        })
  unfolding update_computetask
  update_computetask-eq-ok key status start_date end_date report db db' h =
      let (t, found, e) = or_raise-eq-ok does_not_exist (get? task_key key db.tasks) _ h in
      (t, found, sym (ok-injective _ _ e))

  -- Updating a task twice is updating it once, whatever was done to the plans in between.
  update_computetask-replay :
      (key : ℕ) (status : Option TaskStatus) (start_date end_date : Option String)
      (report : Option FailureReportData) (plans : List ComputePlan) (db db' : Db)
      → update_computetask env key status start_date end_date report db ≡ ok db'
      → update_computetask env key status start_date end_date report (record db' { plans = plans })
        ≡ ok (record db' { plans = plans })
  unfolding update_computetask
  update_computetask-replay key status start_date end_date report plans db db' h =
      let (t, found, e) = update_computetask-eq-ok key status start_date end_date report db db' h in
      let edited = updated_task env status start_date end_date report t in
      rw e (
        rw
          (
            get?-save_edited task_key key t edited db.tasks found
                (key-updated_task status start_date end_date report t),
            updated_task-updated_task status start_date end_date report t,
            save-save_self task_key edited db.tasks,
          )
          refl)

  pub on_update_computetask-replay :
      (timestamp : String) (d : TaskData) (db db' : Db)
      → on_update_computetask env timestamp d db ≡ ok db'
      → on_update_computetask (at_time env later) timestamp d db' ≡ ok db'
  unfolding on_update_computetask update_computetask updated_task
  on_update_computetask-replay timestamp d db db' h =
      let dates = dates_from_status d.status timestamp in
      let (db1, updated, settled) =
        bind-eq-ok (update_computetask env d.key (some d.status) dates.0 dates.1 none db) _ h in
      let (p, _, e) = refresh_plan-eq-ok env d.compute_plan_key db1 db' settled in
      let plans = save plan_key (refreshed env.now p db1.tasks) db1.plans in
      let again : update_computetask env d.key (some d.status) dates.0 dates.1 none db' ≡ ok db' =
        rw e (
          update_computetask-replay d.key (some d.status) dates.0 dates.1 none plans db db1
            updated) in
      rw again
        (refresh_plan-refresh_plan env (at_time env later) d.compute_plan_key db1 db' settled)
