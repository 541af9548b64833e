-- ===== src/Sync/Refresh.antt =====
-- The plan of a task after the events of the task, `_on_create_computetask_event` and
-- `_on_update_computetask_event` of backend/api/events/sync.py.
use substra_backend.Prelude.{
  ℕ, ◌≡◌, refl, sym, ◌∙◌, ap, some, List, ok, or_raise-eq-ok, ok-injective, does_not_exist,
}
use substra_backend.Models.{Db, Date, ComputePlan, ComputeTask}
use substra_backend.Store.{get?, save}
use substra_backend.Store.Laws.{get?-save_self, save-save, save-get?, key_of-get?}
use substra_backend.ComputePlan.{update_end_date, update_status, compute_tasks}
use substra_backend.ComputePlan.Status.{
  expected_status, update_status-expected, update_status-start_date, update_status-update_status,
}
use substra_backend.ComputePlan.EndDate.{
  update_end_date-next, update_end_date-update_end_date, update_status-update_end_date,
}
use substra_backend.Sync.Events.{Env}
use substra_backend.Sync.Assets.{plan_key, refresh_plan}

-- The row of a plan that was refreshed.
abbrev pub refreshed : Date → ComputePlan → List ComputeTask → ComputePlan
refreshed now p tasks = update_status now (update_end_date p tasks) tasks

pub key-refreshed :
    (now : Date) (p : ComputePlan) (tasks : List ComputeTask) → (refreshed now p tasks).key ≡ p.key
key-refreshed now p tasks =
    (update_status-start_date now (update_end_date p tasks) tasks).4
    ∙ rw (update_end_date-next p tasks)

pub key-update_end_date :
    (p : ComputePlan) (tasks : List ComputeTask) → (update_end_date p tasks).key ≡ p.key
key-update_end_date p tasks = rw (update_end_date-next p tasks)

-- What `refresh_plan` did, if it did not raise.
pub refresh_plan-eq-ok :
    (env : Env) (key : ℕ) (db db' : Db)
    → refresh_plan env key db ≡ ok db'
    → (p : ComputePlan) × (get? plan_key key db.plans ≡ some p)
      × (db' ≡ record db { plans = save plan_key (refreshed env.now p db.tasks) db.plans })
unfolding refresh_plan
refresh_plan-eq-ok env key db db' h =
    let (p, found, rest) = or_raise-eq-ok does_not_exist (get? plan_key key db.plans) _ h in
    (
      p,
      found,
      sym (ok-injective _ _ rest)
          ∙ ap (λ (ps : List ComputePlan). record db { plans = ps })
              (save-save plan_key (update_end_date p db.tasks) (refreshed env.now p db.tasks)
                db.plans (key-refreshed env.now p db.tasks ∙ sym (key-update_end_date p db.tasks))),
    )

-- Nothing is left to update in the row of the plan, and its status is the one that the tasks give.
pub record IsSettled (p : ComputePlan) (tasks : List ComputeTask) : Type 0 where
  pub status_expected : p.status ≡ expected_status p.cancelation_date (compute_tasks p tasks)
  pub end_date_fixed : update_end_date p tasks ≡ p
  pub status_fixed : (now : Date) → update_status now p tasks ≡ p

pub refreshed-IsSettled :
    (now : Date) (p : ComputePlan) (tasks : List ComputeTask)
    → IsSettled (refreshed now p tasks) tasks
refreshed-IsSettled now p tasks = record {
  status_expected =
      ap (λ (q : ComputePlan). q.status)
        (sym (update_status-update_status now now (update_end_date p tasks) tasks))
      ∙ update_status-expected now (refreshed now p tasks) tasks;
  end_date_fixed =
      sym (update_status-update_end_date now (update_end_date p tasks) tasks)
      ∙ ap (λ (q : ComputePlan). update_status now q tasks)
          (update_end_date-update_end_date p tasks);
  status_fixed = λ later. update_status-update_status now later (update_end_date p tasks) tasks;
}

-- A plan that was refreshed has a row in which nothing is left to update, and the tables of the
-- tasks and of every other asset are as they were.
pub refresh_plan-IsSettled :
    (env : Env) (key : ℕ) (db db' : Db)
    → refresh_plan env key db ≡ ok db'
    → (p : ComputePlan) × (get? plan_key key db'.plans ≡ some p) × IsSettled p db'.tasks
refresh_plan-IsSettled env key db db' h =
    let (p, found, e) = refresh_plan-eq-ok env key db db' h in
    let row = refreshed env.now p db.tasks in
    let same : row.key ≡ key =
      key-refreshed env.now p db.tasks ∙ key_of-get? plan_key key p db.plans found in
    (
      row,
      rw e (rw (← same) (get?-save_self plan_key row db.plans)),
      rw e (refreshed-IsSettled env.now p db.tasks),
    )

-- Refreshing a plan in whose row nothing is left to update changes nothing.
pub refresh_plan-settled :
    (env : Env) (key : ℕ) (db : Db) (p : ComputePlan)
    → get? plan_key key db.plans ≡ some p
    → IsSettled p db.tasks
    → refresh_plan env key db ≡ ok db
unfolding refresh_plan
refresh_plan-settled env key db p found settled =
    let same = save-get? plan_key key p db.plans found in
    rw (found, settled.end_date_fixed, settled.status_fixed env.now, same, same) refl

-- A second refresh, at whatever time, changes nothing.
pub refresh_plan-refresh_plan :
    (env later : Env) (key : ℕ) (db db' : Db)
    → refresh_plan env key db ≡ ok db'
    → refresh_plan later key db' ≡ ok db'
refresh_plan-refresh_plan env later key db db' h =
    let (p, found, settled) = refresh_plan-IsSettled env key db db' h in
    refresh_plan-settled later key db' p found settled
