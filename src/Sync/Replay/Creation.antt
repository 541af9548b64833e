-- ===== src/Sync/Replay/Creation.antt =====
-- The handler that creates a compute task, called twice.
use substra_backend.Prelude.{
  ℕ, String, ◌+◌, ◌≡◌, refl, true, none, some, if◌then◌else◌, Result, ok, err, Error,
  already_exists, does_not_exist, ◌>>=◌, arith, inl, inr, ◌≢◌, bind-eq-ok, or_raise-eq-ok,
  ok-injective,
}
use substra_backend.Models.{Db, Date, ComputeTask, ComputePlan, Function}
use substra_backend.Store.{get?, save, exists}
use substra_backend.Store.Laws.{exists-save_self}
use substra_backend.Sync.Events.{Env, TaskData, compute_task}
use substra_backend.Sync.Saving.{unless_exists-taken}
use substra_backend.Sync.Assets.{task_key, plan_key, function_key}
use substra_backend.Sync.Inputs.{create_inputs, missing_parents}
use substra_backend.Sync.Tasks.{
  insert_computetask, create_computetask, on_create_computetask, task_row,
}
use substra_backend.Sync.Refresh.{
  refresh_plan-eq-ok, refresh_plan-refresh_plan, refresh_plan-IsSettled,
}
use substra_backend.Sync.Replay.Saved.{saved-eq-ok}
use substra_backend.Sync.Replay.Tasks.{at_time}
use substra_backend.Sync.Replay.Insertion.{SameCore, create_inputs-Inserts, missing_parents-save}

bind-eq-err : (m : Result Db) (g : Db → Db) (e : Error) → (m >>= λ b. ok (g b)) ≡ err e → m ≡ err e
bind-eq-err (ok b) g e h = cc
bind-eq-err (err c) g e h = h

module _ (env : Env) (channel : String) (d : TaskData) (db : Db) where
  abbrev row : ComputeTask
  row = task_row env channel d none none none

  abbrev with_task : Db
  with_task = record db { tasks = save task_key row db.tasks }

  abbrev others : Db → ℕ
  others b =
      (if exists plan_key d.compute_plan_key b.plans then 0 else 1)
      + missing_parents d.inputs b.tasks
      + env.field_errors (compute_task d)

  insert-SameCore :
      (f : Function) (db' : Db)
      → insert_computetask env channel d none none none f db ≡ ok db'
      → SameCore with_task db'
  unfolding insert_computetask
  insert-SameCore f db' h =
      let m = create_inputs env.key_text f.inputs d.key channel 0 d.inputs with_task in
      let (b, made, e) = bind-eq-ok m _ h in
      let core : SameCore with_task b =
        rw made at
          (create_inputs-Inserts env.key_text f.inputs d.key channel 0 d.inputs with_task) in
      rw (← ok-injective _ _ e)
        (record { functions = core.functions; plans = core.plans; tasks = core.tasks })

  insert-ne-exists :
      (f : Function) → insert_computetask env channel d none none none f db ≢ err already_exists
  unfolding insert_computetask
  insert-ne-exists f h =
      let m = create_inputs env.key_text f.inputs d.key channel 0 d.inputs with_task in
      let raised = bind-eq-err m _ already_exists h in
      let no_such : already_exists ≢ already_exists =
        rw raised at
          (create_inputs-Inserts env.key_text f.inputs d.key channel 0 d.inputs with_task) in
      no_such refl

  -- After a creation that raised nothing the function is there, the task has a row, and no field has
  -- an error.
  created :
      (db' : Db)
      → create_computetask env channel d none none none db ≡ ok db'
      → (f : Function) × (get? function_key d.function_key db'.functions ≡ some f)
        × (exists task_key d.key db'.tasks ≡ true)
        × (missing_parents d.inputs db'.tasks ≡ 0)
        × (env.field_errors (compute_task d) ≡ 0)
  unfolding create_computetask
  created db' h =
      let (f, found, saved) =
        or_raise-eq-ok does_not_exist (get? function_key d.function_key db.functions) _ h in
      let (clean, cases) =
        saved-eq-ok (exists task_key d.key db.tasks) (others db) _ db db' saved in
      elim cases [
        | inl (same, inl was) ↦ (f, rw same found, rw same was, rw same (omega arith), omega arith)
        | inl (same, inr raised) ↦ absurd (insert-ne-exists f raised)
        | inr inserted ↦
            let core = insert-SameCore f db' inserted in
            (
              f,
              rw core.functions found,
              rw core.tasks (exists-save_self task_key row db.tasks),
              rw core.tasks (omega (arith, missing_parents-save d.inputs row db.tasks)),
              omega arith,
            )
      ]

has_plan :
    (key : ℕ) (db : Db) {p : ComputePlan}
    → get? plan_key key db.plans ≡ some p
    → exists plan_key key db.plans ≡ true
unfolding exists
has_plan key db found = rw found

-- A second delivery of the creation of a task, at whatever time, changes nothing.
pub on_create_computetask-replay :
    (env : Env) (later : Date) (channel : String) (d : TaskData) (db db' : Db)
    → on_create_computetask env channel d db ≡ ok db'
    → on_create_computetask (at_time env later) channel d db' ≡ ok db'
unfolding on_create_computetask create_computetask
on_create_computetask-replay env later channel d db db' h =
    let (db1, made, settled) =
      bind-eq-ok (create_computetask env channel d none none none db) _ h in
    let (f, found, taken, parents, fields) = created env channel d db db1 made in
    let (_, _, e) = refresh_plan-eq-ok env d.compute_plan_key db1 db' settled in
    let (_, plan_found, _) = refresh_plan-IsSettled env d.compute_plan_key db1 db' settled in
    let found' : get? function_key d.function_key db'.functions ≡ some f = rw e found in
    let taken' : exists task_key d.key db'.tasks ≡ true = rw e taken in
    let parents' : missing_parents d.inputs db'.tasks ≡ 0 = rw e parents in
    let again : create_computetask (at_time env later) channel d none none none db' ≡ ok db' =
      rw (found', taken', has_plan d.compute_plan_key db' plan_found, parents', fields)
        (unless_exists-taken db' _ none) in
    rw again (refresh_plan-refresh_plan env (at_time env later) d.compute_plan_key db1 db' settled)
