-- ===== src/Sync/Updates.antt =====
-- What the handlers of backend/api/events/sync.py that update a row do to it, and what they leave.
use substra_backend.Prelude.{
  ℕ, String, ◌≡◌, ◌≢◌, refl, sym, ◌∙◌, ap, Bool, true, false, Option, none, some, [], ◌∷◌, ok,
  does_not_exist, bind-eq-ok, or_raise-eq-ok, ok-injective, arith, ne→==_false, or_else,
}
use substra_backend.Models.{
  Db, Date, ComputeTask, ComputePlan, Function, executing, canceled, done, failed, TaskStatus,
}
use substra_backend.Store.{get?, save}
use substra_backend.Store.Laws.{get?-save, get?-save_edited, key_of-get?}
use substra_backend.Sync.Events.{Env, TaskData, FunctionData, Dict, dict_get}
use substra_backend.Sync.Assets.{task_key, plan_key, function_key, update_function, nonempty}
use substra_backend.Sync.Tasks.{
  dates_from_status, first_date, updated_task, update_computetask, on_update_computetask,
}
use substra_backend.Sync.Refresh.{refresh_plan-eq-ok, refresh_plan-IsSettled, IsSettled}
use substra_backend.Sync.Replay.Tasks.{update_computetask-eq-ok}

abbrev pub is_executing : TaskStatus → Bool
is_executing executing = true
is_executing _ = false

abbrev pub is_final : TaskStatus → Bool
is_final canceled = true
is_final done = true
is_final failed = true
is_final _ = false

-- The date of a task after an event: the one that it has; else the time of the event, if the status
-- of the event is one that sets it.
abbrev pub date_after : Env → Option Date → Bool → (timestamp : String) → Option Date
date_after env (some d) sets timestamp = some d
date_after env none true timestamp = env.parse_datetime timestamp
date_after env none false timestamp = none

dates-date_after :
    (env : Env) (status : TaskStatus) (timestamp : String) (start_date end_date : Option Date)
    → (first_date env start_date (dates_from_status status timestamp).0
        ≡ date_after env start_date (is_executing status) timestamp)
      × (first_date env end_date (dates_from_status status timestamp).1
          ≡ date_after env end_date (is_final status) timestamp)
unfolding dates_from_status
dates-date_after env executing timestamp s e = (ground arith, ground arith)
dates-date_after env _ timestamp s e = (ground arith, ground arith)

-- An update event that is handled sets the status of its task; it sets the start date, if there is
-- none, when the status is `executing`, and the end date, if there is none, when the status is
-- `canceled`, `done` or `failed`; it leaves the other fields of the row and the rows of all other
-- tasks. In the row of the task's plan nothing is left to update.
pub on_update_computetask-row :
    (env : Env) (timestamp : String) (d : TaskData) (db db' : Db)
    → on_update_computetask env timestamp d db ≡ ok db'
    → (t : ComputeTask) × (p : ComputePlan) × (get? task_key d.key db.tasks ≡ some t)
      × (get? task_key d.key db'.tasks
          ≡ some (record t {
            status = d.status;
            start_date = date_after env t.start_date (is_executing d.status) timestamp;
            end_date = date_after env t.end_date (is_final d.status) timestamp;
          }))
      × ((k : ℕ) → k ≢ d.key → get? task_key k db'.tasks ≡ get? task_key k db.tasks)
      × (get? plan_key d.compute_plan_key db'.plans ≡ some p)
      × IsSettled p db'.tasks
unfolding on_update_computetask updated_task
on_update_computetask-row env timestamp d db db' h =
    let dates = dates_from_status d.status timestamp in
    let (db1, updated, refreshing) =
      bind-eq-ok (update_computetask env d.key (some d.status) dates.0 dates.1 none db) _ h in
    let (t, found, e) =
      update_computetask-eq-ok env env.now d.key (some d.status) dates.0 dates.1 none db db1
        updated in
    let (_, _, e') = refresh_plan-eq-ok env d.compute_plan_key db1 db' refreshing in
    let (p, plan_found, settled) =
      refresh_plan-IsSettled env d.compute_plan_key db1 db' refreshing in
    let row = updated_task env (some d.status) dates.0 dates.1 none t in
    let tasks : db'.tasks ≡ save task_key row db.tasks =
      ap (λ (b : Db). b.tasks) e' ∙ ap (λ (b : Db). b.tasks) e in
    let (starts, ends) = dates-date_after env d.status timestamp t.start_date t.end_date in
    (
      t,
      p,
      found,
      rw tasks (get?-save_edited task_key d.key t row db.tasks found refl ∙ rw (starts, ends) refl),
      λ k other.
          rw
            (
              tasks,
              get?-save task_key k row db.tasks,
              ne→==_false row.key k
                  (λ same. other (sym same ∙ key_of-get? task_key d.key t db.tasks found)),
            )
            refl,
      plan_found,
      settled,
    )

-- The dictionary of an `Addressable` message: the client converts events with
-- `preserving_proto_field_name`, so the keys are the names of the message's fields.
abbrev pub addressable_dict : (storage_address checksum : String) → Dict
addressable_dict address checksum = ("storage_address", address) ∷ ("checksum", checksum) ∷ []

-- An update event of a function, with the image as the client converts it, sets the name, if it is
-- not empty, and the status, and leaves the address and the checksum of the image as they were,
-- whatever image the event brings: the handler reads the key `storageAddress`.
pub update_function-image :
    (env : Env) (key : ℕ) (d : FunctionData) (address checksum : String) (db db' : Db)
    → d.image ≡ addressable_dict address checksum
    → update_function env key d db ≡ ok db'
    → (f : Function) × (get? function_key key db.functions ≡ some f)
      × (get? function_key key db'.functions
          ≡ some (record f { name = or_else (nonempty (some d.name)) f.name; status = d.status }))
unfolding update_function dict_get
update_function-image env key d address checksum db db' image h =
    let (f, found, e) = or_raise-eq-ok does_not_exist (get? function_key key db.functions) _ h in
    let row = record f { name = or_else (nonempty (some d.name)) f.name; status = d.status } in
    let no_address : dict_get "storageAddress" d.image ≡ none = rw image refl in
    let e' : ok (record db { functions = save function_key row db.functions }) ≡ ok db' =
      rw no_address at e in
    (
      f,
      found,
      rw (← ok-injective _ _ e') (get?-save_edited function_key key f row db.functions found refl),
    )
