-- ===== src/Sync/Tasks.antt =====
-- The handlers of backend/api/events/sync.py for compute tasks and failures, with
-- backend/api/events/dynamic_fields.py.
use substra_backend.Prelude.{
  ℕ, String, ◌+◌, Bool, true, false, Option, none, some, List, [], ◌∷◌, ◌++◌, ◌==◌, if◌then◌else◌,
  Result, ok, ◌>>=◌, or_raise, does_not_exist, filter, map, or_else,
}
use substra_backend.Models.{
  Db, Date, ComputeTask, TaskStatus, executing, done, canceled, failed, ErrorType, internal,
  AssetFailureReport, FailedAssetKind, failed_asset_function, Function,
}
use substra_backend.Store.{get?, save, exists}
use substra_backend.Sync.Events.{
  Env, dict_get, dict_remove, TaskData, FailureReportData, compute_task, failure_report,
}
use substra_backend.Sync.Saving.{save_if_not_exists, unless_exists}
use substra_backend.Sync.Assets.{function_key, plan_key, task_key, report_key, refresh_plan}
use substra_backend.Sync.Inputs.{create_inputs, output_rows, missing_parents}

-- orc_client.add_tag_from_metadata
unfoldable pub add_tag_from_metadata : TaskData → TaskData
add_tag_from_metadata d = record d {
  tag = or_else (dict_get "__tag__" d.metadata) "";
  metadata = dict_remove "__tag__" d.metadata;
}

-- The start and end dates that an event gives: the timestamp, by the status of its task.
unfoldable pub dates_from_status : TaskStatus → String → Option String × Option String
dates_from_status executing timestamp = (some timestamp, none)
dates_from_status canceled timestamp = (none, some timestamp)
dates_from_status done timestamp = (none, some timestamp)
dates_from_status failed timestamp = (none, some timestamp)
dates_from_status _ timestamp = (none, none)

abbrev pub error_of : Option FailureReportData → Option ErrorType
error_of none = none
error_of (some r) = some r.error_type

abbrev pub set_failure : Option FailureReportData → ComputeTask → ComputeTask
set_failure none t = t
set_failure (some r) t = record t {
  error_type = some r.error_type;
  logs_address = elim r.logs_address [ none ↦ t.logs_address | some (address, _) ↦ some address ];
  logs_checksum = elim r.logs_address [ none ↦ t.logs_checksum | some (_, sum) ↦ some sum ];
  logs_owner = elim r.owner [ none ↦ t.logs_owner | some owner ↦ some owner ];
}

abbrev pub is_internal : ErrorType → Bool
is_internal internal = true
is_internal _ = false

abbrev pub is_function_failure : FailedAssetKind → Bool
is_function_failure failed_asset_function = true
is_function_failure _ = false

module _ (env : Env) where
  abbrev pub parse_date : Option String → Option Date
  parse_date none = none
  parse_date (some s) = env.parse_datetime s

  -- The row that the serializer creates. The logs' fields are not among those of the serializer.
  abbrev pub task_row :
      (channel : String) (d : TaskData) (start_date end_date : Option String)
      → Option FailureReportData
      → ComputeTask
  task_row channel d start_date end_date report = record {
    key = d.key;
    function = d.function_key;
    owner = d.owner;
    compute_plan = d.compute_plan_key;
    rank = d.rank;
    status = d.status;
    worker = d.worker;
    creation_date = d.creation_date;
    start_date = parse_date start_date;
    end_date = parse_date end_date;
    error_type = error_of report;
    tag = d.tag;
    logs_address = none;
    logs_checksum = none;
    logs_owner = none;
    channel = channel;
  }

  -- ComputeTaskSerializer.create
  unfoldable pub insert_computetask :
      (channel : String) (d : TaskData) (start_date end_date : Option String)
      → Option FailureReportData
      → Function
      → Db
      → Result Db
  insert_computetask channel d start_date end_date report f db =
      let row = task_row channel d start_date end_date report in
      do
        db' ←
            create_inputs env.key_text f.inputs d.key channel 0 d.inputs
              (record db { tasks = save task_key row db.tasks })
        ok (record db' { task_outputs = db'.task_outputs ++ output_rows d.key channel d.outputs })

  -- The function is read by the validation of the serializer, which lets DoesNotExist through.
  unfoldable pub create_computetask :
      (channel : String) (d : TaskData) (start_date end_date : Option String)
      → Option FailureReportData
      → Db
      → Result Db
  create_computetask channel d start_date end_date report db = do
    f ← or_raise does_not_exist (get? function_key d.function_key db.functions)
    let no_plan : ℕ = if exists plan_key d.compute_plan_key db.plans then 0 else 1
    unless_exists db (
        save_if_not_exists (exists task_key d.key db.tasks)
          (no_plan + missing_parents d.inputs db.tasks + env.field_errors (compute_task d)) none
          (insert_computetask channel d start_date end_date report f db))

  -- compute_task.x if compute_task.x is not None, else the parsed date if there is one
  abbrev pub first_date : Option Date → Option String → Option Date
  first_date (some d) _ = some d
  first_date none none = none
  first_date none (some s) = env.parse_datetime s

  -- The changes that `_update_computetask` makes to the row.
  unfoldable pub updated_task :
      Option TaskStatus
      → (start_date end_date : Option String) → Option FailureReportData
      → ComputeTask
      → ComputeTask
  updated_task status start_date end_date report t = set_failure report (record t {
    status = or_else status t.status;
    start_date = first_date t.start_date start_date;
    end_date = first_date t.end_date end_date;
  })

  unfoldable pub update_computetask :
      (key : ℕ)
      → Option TaskStatus
      → (start_date end_date : Option String) → Option FailureReportData
      → Db
      → Result Db
  update_computetask key status start_date end_date report db = do
    t ← or_raise does_not_exist (get? task_key key db.tasks)
    ok (record db {
      tasks = save task_key (updated_task status start_date end_date report t) db.tasks;
    })

  unfoldable pub on_create_computetask : String → TaskData → Db → Result Db
  on_create_computetask channel d db =
      create_computetask channel d none none none db >>= refresh_plan env d.compute_plan_key

  unfoldable pub on_update_computetask : (timestamp : String) → TaskData → Db → Result Db
  on_update_computetask timestamp d db =
      let (start_date, end_date) = dates_from_status d.status timestamp in
      update_computetask d.key (some d.status) start_date end_date none db
      >>= refresh_plan env d.compute_plan_key

  -- for task_key in compute_task_keys: _update_computetask(key, failure_report=...)
  unfoldable pub fail_tasks : FailureReportData → List ℕ → Db → Result Db
  fail_tasks r [] db = ok db
  fail_tasks r (key ∷ keys) db =
      update_computetask key none none none (some r) db >>= fail_tasks r keys

  -- The key of the row, `asset_key`, is not validated; the message of the database's IntegrityError
  -- ("duplicate key value ...") contains the name `key`.
  unfoldable pub create_failure_report : ℕ → FailureReportData → Db → Result Db
  create_failure_report key r db =
      let row : AssetFailureReport = record {
        asset_key = key;
        asset_type = r.asset_type;
        logs_address = elim r.logs_address [ none ↦ none | some (address, _) ↦ some address ];
        logs_checksum = elim r.logs_address [ none ↦ none | some (_, sum) ↦ some sum ];
        logs_owner = or_else r.owner "";
      } in
      unless_exists db (
        save_if_not_exists false (env.field_errors (failure_report r))
          (if exists report_key key db.failure_reports then some true else none)
          (ok (record db { failure_reports = save report_key row db.failure_reports })))

  unfoldable pub on_create_failure_report : ℕ → FailureReportData → Db → Result Db
  on_create_failure_report key r db = do
    db' ← if is_internal r.error_type then ok db else create_failure_report key r db
    if is_function_failure r.asset_type
        then fail_tasks r (map task_key (filter (λ t. t.function == key) db'.tasks)) db'
        else update_computetask key none none none (some r) db'
