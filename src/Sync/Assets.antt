-- ===== src/Sync/Assets.antt =====
-- The handlers of backend/api/events/sync.py for every asset but compute tasks and their outputs.
use substra_backend.Prelude.{
  ℕ, String, ◌+◌, Bool, false, ◌||◌, ◌&&◌, not, Option, none, some, List, [], ◌∷◌, ◌++◌, ◌==◌,
  str_eq, if◌then◌else◌, Result, ok, err, ◌>>=◌, or_raise, does_not_exist, any, filter, map,
  integrity_error, or_else, count,
}
use substra_backend.Models.{
  Db, ChannelOrganization, Function, ComputePlan, plan_created, DataManager, DataSample, Model,
  AssetFailureReport, FunctionProfilingStep, ComputeTask,
}
use substra_backend.Store.{get?, save, exists}
use substra_backend.ComputePlan.{update_end_date, update_status}
use substra_backend.Sync.Events.{
  Env, dict_get, OrganizationData, FunctionData, PlanData, DataManagerData, DataSampleData,
  ModelData, ProfilingStepData, organization, function, compute_plan, data_manager, data_sample,
  model,
}
use substra_backend.Sync.Saving.{save_if_not_exists, unless_exists}

-- The primary keys.
abbrev pub function_key : Function → ℕ
function_key r = r.key

abbrev pub plan_key : ComputePlan → ℕ
plan_key r = r.key

abbrev pub data_manager_key : DataManager → ℕ
data_manager_key r = r.key

abbrev pub data_sample_key : DataSample → ℕ
data_sample_key r = r.key

abbrev pub model_key : Model → ℕ
model_key r = r.key

abbrev pub report_key : AssetFailureReport → ℕ
report_key r = r.asset_key

abbrev pub task_key : ComputeTask → ℕ
task_key r = r.key

-- The rows that the serializers create.
abbrev pub function_row : String → FunctionData → Function
function_row channel f = record {
  key = f.key;
  name = f.name;
  owner = f.owner;
  status = f.status;
  image_address = none;
  image_checksum = none;
  inputs = f.inputs;
  creation_date = f.creation_date;
  channel = channel;
}

abbrev pub plan_row : String → ℕ → PlanData → ComputePlan
plan_row channel creator p = record {
  key = p.key;
  owner = p.owner;
  status = plan_created;
  tag = p.tag;
  name = p.name;
  creator = creator;
  creation_date = p.creation_date;
  cancelation_date = none;
  start_date = none;
  end_date = none;
  failed_task_key = none;
  channel = channel;
}

-- data.setdefault("logs_permission", {"public": False, "authorized_ids": [data["owner"]]})
abbrev pub data_manager_row : String → DataManagerData → DataManager
data_manager_row channel d = record {
  key = d.key;
  name = d.name;
  owner = d.owner;
  logs_permission_public = (or_else d.logs_permission (false, d.owner ∷ [])).0;
  logs_permission_authorized_ids = (or_else d.logs_permission (false, d.owner ∷ [])).1;
  creation_date = d.creation_date;
  channel = channel;
}

abbrev pub data_sample_row : String → DataSampleData → DataSample
data_sample_row channel d = record {
  key = d.key;
  owner = d.owner;
  data_managers = d.data_manager_keys;
  creation_date = d.creation_date;
  channel = channel;
}

abbrev pub model_row : String → ModelData → Model
model_row channel m = record {
  key = m.key;
  compute_task = m.compute_task_key;
  model_address = elim m.address [ none ↦ none | some (a, _) ↦ some a ];
  model_checksum = elim m.address [ none ↦ none | some (_, c) ↦ some c ];
  owner = m.owner;
  creation_date = m.creation_date;
  channel = channel;
}

abbrev pub step_row : ℕ → ProfilingStepData → FunctionProfilingStep
step_row key p = record { function = key; step = p.step; duration = p.duration }

-- The fields that are unique together.
abbrev pub same_step : ℕ → ProfilingStepData → FunctionProfilingStep → Bool
same_step key p r = (r.function == key) && str_eq r.step p.step

-- `if name`, `if image_address and image_checksum`: an empty text counts as missing. The name of a
-- status is never empty.
abbrev pub nonempty : Option String → Option String
nonempty none = none
nonempty (some s) = if str_eq s "" then none else some s

abbrev pub set_image : Option String → Option String → Function → Function
set_image (some address) (some checksum) f = record f {
  image_address = some address;
  image_checksum = some checksum;
}
set_image _ _ f = f

module _ (env : Env) where
  -- get_or_create of the user that stands for the creators outside the organization.
  unfoldable pub get_or_create_external_user : Db → ℕ × Db
  get_or_create_external_user db = elim db.external_user [
    | some user ↦ (user, db)
    | none ↦ (env.new_user, record db { external_user = some env.new_user })
  ]

  -- The field `key` is not among those of the serializer, so a row with the same organization and
  -- channel is a validation error of the whole, and no error of the primary key.
  unfoldable pub create_organization : String → OrganizationData → Db → Result Db
  create_organization channel org db =
      let same =
        λ (r : ChannelOrganization). str_eq r.organization_id org.id && str_eq r.channel channel in
      let row : ChannelOrganization = record {
        organization_id = org.id;
        address = org.address;
        creation_date = org.creation_date;
        channel = channel;
      } in
      unless_exists db (
        save_if_not_exists false (count same db.organizations + env.field_errors (organization org))
          none (ok (record db { organizations = db.organizations ++ row ∷ [] })))

  unfoldable pub create_function : String → FunctionData → Db → Result Db
  create_function channel f db = unless_exists db (
      save_if_not_exists (exists function_key f.key db.functions) (env.field_errors (function f))
        none
        (ok (record db { functions = save function_key (function_row channel f) db.functions })))

  unfoldable pub update_function : ℕ → FunctionData → Db → Result Db
  update_function key data_ db = do
    f ← or_raise does_not_exist (get? function_key key db.functions)
    let named = record f {
      name = or_else (nonempty (some data_.name)) f.name;
      status = data_.status;
    }
    let updated =
        set_image (nonempty (dict_get "storageAddress" data_.image))
          (nonempty (dict_get "checksum" data_.image)) named
    ok (record db { functions = save function_key updated db.functions })

  unfoldable pub create_computeplan : String → PlanData → Db → Result Db
  create_computeplan channel p db =
      let (creator, db') = get_or_create_external_user db in
      unless_exists db' (
        save_if_not_exists (exists plan_key p.key db'.plans) (env.field_errors (compute_plan p))
          none (ok (record db' { plans = save plan_key (plan_row channel creator p) db'.plans })))

  -- compute_plan.update_end_date(); compute_plan.update_status(): each saves the row.
  unfoldable pub refresh_plan : ℕ → Db → Result Db
  refresh_plan key db = do
    plan ← or_raise does_not_exist (get? plan_key key db.plans)
    let ended = update_end_date plan db.tasks
    let settled = update_status env.now ended db.tasks
    ok (record db { plans = save plan_key settled (save plan_key ended db.plans) })

  unfoldable pub update_computeplan : ℕ → PlanData → Db → Result Db
  update_computeplan key p db = do
    plan ← or_raise does_not_exist (get? plan_key key db.plans)
    let row = record plan { cancelation_date = p.cancelation_date; name = p.name }
    let ended = update_end_date row db.tasks
    let settled = update_status env.now ended db.tasks
    ok (record db {
      plans = save plan_key settled (save plan_key ended (save plan_key row db.plans));
    })

  unfoldable pub create_datamanager : String → DataManagerData → Db → Result Db
  create_datamanager channel d db = unless_exists db (
      save_if_not_exists (exists data_manager_key d.key db.data_managers)
        (env.field_errors (data_manager d)) none
        (ok (record db {
          data_managers = save data_manager_key (data_manager_row channel d) db.data_managers;
        })))

  unfoldable pub update_datamanager : ℕ → DataManagerData → Db → Result Db
  update_datamanager key d db = do
    row ← or_raise does_not_exist (get? data_manager_key key db.data_managers)
    ok (record db {
      data_managers = save data_manager_key (record row { name = d.name }) db.data_managers;
    })

  -- The data managers that exist, of those with a key of the list.
  unfoldable pub known_data_managers : List ℕ → Db → List ℕ
  known_data_managers keys db =
      map data_manager_key (filter (λ d. any (λ k. k == d.key) keys) db.data_managers)

  unfoldable pub create_datasample : String → DataSampleData → Db → Result Db
  create_datasample channel d db =
      let missing =
        count (λ k. not (exists data_manager_key k db.data_managers)) d.data_manager_keys in
      unless_exists db (
        save_if_not_exists (exists data_sample_key d.key db.data_samples)
          (missing + env.field_errors (data_sample d)) none
          (ok (record db {
            data_samples = save data_sample_key (data_sample_row channel d) db.data_samples;
          })))

  unfoldable pub update_datasample : ℕ → List ℕ → Db → Result Db
  update_datasample key keys db = do
    let data_managers = known_data_managers keys db
    row ← or_raise does_not_exist (get? data_sample_key key db.data_samples)
    ok (record db {
      data_samples =
          save data_sample_key (record row { data_managers = data_managers }) db.data_samples;
    })

  unfoldable pub create_model : String → ModelData → Db → Result Db
  create_model channel m db =
      let missing = if exists task_key m.compute_task_key db.tasks then 0 else 1 in
      unless_exists db (
        save_if_not_exists (exists model_key m.key db.models) (missing + env.field_errors (model m))
          none (ok (record db { models = save model_key (model_row channel m) db.models })))

  unfoldable pub disable_model : ℕ → Db → Result Db
  disable_model key db = do
    row ← or_raise does_not_exist (get? model_key key db.models)
    ok (record db { models = save model_key (record row { model_address = none }) db.models })

  -- (function, step) is unique, `function` is a foreign key, and `save()` of the new object inserts it.
  unfoldable pub create_profiling_step : ℕ → ProfilingStepData → Db → Result Db
  create_profiling_step key p db =
      if any (same_step key p) db.profiling_steps || not (exists function_key key db.functions)
      then err integrity_error
      else ok (record db { profiling_steps = db.profiling_steps ++ step_row key p ∷ [] })
