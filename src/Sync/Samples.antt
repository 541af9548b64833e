-- ===== src/Sync/Samples.antt =====
-- A concrete database and payloads, for the tests of the handlers of backend/api/events/sync.py.
use substra_backend.Prelude.{ℕ, none, some, [], ◌∷◌, false}
use substra_backend.Models.{
  Db, ComputeTask, ComputePlan, Function, function_waiting, ComputeTaskInput, ComputeTaskOutput,
  executing, waiting_for_executor_slot, plan_created, asset_model, TaskStatus,
}
use substra_backend.Sync.Events.{
  Env, Event, compute_task, event_asset_updated, TaskData, OutputAssetData, PerformanceData,
  ProfilingStepData,
}

abbrev pub env : Env
env = record {
  now = 100;
  new_user = 1;
  parse_datetime = λ s. some 60;
  key_text = λ k. "key";
  field_errors = λ p. 0;
}

abbrev pub trainer : Function
trainer = record {
  key = 50;
  name = "train";
  owner = "org-1";
  status = function_waiting;
  image_address = none;
  image_checksum = none;
  inputs =
      record { identifier = "shared"; kind = asset_model; optional = false; multiple = false } ∷ [];
  creation_date = 1;
  channel = "mychannel";
}

abbrev pub task : ℕ → TaskStatus → ComputeTask
task key status = record {
  key = key;
  function = 50;
  owner = "org-1";
  compute_plan = 7;
  rank = 0;
  status = status;
  worker = "org-1";
  creation_date = 1;
  start_date = none;
  end_date = none;
  error_type = none;
  tag = "";
  logs_address = none;
  logs_checksum = none;
  logs_owner = none;
  channel = "mychannel";
}

abbrev pub plan : ComputePlan
plan = record {
  key = 7;
  owner = "org-1";
  status = plan_created;
  tag = "";
  name = "plan";
  creator = 1;
  creation_date = 1;
  cancelation_date = none;
  start_date = none;
  end_date = none;
  failed_task_key = none;
  channel = "mychannel";
}

abbrev pub model_output : ComputeTaskOutput
model_output = record { task = 1; identifier = "model"; transient = false; channel = "mychannel" }

-- The second task waits for the output of the first.
abbrev pub waiting_input : ComputeTaskInput
waiting_input = record {
  task = 2;
  identifier = "shared";
  position = 0;
  asset_key = none;
  parent_task_key = some 1;
  parent_task_output_identifier = some "model";
  channel = "mychannel";
}

abbrev pub db : Db
db = record {
  organizations = [];
  functions = trainer ∷ [];
  plans = plan ∷ [];
  tasks = task 1 waiting_for_executor_slot ∷ task 2 waiting_for_executor_slot ∷ [];
  task_inputs = waiting_input ∷ [];
  task_outputs = model_output ∷ [];
  input_assets = [];
  output_assets = [];
  data_managers = [];
  data_samples = [];
  performances = [];
  models = [];
  failure_reports = [];
  profiling_steps = [];
  external_user = none;
}

abbrev pub task_data : TaskData
task_data = record {
  key = 1;
  function_key = 50;
  owner = "org-1";
  compute_plan_key = 7;
  rank = 0;
  status = executing;
  worker = "org-1";
  creation_date = 1;
  metadata = [];
  tag = "";
  inputs = [];
  outputs = ("model", false) ∷ [];
}

abbrev pub executing_event : Event
executing_event = record {
  id = "event-1";
  channel = "mychannel";
  asset_key = 1;
  timestamp = "2024-01-01T00:00:00Z";
  event_kind = event_asset_updated;
  payload = compute_task task_data;
}

abbrev pub output_data : OutputAssetData
output_data = record {
  compute_task_key = 1;
  compute_task_output_identifier = "model";
  asset_kind = asset_model;
  asset_key = "model-key";
}

abbrev pub performance_data : PerformanceData
performance_data = record {
  compute_task_key = 1;
  compute_task_output_identifier = "model";
  performance_value = 3;
  creation_date = 4;
}

abbrev pub step_data : ProfilingStepData
step_data = record { step = "build_image"; duration = 12 }
