-- ===== src/Sync/Outputs.antt =====
-- The handlers of backend/api/events/sync.py for the output assets of a task and for performances.
use substra_backend.Prelude.{
  ℕ, String, Bool, false, ◌&&◌, none, some, List, [], ◌∷◌, ◌++◌, ◌==◌, str_eq, Result, ok, ◌>>=◌,
  or_raise, does_not_exist, filter,
}
use substra_backend.Models.{
  Db, ComputeTaskInput, ComputeTaskOutput, ComputeTaskInputAsset, ComputeTaskOutputAsset,
  Performance,
}
use substra_backend.Sync.Events.{Env, OutputAssetData, PerformanceData, performance}
use substra_backend.Sync.Saving.{save_if_not_exists, unless_invalid}
use substra_backend.Sync.Inputs.{create_input_asset, find_output}

-- The rows that the handlers create.
abbrev pub input_asset_row : String → OutputAssetData → ComputeTaskInput → ComputeTaskInputAsset
input_asset_row channel a i = record {
  task_input = i;
  asset_kind = a.asset_kind;
  asset_key = a.asset_key;
  channel = channel;
}

abbrev pub output_asset_row : String → OutputAssetData → ComputeTaskOutput → ComputeTaskOutputAsset
output_asset_row channel a output = record {
  task_output = output;
  asset_kind = a.asset_kind;
  asset_key = a.asset_key;
  channel = channel;
}

abbrev pub performance_row : String → PerformanceData → ComputeTaskOutput → Performance
performance_row channel p output = record {
  task_output = output;
  value = p.performance_value;
  creation_date = p.creation_date;
  channel = channel;
}

-- for task_input in ComputeTaskInput.objects.filter(...): ComputeTaskInputAsset.objects.create(...)
unfoldable pub create_input_assets :
    OutputAssetData → (channel : String) → List ComputeTaskInput → Db → Result Db
create_input_assets a channel [] db = ok db
create_input_assets a channel (i ∷ is) db =
    create_input_asset (input_asset_row channel a i) db >>= create_input_assets a channel is

-- The inputs that wait for the output of a task.
abbrev pub awaits : ℕ → String → ComputeTaskInput → Bool
awaits task identifier i =
    elim i.parent_task_key [ none ↦ false | some parent ↦ parent == task ]
    && elim i.parent_task_output_identifier [ none ↦ false | some o ↦ str_eq o identifier ]

unfoldable pub create_computetask_output_asset : String → OutputAssetData → Db → Result Db
create_computetask_output_asset channel a db = do
  output ← or_raise does_not_exist (
      find_output a.compute_task_key a.compute_task_output_identifier
        (filter (λ o. str_eq o.channel channel) db.task_outputs))
  create_input_assets a channel
      (filter (awaits a.compute_task_key a.compute_task_output_identifier) db.task_inputs)
      (record db { output_assets = db.output_assets ++ output_asset_row channel a output ∷ [] })

-- PerformanceSerializer.create
unfoldable pub insert_performance : String → PerformanceData → Db → Result Db
insert_performance channel p db = do
  output ← or_raise does_not_exist (
      find_output p.compute_task_key p.compute_task_output_identifier
        (filter (λ o. str_eq o.channel channel) db.task_outputs))
  ok (record db { performances = db.performances ++ performance_row channel p output ∷ [] })

-- The row has an automatic key, and no constraint says that an output has one performance.
unfoldable pub create_performance : Env → String → PerformanceData → Db → Result Db
create_performance env channel p db = unless_invalid db (
    save_if_not_exists false (env.field_errors (performance p)) none
      (insert_performance channel p db))
