-- ===== src/Sync/Examples.antt =====
-- Tests of the handlers of backend/api/events/sync.py at a concrete database, and the theorems about
-- them at inputs.
use substra_backend.Prelude.{
  ℕ, ◌≡◌, ◌≢◌, refl, some, List, [], ◌∷◌, ◌++◌, true, false, Result, ok, err, integrity_error,
}
use substra_backend.Models.{
  Db, ComputeTask, ComputePlan, function_ready, ComputeTaskOutput, executing,
}
use substra_backend.Store.{get?, save, exists}
use substra_backend.ComputePlan.{
  compute_tasks, get_task_stats, update_status, update_end_date, first_ended, last_ended,
  add_failed_task,
}
use substra_backend.Sync.Events.{Env, Event, compute_task, FunctionData, dict_get, dict_remove}
use substra_backend.Sync.Assets.{
  task_key, plan_key, refresh_plan, create_profiling_step, update_function,
}
use substra_backend.Sync.Saving.{save_if_not_exists}
use substra_backend.Sync.Inputs.{find_output, create_input_asset}
use substra_backend.Sync.Tasks.{
  dates_from_status, updated_task, update_computetask, on_update_computetask, add_tag_from_metadata,
}
use substra_backend.Sync.Outputs.{
  create_computetask_output_asset, create_performance, insert_performance, create_input_assets,
  output_asset_row,
}
use substra_backend.Sync.Dispatch.{callback, sync_on_event_message, Consumer, consume_channel}
use substra_backend.Sync.Refresh.{IsSettled}
use substra_backend.Sync.Replay.Tasks.{at_time}
use substra_backend.Sync.Replay.Events.{sync_on_event_message-replay}
use substra_backend.Sync.Duplicates.OutputAssets.{create_computetask_output_asset-replay}
use substra_backend.Sync.Consuming.{
  Handled, last_id, Stops, consume_channel-prefix, consume_channel-crash,
}
use substra_backend.Sync.Updates.{date_after, on_update_computetask-row, addressable_dict}
use substra_backend.Sync.Samples.{
  env, db, task_data, executing_event, output_data, performance_data, step_data,
}

program : Unit {0}
unfolding update_status update_end_date compute_tasks get_task_stats first_ended last_ended
    add_failed_task get? save exists refresh_plan create_profiling_step update_function
    save_if_not_exists find_output create_input_asset dates_from_status updated_task
    update_computetask on_update_computetask add_tag_from_metadata create_computetask_output_asset
    create_performance insert_performance create_input_assets callback sync_on_event_message
    consume_channel dict_get dict_remove
program = tt

-- What a handler leaves, if it raises nothing.
abbrev after : Result Db → Db
after (ok b) = b
after (err e) = db

after_update :
    sync_on_event_message env executing_event db
    ≡ ok (after (sync_on_event_message env executing_event db))
unfolding program
after_update = refl

sync_on_event_message-replay_example :
    sync_on_event_message
      (at_time env 200)
      executing_event
      (after (sync_on_event_message env executing_event db))
    ≡ ok (after (sync_on_event_message env executing_event db))
sync_on_event_message-replay_example =
    sync_on_event_message-replay env 200 executing_event db
      (after (sync_on_event_message env executing_event db)) tt after_update

abbrev start : Consumer
start = record { db = db; last_event = "event-0" }

abbrev events_behind : List (Env × Event)
events_behind = (at_time env 300, record executing_event { id = "event-2" }) ∷ []

consume_channel-crash_example :
    consume_channel
      ((at_time env 200, executing_event) ∷ events_behind)
      (record start { db = after (sync_on_event_message env executing_event db) })
    ≡ consume_channel events_behind (record {
      db = after (sync_on_event_message env executing_event db);
      last_event = executing_event.id;
    })
consume_channel-crash_example =
    consume_channel-crash env 200 executing_event events_behind start
      (after (sync_on_event_message env executing_event db)) tt after_update

-- The second event names a task that has no row.
abbrev two_events : List (Env × Event)
two_events =
    (env, executing_event)
    ∷ (
      env,
      record executing_event {
        id = "event-2";
        payload = compute_task (record task_data { key = 9 });
      },
    )
    ∷ []

consume_channel-prefix_example :
    (handled rest : List (Env × Event)) × (two_events ≡ handled ++ rest)
    × Handled handled db (consume_channel two_events start).0.db
    × ((consume_channel two_events start).0.last_event ≡ last_id "event-0" handled)
    × Stops rest (consume_channel two_events start).0.db (consume_channel two_events start).1
consume_channel-prefix_example = consume_channel-prefix two_events start

stopped_at : (consume_channel two_events start).0.last_event ≡ "event-1"
unfolding program
stopped_at = refl

after_executing :
    on_update_computetask env "2024-01-01T00:00:00Z" task_data db
    ≡ ok (after (on_update_computetask env "2024-01-01T00:00:00Z" task_data db))
unfolding program
after_executing = refl

on_update_computetask-row_example :
    (t : ComputeTask) × (p : ComputePlan) × (get? task_key 1 db.tasks ≡ some t)
    × (get? task_key 1 (after (on_update_computetask env "2024-01-01T00:00:00Z" task_data db)).tasks
        ≡ some (record t {
          status = executing;
          start_date = date_after env t.start_date true "2024-01-01T00:00:00Z";
          end_date = date_after env t.end_date false "2024-01-01T00:00:00Z";
        }))
    × ((k : ℕ)
        → k ≢ 1
        → get? task_key k
            (after (on_update_computetask env "2024-01-01T00:00:00Z" task_data db)).tasks
          ≡ get? task_key k db.tasks)
    × (get? plan_key 7 (after (on_update_computetask env "2024-01-01T00:00:00Z" task_data db)).plans
        ≡ some p)
    × IsSettled p (after (on_update_computetask env "2024-01-01T00:00:00Z" task_data db)).tasks
on_update_computetask-row_example =
    on_update_computetask-row env "2024-01-01T00:00:00Z" task_data db
      (after (on_update_computetask env "2024-01-01T00:00:00Z" task_data db)) after_executing

after_output :
    create_computetask_output_asset "mychannel" output_data db
    ≡ ok (after (create_computetask_output_asset "mychannel" output_data db))
unfolding program
after_output = refl

create_computetask_output_asset-replay_example :
    (output : ComputeTaskOutput) × ((after
        (create_computetask_output_asset "mychannel" output_data db)).output_assets
      ≡ output_asset_row "mychannel" output_data output ∷ [])
    × (create_computetask_output_asset "mychannel" output_data
          (after (create_computetask_output_asset "mychannel" output_data db))
        ≡ err integrity_error)
create_computetask_output_asset-replay_example =
    create_computetask_output_asset-replay "mychannel" output_data db
      (after (create_computetask_output_asset "mychannel" output_data db)) after_output

after_performance :
    create_performance env "mychannel" performance_data db
    ≡ ok (after (create_performance env "mychannel" performance_data db))
unfolding program
after_performance = refl

after_step :
    create_profiling_step env 50 step_data db
    ≡ ok (after (create_profiling_step env 50 step_data db))
unfolding program
after_step = refl

abbrev built : FunctionData
built = record {
  key = 50;
  name = "train";
  owner = "org-1";
  status = function_ready;
  inputs = [];
  image = addressable_dict "http://org-1/image" "sum";
  creation_date = 1;
}

update_function-built :
    update_function env 50 built db ≡ ok (after (update_function env 50 built db))
unfolding program
update_function-built = refl
