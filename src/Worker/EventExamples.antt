-- ===== src/Worker/EventExamples.antt =====
-- Events of tasks at concrete states of the engine.
use substra_backend.Prelude.{
  ℕ, true, false, ◌==◌, ◌≡◌, refl, is_some, none, some, [], ◌∷◌, any, str_eq, if◌then◌else◌, arith,
}
use substra_backend.TaskRouting.{
  ComputePlanWorkerMapping, get_workers_with_fewest_running_cps, save_mapping, acquire_worker_index,
  get_existing_worker_queue,
}
use substra_backend.Worker.{
  OrcTaskStatus, OrcTask, status_waiting_for_executor_slot, status_done, returned, OrcClient,
}
use substra_backend.Worker.Runnable.{raise_if_task_not_runnable, is_task_runnable}
use substra_backend.Worker.Queueing.{
  Engine, apply_async, queue_compute_task, queue_delete_cp_pod_and_dirs, remove_transient_outputs,
  delete_cp_pod_and_dirs,
}
use substra_backend.Worker.Queueing.Redelivery.{
  HasOnlyGenerated, sent, queue_compute_task-redelivery,
}
use substra_backend.Worker.Reactor.{
  is_finished, handle_finished_task, event_asset_updated, waits_for_executor, creates_or_updates,
  get_deletable_task_outputs, clean_up, on_computetask_event,
}
use substra_backend.Worker.Reactor.Outputs.{is_output, lets_go, get_deletable_task_outputs-lets_go}
use substra_backend.Worker.Reactor.Queued.{on_computetask_event-queues}
use substra_backend.Worker.Reactor.Deleting.{on_computetask_event-deletes}

-- A task whose input is the output "model" of task 3, which is transient.
abbrev task : OrcTaskStatus → OrcTask
task status = record {
  key = 1;
  compute_plan_key = 2;
  status = status;
  worker = "org";
  inputs =
      record {
        identifier = "shared";
        asset_key = none;
        parent_task_key = some 3;
        parent_task_output_identifier = some "model";
      }
      ∷ [];
  outputs = [];
}

abbrev parent : OrcTask
parent = record {
  key = 3;
  compute_plan_key = 2;
  status = status_done;
  worker = "org";
  inputs = [];
  outputs = ("model", true) ∷ [];
}

abbrev task_of : ℕ → OrcTask
task_of key = if key == 3 then parent else task status_waiting_for_executor_slot

abbrev client : OrcClient
client = record {
  query_task = λ key. returned (task_of key);
  query_compute_plan =
      λ key. returned (record { key = key; cancelation_date = none; failure_date = none });
  is_compute_plan_running = λ _. returned false;
  update_task_status = λ _ _. returned tt;
}

abbrev row : ComputePlanWorkerMapping
row = record { compute_plan_key = 2; worker_index = 0; release_date = none }

abbrev idle : Engine
idle = record { mappings = []; messages = []; next_id = 7 }

abbrev mapped : Engine
mapped = record { mappings = row ∷ []; messages = []; next_id = 7 }

idle-HasOnlyGenerated : HasOnlyGenerated idle
idle-HasOnlyGenerated key = refl

queue_compute_task-redelivery_example :
    (queue_compute_task client 1 (task status_waiting_for_executor_slot) idle
      ≡ returned (sent (task status_waiting_for_executor_slot) 0 (row ∷ []) idle))
    × (queue_compute_task client 1
          (task status_waiting_for_executor_slot)
          (sent (task status_waiting_for_executor_slot) 0 (row ∷ []) idle)
        ≡ returned (
            sent
              (task status_waiting_for_executor_slot)
              0
              (row ∷ [])
              (sent (task status_waiting_for_executor_slot) 0 (row ∷ []) idle)))
unfolding is_task_runnable raise_if_task_not_runnable acquire_worker_index
    get_workers_with_fewest_running_cps save_mapping
queue_compute_task-redelivery_example =
    queue_compute_task-redelivery client client 1 1 (task status_waiting_for_executor_slot) idle 0
      (row ∷ []) idle-HasOnlyGenerated refl refl refl

get_deletable_task_outputs-lets_go_example :
    any (is_output "model" 3) (("model", 3) ∷ [])
    ≡ any (lets_go client "org" "model" 3) (task status_done).inputs
unfolding get_deletable_task_outputs
get_deletable_task_outputs-lets_go_example =
    get_deletable_task_outputs-lets_go client "org" (task status_done).inputs (("model", 3) ∷ [])
      "model" 3 refl

on_computetask_event-queues_example :
    (waits_for_executor status_waiting_for_executor_slot ≡ true)
    × (creates_or_updates event_asset_updated ≡ true)
    × (str_eq "org" "org" ≡ true)
    × (is_task_runnable client 1 false ≡ returned true)
unfolding on_computetask_event clean_up queue_compute_task is_task_runnable
    raise_if_task_not_runnable acquire_worker_index get_workers_with_fewest_running_cps save_mapping
on_computetask_event-queues_example =
    on_computetask_event-queues client "org" false 1 event_asset_updated
      (task status_waiting_for_executor_slot) idle
      (sent (task status_waiting_for_executor_slot) 0 (row ∷ []) idle) refl (ground arith)

abbrev cleaned : Engine
cleaned =
    apply_async (delete_cp_pod_and_dirs 2 0)
      (apply_async (remove_transient_outputs (("model", 3) ∷ [])) mapped)

on_computetask_event-deletes_example :
    (is_finished status_done ≡ true)
    × (client.is_compute_plan_running 2 ≡ returned false)
    × (false ≡ false)
    × (is_some (get_existing_worker_queue 2 (row ∷ [])) ≡ true)
unfolding on_computetask_event clean_up handle_finished_task get_deletable_task_outputs
    queue_delete_cp_pod_and_dirs get_existing_worker_queue
on_computetask_event-deletes_example =
    on_computetask_event-deletes client "org" false 1 event_asset_updated (task status_done) mapped
      cleaned refl (ground arith)
