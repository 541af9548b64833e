-- ===== src/Worker/Queueing.antt =====
-- The messages that the compute engine sends to Celery: `queue_compute_task` of
-- backend/substrapp/tasks/tasks_compute_task.py and `queue_delete_cp_pod_and_dirs_and_optionally_images`
-- of backend/substrapp/tasks/tasks_compute_plan.py.
pub mod Redelivery
use substra_backend.Prelude.{
  ℕ, String, Bool, true, false, ◌+◌, ◌==◌, Option, none, some, List, [], ◌∷◌, ◌++◌, any,
  if◌then◌else◌, Result, ok, err,
}
use substra_backend.TaskRouting.{
  ComputePlanWorkerMapping, acquire_worker_index, get_existing_worker_queue,
}
use substra_backend.Worker.{OrcTask, Failure, other_error, Attempt, raised, returned, OrcClient}
use substra_backend.Worker.Runnable.{is_task_runnable}

-- The id of a message: one that Celery makes, or one that the caller gives.
pub data CeleryId : Type 0 where
  generated : ℕ → CeleryId
  given : (key : ℕ) → CeleryId

pub data Work : Type 0 where
  run_compute_task : (key worker_index : ℕ) → Work
  delete_cp_pod_and_dirs : (compute_plan_key worker_index : ℕ) → Work
  remove_transient_outputs : List (String × ℕ) → Work
  remove_model_from_buffers : ℕ → Work
  remove_model_from_db : ℕ → Work
  build_and_save_image : ℕ → Work

pub record CeleryMessage : Type 0 where
  pub id : CeleryId
  pub work : Work

-- The mappings of the plans, and every message that was sent.
pub record Engine : Type 0 where
  pub mappings : List ComputePlanWorkerMapping
  pub messages : List CeleryMessage
  -- the next id that Celery makes
  pub next_id : ℕ

-- apply_async without a task_id
abbrev pub apply_async : Work → Engine → Engine
apply_async work s = record s {
  messages = s.messages ++ (record { id = generated s.next_id; work = work } ∷ []);
  next_id = s.next_id + 1;
}

abbrev is_given : ℕ → CeleryMessage → Bool
is_given key m = elim m.id [ generated _ ↦ false | given k ↦ k == key ]

-- AsyncResult(key).state != "PENDING": a message with this id is known
abbrev pub is_known : ℕ → Engine → Bool
is_known key s = any (is_given key) s.messages

unfoldable pub queue_compute_task :
    OrcClient → (num_workers : ℕ) → OrcTask → Engine → Attempt Engine
queue_compute_task client num_workers task s =
    if is_known task.key s then returned s else elim (is_task_runnable client task.key false) [
      | raised e ↦ raised e
      | returned may_run ↦
          if may_run
          then elim (acquire_worker_index num_workers task.compute_plan_key s.mappings) [
            | err _ ↦ raised other_error
            | ok (worker_index, mappings) ↦ returned (
                apply_async (run_compute_task task.key worker_index)
                  (record s { mappings = mappings }))
          ]
          else returned s
    ]

unfoldable pub queue_delete_cp_pod_and_dirs :
    (debug_keep_pod_and_dirs : Bool) (compute_plan_key : ℕ) → Engine → Engine
queue_delete_cp_pod_and_dirs debug_keep_pod_and_dirs compute_plan_key s =
    if debug_keep_pod_and_dirs
    then s
    else elim (get_existing_worker_queue compute_plan_key s.mappings) [
      | none ↦ s
      | some worker_index ↦ apply_async (delete_cp_pod_and_dirs compute_plan_key worker_index) s
    ]
