-- ===== src/Worker/Queueing/Redelivery.antt =====
-- What `queue_compute_task` of backend/substrapp/tasks/tasks_compute_task.py does with a task that it
-- has queued before.
use substra_backend.Prelude.{
  ℕ, Bool, true, false, ◌≡◌, ◌≢◌, refl, List, [], ◌∷◌, ◌++◌, any, ok, arith, suc,
}
use substra_backend.TaskRouting.{ComputePlanWorkerMapping, acquire_worker_index}
use substra_backend.TaskRouting.Mappings.{acquire_worker_index-kept}
use substra_backend.Worker.{OrcTask, returned, OrcClient}
use substra_backend.Worker.Runnable.{is_task_runnable}
use substra_backend.Worker.Queueing.{
  run_compute_task, Engine, apply_async, is_known, queue_compute_task,
}

-- No message was sent with an id of its caller.
abbrev pub HasOnlyGenerated : Engine → Type 0
HasOnlyGenerated s = (key : ℕ) → is_known key s ≡ false

any-append_false :
    {A : Type 0} (p : A → Bool) (xs : List A) (x : A)
    → any p xs ≡ false
    → p x ≡ false
    → any p (xs ++ (x ∷ [])) ≡ false
any-append_false p [] x h h' = ground arith
any-append_false p (y ∷ ys) x h h' = ground (arith, any-append_false p ys x)

abbrev pub sent : OrcTask → (worker_index : ℕ) → List ComputePlanWorkerMapping → Engine → Engine
sent task w mappings s =
    apply_async (run_compute_task task.key w) (record s { mappings = mappings })

-- The first call for a task that may run.
queue_compute_task-sent :
    (client : OrcClient) (n : ℕ) (task : OrcTask) (s : Engine) (w : ℕ)
    (mappings : List ComputePlanWorkerMapping)
    → is_known task.key s ≡ false
    → is_task_runnable client task.key false ≡ returned true
    → acquire_worker_index n task.compute_plan_key s.mappings ≡ ok (w, mappings)
    → queue_compute_task client n task s ≡ returned (sent task w mappings s)
unfolding queue_compute_task
queue_compute_task-sent client n task s w mappings new may_run acquired = ground arith

-- A task that is queued, and whose event is delivered again while the orchestrator still gives it as
-- runnable, is sent a second time, to the same worker: the test on the id of the task finds no
-- message, since none is sent with that id.
pub queue_compute_task-redelivery :
    (client again : OrcClient) (n later : ℕ) (task : OrcTask) (s : Engine) (w : ℕ)
    (mappings : List ComputePlanWorkerMapping)
    → HasOnlyGenerated s
    → is_task_runnable client task.key false ≡ returned true
    → is_task_runnable again task.key false ≡ returned true
    → acquire_worker_index n task.compute_plan_key s.mappings ≡ ok (w, mappings)
    → (queue_compute_task client n task s ≡ returned (sent task w mappings s))
      × (queue_compute_task again later task (sent task w mappings s)
          ≡ returned (sent task w mappings (sent task w mappings s)))
queue_compute_task-redelivery client again n later task s w mappings only may_run may_again
      acquired =
    let plan = task.compute_plan_key in
    let other_plan : suc plan ≢ plan = ground arith in
    let (mapped, kept, others) =
      acquire_worker_index-kept n later plan (suc plan) s.mappings mappings w acquired other_plan in
    let new : is_known task.key (sent task w mappings s) ≡ false =
      any-append_false _ s.messages _ (only task.key) refl in
    (
      queue_compute_task-sent client n task s w mappings (only task.key) may_run acquired,
      queue_compute_task-sent again later task (sent task w mappings s) w mappings new may_again
          kept,
    )
