-- ===== src/Worker/Reactor/Deleting.antt =====
-- When an event makes backend/substrapp/events/reactor.py queue the deletion of the pod and the
-- directories of a compute plan.
use substra_backend.Prelude.{
  ℕ, String, Bool, true, false, ◌<◌, ◌≡◌, refl, ap, sym, ◌∙◌, List, [], ◌∷◌, count, count-append,
  is_some, arith, Result, ok, err,
}
use substra_backend.TaskRouting.{
  ComputePlanWorkerMapping, acquire_worker_index, get_existing_worker_queue,
}
use substra_backend.Worker.{OrcTask, Attempt, raised, returned, OrcClient}
use substra_backend.Worker.Queueing.{
  generated, CeleryMessage, Work, run_compute_task, remove_transient_outputs,
  delete_cp_pod_and_dirs, Engine, apply_async, queue_compute_task, queue_delete_cp_pod_and_dirs,
}
use substra_backend.Worker.Reactor.{
  EngineEventKind, is_finished, get_deletable_task_outputs, handle_finished_task, clean_up,
  on_computetask_event,
}

abbrev pub is_deletion : CeleryMessage → Bool
is_deletion m = elim m.work [ delete_cp_pod_and_dirs _ _ ↦ true | _ ↦ false ]

abbrev pub num_deletions : Engine → ℕ
num_deletions s = count is_deletion s.messages

apply_async-deletions :
    (work : Work) (s : Engine)
    → is_deletion (record { id = generated s.next_id; work = work }) ≡ false
    → num_deletions (apply_async work s) ≡ num_deletions s
apply_async-deletions work s h = ground (
  arith,
  count-append is_deletion s.messages (record { id = generated s.next_id; work = work } ∷ []),
)

module _ (client : OrcClient) (n : ℕ) (task : OrcTask) where
  queue_compute_task-deletions :
      (s after : Engine)
      → queue_compute_task client n task s ≡ returned after
      → num_deletions after ≡ num_deletions s
  unfolding queue_compute_task
  queue_compute_task-deletions s after h =
      step (acquire_worker_index n task.compute_plan_key s.mappings) refl
    where
      step :
          (r : Result (ℕ × List ComputePlanWorkerMapping))
          → acquire_worker_index n task.compute_plan_key s.mappings ≡ r
          → num_deletions after ≡ num_deletions s
      step (err e) q = ground arith
      step (ok (w, mappings)) q = ground (
        arith,
        apply_async-deletions (run_compute_task task.key w) (record s { mappings = mappings }) refl,
      )

module _ (client : OrcClient) (my : String) (debug : Bool) (task : OrcTask) where
  handle_finished_task-deletions :
      (s after : Engine)
      → handle_finished_task client my task s ≡ returned after
      → (num_deletions after ≡ num_deletions s) × (after.mappings ≡ s.mappings)
  unfolding handle_finished_task
  handle_finished_task-deletions s after h =
      step (get_deletable_task_outputs client my task.inputs) refl
    where
      step :
          (r : Attempt (List (String × ℕ)))
          → get_deletable_task_outputs client my task.inputs ≡ r
          → (num_deletions after ≡ num_deletions s) × (after.mappings ≡ s.mappings)
      step (raised e) q = absurd (ground arith)
      step (returned outputs) q =
          let same : apply_async (remove_transient_outputs outputs) s ≡ after = ground arith in
          (
            ap num_deletions (sym same)
                ∙ apply_async-deletions (remove_transient_outputs outputs) s refl,
            ap (λ (t : Engine). t.mappings) (sym same),
          )

  queue_delete-deletions :
      (plan : ℕ) (s : Engine)
      → num_deletions s < num_deletions (queue_delete_cp_pod_and_dirs debug plan s)
      → (debug ≡ false) × (is_some (get_existing_worker_queue plan s.mappings) ≡ true)
  unfolding queue_delete_cp_pod_and_dirs
  queue_delete-deletions plan s more = (ground arith, ground arith)

  abbrev MayDelete : Engine → Type 0
  MayDelete s =
      (is_finished task.status ≡ true)
      × (client.is_compute_plan_running task.compute_plan_key ≡ returned false)
      × (debug ≡ false)
      × (is_some (get_existing_worker_queue task.compute_plan_key s.mappings) ≡ true)

  clean_up-deletes :
      (s after : Engine)
      → clean_up client my debug task s ≡ returned after
      → num_deletions s < num_deletions after
      → MayDelete s
  unfolding clean_up
  clean_up-deletes s after h more =
      step (handle_finished_task client my task s) refl (handle_finished_task-deletions s)
        (client.is_compute_plan_running task.compute_plan_key) refl
    where
      step :
          (r : Attempt Engine)
          → handle_finished_task client my task s ≡ r
          → ((mid : Engine)
              → handle_finished_task client my task s ≡ returned mid
              → (num_deletions mid ≡ num_deletions s) × (mid.mappings ≡ s.mappings))
          → (running : Attempt Bool)
          → client.is_compute_plan_running task.compute_plan_key ≡ running
          → MayDelete s
      step (raised e) q ih running a = absurd (ground arith)
      step (returned mid) q ih (raised e) a = absurd (ground (arith, ih mid))
      step (returned mid) q ih (returned true) a = absurd (ground (arith, ih mid q))
      step (returned mid) q ih (returned false) a =
          let (same, mappings) = ih mid q in
          let finished : is_finished task.status ≡ true = ground arith in
          let e : queue_delete_cp_pod_and_dirs debug task.compute_plan_key mid ≡ after =
            ground arith in
          let (kept, mapped) = queue_delete-deletions task.compute_plan_key mid (ground arith) in
          (finished, a, kept, rw mappings at mapped)

-- An event of a task makes the engine send the deletion of the pod and of the directories of a plan only
-- if the task is finished, the orchestrator answers that its plan is not running, the pods are not kept
-- for debugging, and the plan has a worker.
pub on_computetask_event-deletes :
    (client : OrcClient) (my : String) (debug : Bool) (n : ℕ) (kind : EngineEventKind)
    (task : OrcTask) (s after : Engine)
    → on_computetask_event client my debug n kind task s ≡ returned after
    → num_deletions s < num_deletions after
    → (is_finished task.status ≡ true)
      × (client.is_compute_plan_running task.compute_plan_key ≡ returned false)
      × (debug ≡ false)
      × (is_some (get_existing_worker_queue task.compute_plan_key s.mappings) ≡ true)
unfolding on_computetask_event
on_computetask_event-deletes client my debug n kind task s after h more =
    step (clean_up client my debug task s) refl (clean_up-deletes client my debug task s)
  where
    step :
        (r : Attempt Engine)
        → clean_up client my debug task s ≡ r
        → ((mid : Engine)
            → clean_up client my debug task s ≡ returned mid
            → num_deletions s < num_deletions mid
            → MayDelete client my debug task s)
        → MayDelete client my debug task s
    step (raised e) q ih = absurd (ground arith)
    step (returned mid) q ih =
        let queued = queue_compute_task-deletions client n task mid after in
        ih mid q (ground (arith, queued))
