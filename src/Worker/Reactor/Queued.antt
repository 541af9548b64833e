-- ===== src/Worker/Reactor/Queued.antt =====
-- When an event makes backend/substrapp/events/reactor.py queue a run of a task.
use substra_backend.Prelude.{
  ℕ, String, Bool, true, false, ◌<◌, str_eq, ◌≡◌, ◌∙◌, refl, ap, sym, Option, none, some, List, [],
  ◌∷◌, count, count-append, arith,
}
use substra_backend.TaskRouting.{get_existing_worker_queue}
use substra_backend.Worker.{OrcTask, Attempt, raised, returned, OrcClient}
use substra_backend.Worker.Runnable.{is_task_runnable}
use substra_backend.Worker.Queueing.{
  generated, CeleryMessage, Work, run_compute_task, remove_transient_outputs,
  delete_cp_pod_and_dirs, Engine, apply_async, queue_compute_task, queue_delete_cp_pod_and_dirs,
}
use substra_backend.Worker.Reactor.{
  EngineEventKind, waits_for_executor, creates_or_updates, get_deletable_task_outputs,
  handle_finished_task, clean_up, on_computetask_event,
}

abbrev pub is_run : CeleryMessage → Bool
is_run m = elim m.work [ run_compute_task _ _ ↦ true | _ ↦ false ]

abbrev pub num_runs : Engine → ℕ
num_runs s = count is_run s.messages

apply_async-runs :
    (work : Work) (s : Engine)
    → is_run (record { id = generated s.next_id; work = work }) ≡ false
    → num_runs (apply_async work s) ≡ num_runs s
apply_async-runs work s h =
    ground (
      arith,
      count-append is_run s.messages (record { id = generated s.next_id; work = work } ∷ []),
    )

module _ (client : OrcClient) (my : String) (debug : Bool) (task : OrcTask) where
  handle_finished_task-runs :
      (s after : Engine)
      → handle_finished_task client my task s ≡ returned after
      → num_runs after ≡ num_runs s
  unfolding handle_finished_task
  handle_finished_task-runs s after h = step (get_deletable_task_outputs client my task.inputs) refl
    where
      step :
          (r : Attempt (List (String × ℕ)))
          → get_deletable_task_outputs client my task.inputs ≡ r
          → num_runs after ≡ num_runs s
      step (raised e) q = absurd (ground arith)
      step (returned outputs) q =
          let same : apply_async (remove_transient_outputs outputs) s ≡ after = ground arith in
          ap num_runs (sym same) ∙ apply_async-runs (remove_transient_outputs outputs) s refl

  queue_delete-runs :
      (plan : ℕ) (s : Engine) → num_runs (queue_delete_cp_pod_and_dirs debug plan s) ≡ num_runs s
  unfolding queue_delete_cp_pod_and_dirs
  queue_delete-runs plan s = step debug (get_existing_worker_queue plan s.mappings) refl
    where
      step :
          (b : Bool) (o : Option ℕ)
          → get_existing_worker_queue plan s.mappings ≡ o
          → num_runs (queue_delete_cp_pod_and_dirs b plan s) ≡ num_runs s
      step true o q = refl
      step false none q = ground arith
      step false (some w) q =
          rw (q, queue_delete_cp_pod_and_dirs)
            (apply_async-runs (delete_cp_pod_and_dirs plan w) s refl)

  clean_up-runs :
      (s after : Engine)
      → clean_up client my debug task s ≡ returned after
      → num_runs after ≡ num_runs s
  unfolding clean_up
  clean_up-runs s after h =
      step (handle_finished_task client my task s) refl (handle_finished_task-runs s)
    where
      step :
          (r : Attempt Engine)
          → handle_finished_task client my task s ≡ r
          → ((mid : Engine)
              → handle_finished_task client my task s ≡ returned mid
              → num_runs mid ≡ num_runs s)
          → num_runs after ≡ num_runs s
      step (raised e) q ih = ground arith
      step (returned mid) q ih = ground (arith, ih mid, queue_delete-runs task.compute_plan_key mid)

abbrev is_returned_true : Attempt Bool → Bool
is_returned_true (raised e) = false
is_returned_true (returned b) = b

queue_compute_task-runs :
    (client : OrcClient) (n : ℕ) (task : OrcTask) (s after : Engine)
    → queue_compute_task client n task s ≡ returned after
    → num_runs s < num_runs after
    → is_task_runnable client task.key false ≡ returned true
unfolding queue_compute_task
queue_compute_task-runs client n task s after h more =
    step (is_task_runnable client task.key false) refl
  where
    step : (r : Attempt Bool) → is_task_runnable client task.key false ≡ r → r ≡ returned true
    step (raised e) q = ground arith
    step (returned true) q = refl
    step (returned false) q = ground arith

-- An event of a task makes the engine send a run only if the task waits for an executor, the event
-- creates or updates it, its worker is this organization, and the orchestrator gives the task and its
-- plan as runnable.
pub on_computetask_event-queues :
    (client : OrcClient) (my : String) (debug : Bool) (n : ℕ) (kind : EngineEventKind)
    (task : OrcTask) (s after : Engine)
    → on_computetask_event client my debug n kind task s ≡ returned after
    → num_runs s < num_runs after
    → (waits_for_executor task.status ≡ true)
      × (creates_or_updates kind ≡ true)
      × (str_eq task.worker my ≡ true)
      × (is_task_runnable client task.key false ≡ returned true)
unfolding on_computetask_event
on_computetask_event-queues client my debug n kind task s after h more =
    step (clean_up client my debug task s) refl (clean_up-runs client my debug task s)
  where
    step :
        (r : Attempt Engine)
        → clean_up client my debug task s ≡ r
        → ((mid : Engine)
            → clean_up client my debug task s ≡ returned mid
            → num_runs mid ≡ num_runs s)
        → (waits_for_executor task.status ≡ true)
          × (creates_or_updates kind ≡ true)
          × (str_eq task.worker my ≡ true)
          × (is_task_runnable client task.key false ≡ returned true)
    step (raised e) q ih = absurd (ground arith)
    step (returned mid) q ih =
        let same = ih mid q in
        let queued = queue_compute_task-runs client n task mid after in
        (ground arith, ground arith, ground arith, ground (arith, queued))
