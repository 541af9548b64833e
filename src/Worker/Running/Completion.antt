-- ===== src/Worker/Running/Completion.antt =====
-- How a run of a compute task ends: a task that Celery takes as done was reported as done, and what
-- the run made is removed.
use substra_backend.Prelude.{
  ℕ, Bool, true, false, ◌≡◌, ◌≢◌, refl, sym, ap, ◌∙◌, none, some, [], ◌∷◌, any, arith,
}
use substra_backend.Worker.{
  OrcTask, OrcPlan, action_canceled, Failure, no_space, returned, create_task_profiling,
  create_context, init_dirs, teardown_task_dirs, Effect, begins, updates_task, Statement, ◌next◌,
  catch, finally_run,
}
use substra_backend.Worker.Runnable.{
  is_task_status_runnable, is_runnable, raise_if_task_not_runnable, abort_task_if_not_runnable,
  start_task_if_not_started, mark_as_done,
}
use substra_backend.Worker.Effects.{
  next-returned, finally_run-any, finally_run-returned, catch-returned,
}
use substra_backend.Worker.Running.{
  Setting, perform, check_and_load, execute_and_save, clear_if_no_space, teardown, run_in_lock,
  run_in_dirs, run, ignore, compute_task,
}
use substra_backend.Worker.Running.Order.{marks_done}

abbrev pub tears_down : Effect → Bool
tears_down (begins teardown_task_dirs) = true
tears_down _ = false

module _ (s : Setting) (key : ℕ) where
  execute_and_save-returned :
      (execute_and_save s key).1 ≡ returned tt → any marks_done (execute_and_save s key).0 ≡ true
  unfolding execute_and_save ◌next◌ mark_as_done
  execute_and_save-returned h = ground arith

  run_in_lock-returned :
      (run_in_lock s key).1 ≡ returned tt → any marks_done (run_in_lock s key).0 ≡ true
  unfolding run_in_lock
  run_in_lock-returned h =
      let (_, saved, keep) = next-returned (check_and_load s key) (execute_and_save s key) h in
      keep marks_done (execute_and_save-returned saved)

  clear-raises : (e : Failure) → (clear_if_no_space s e).1 ≢ returned tt
  unfolding ◌next◌
  clear-raises no_space = ground arith
  clear-raises _ = ground arith

  run_in_dirs-returned :
      (run_in_dirs s key).1 ≡ returned tt → any marks_done (run_in_dirs s key).0 ≡ true
  unfolding run_in_dirs
  run_in_dirs-returned h =
      let body : Statement = perform s init_dirs next run_in_lock s key in
      let guarded : Statement = catch body (clear_if_no_space s) in
      let (_, torn, keep) =
        next-returned (catch (perform s create_context) (clear_if_no_space s))
          (finally_run guarded (teardown s)) h in
      let ended : guarded.1 ≡ returned tt = finally_run-returned guarded (teardown s) torn in
      let same : guarded ≡ body = catch-returned body (clear_if_no_space s) clear-raises ended in
      let (_, locked, keep_body) =
        next-returned (perform s init_dirs) (run_in_lock s key)
          (ap (λ (m : Statement). m.1) (sym same) ∙ ended) in
      let marked : any marks_done guarded.0 ≡ true =
        ap (λ (m : Statement). any marks_done m.0) same
        ∙ keep_body marks_done (run_in_lock-returned locked) in
      keep marks_done (finally_run-any guarded (teardown s) marks_done (rw marked refl))

  -- Once the context of the task is made, the removal of the directories of the task is begun, however
  -- the run goes on.
  pub run_in_dirs-tears_down :
      s.fails create_context ≡ none → any tears_down (run_in_dirs s key).0 ≡ true
  unfolding run_in_dirs ◌next◌
  run_in_dirs-tears_down made =
      let body : Statement = perform s init_dirs next run_in_lock s key in
      let guarded : Statement = catch body (clear_if_no_space s) in
      let torn = finally_run-any guarded (teardown s) tears_down (ground arith) in
      let context : catch (perform s create_context) (clear_if_no_space s)
          ≡ (begins create_context ∷ [], returned tt) =
        rw made refl in
      ap (λ (m : Statement). any tears_down (m next finally_run guarded (teardown s)).0) context
      ∙ torn

  -- A run that Celery takes as done has asked the orchestrator to mark the task as done.
  pub compute_task-marks_done :
      (compute_task s key).1 ≡ none → any marks_done (compute_task s key).0 ≡ true
  unfolding compute_task run ◌next◌ abort_task_if_not_runnable raise_if_task_not_runnable
      start_task_if_not_started
  compute_task-marks_done h = ground (arith, run_in_dirs-returned)

  -- Where the compute plan of a task is canceled or failed at the start, the task is canceled and
  -- nothing else is done, and Celery is told to ignore the run.
  pub compute_task-stopped_plan :
      (t : OrcTask) (plan : OrcPlan)
      → s.at_start.query_task key ≡ returned t
      → is_task_status_runnable t.status true ≡ true
      → s.at_start.query_compute_plan t.compute_plan_key ≡ returned plan
      → is_runnable plan ≡ false
      → s.at_start.update_task_status key action_canceled ≡ returned tt
      → compute_task s key
        ≡ (begins create_task_profiling ∷ updates_task key action_canceled ∷ [], some ignore)
  unfolding compute_task run ◌next◌ abort_task_if_not_runnable raise_if_task_not_runnable
  compute_task-stopped_plan t plan task_found may_start plan_found stopped canceled = ground arith
