-- ===== src/Worker/Running/Order.antt =====
-- What a run of a compute task has done before it executes the task, and before it marks it as done.
use substra_backend.Prelude.{ℕ, Bool, true, false, ◌&&◌, ◌≡◌, refl, inl, inr, none, any, arith}
use substra_backend.Worker.{
  OrcPlan, action_done, action_canceled, Failure, no_space, Attempt, raised, returned, OrcClient,
  Step, create_context, init_dirs, lock_compute_plan, lock_asset_buffer, add_assets_to_buffer,
  add_assets_to_taskdir, prepare_chainkeys, profile_inputs, download_function, profile_download,
  execute_compute_task, save_outputs, clear_assets_buffer, teardown_task_dirs, Effect, begins,
  updates_task, Statement, pure, ◌then_run◌, ◌next◌, catch,
}
use substra_backend.Worker.Runnable.{
  is_task_status_runnable, is_runnable, raise_if_task_not_runnable, abort_task_if_not_runnable,
  start_task_if_not_started, mark_as_done,
}
use substra_backend.Worker.Effects.{
  any-then_run, any-catch, any-finally_run, any-next, IsQuiet, next-IsQuiet, if-IsQuiet,
}
use substra_backend.Worker.Running.{
  Setting, perform, perform_retried, check_and_load, execute_and_save, clear_if_no_space, teardown,
  load_function, load_inputs, run_in_lock, run_in_dirs, run,
}

abbrev pub executes : Effect → Bool
executes (begins execute_compute_task) = true
executes _ = false

abbrev pub marks_done : Effect → Bool
marks_done (updates_task _ action_done) = true
marks_done _ = false

-- The steps between the check under the lock and the execution.
abbrev loads : Step → Bool
loads lock_compute_plan = true
loads (lock_asset_buffer _) = true
loads add_assets_to_buffer = true
loads add_assets_to_taskdir = true
loads prepare_chainkeys = true
loads profile_inputs = true
loads download_function = true
loads profile_download = true
loads _ = false

executes-loads : (step : Step) → loads step ≡ true → executes (begins step) ≡ false
executes-loads execute_compute_task h = ground arith
executes-loads _ h = refl

-- The status of the task and the plan, as the orchestrator gives them, let the task run.
abbrev pub plan_of : Attempt OrcPlan → Bool
plan_of (raised e) = false
plan_of (returned plan) = is_runnable plan

abbrev pub may_run : OrcClient → ℕ → Bool
may_run client key = elim (client.query_task key) [
  | raised e ↦ false
  | returned t ↦
      is_task_status_runnable t.status true
      && plan_of (client.query_compute_plan t.compute_plan_key)
]

module _ (s : Setting) (key : ℕ) where
  check_and_load-may_run : (check_and_load s key).1 ≡ returned tt → may_run s.in_lock key ≡ true
  unfolding check_and_load load_inputs load_function ◌next◌ abort_task_if_not_runnable
      raise_if_task_not_runnable
  check_and_load-may_run h = ground arith

  abort-IsQuiet :
      (p : Effect → Bool)
      → p (updates_task key action_canceled) ≡ false
      → IsQuiet p (abort_task_if_not_runnable s.in_lock key true none)
  unfolding abort_task_if_not_runnable raise_if_task_not_runnable
  abort-IsQuiet p canceled = record { none_passes = ground arith }

  -- An effect that none of these steps has is not one of what comes before the execution.
  check_and_load-IsQuiet :
      (p : Effect → Bool)
      → p (updates_task key action_canceled) ≡ false
      → ((step : Step) → loads step ≡ true → p (begins step) ≡ false)
      → IsQuiet p (check_and_load s key)
  unfolding check_and_load load_inputs load_function
  check_and_load-IsQuiet p canceled quiet =
      let step_IsQuiet : (step : Step) → loads step ≡ true → IsQuiet p (perform s step) =
        λ step h. record { none_passes = ground (arith, quiet step h) } in
      let retried_IsQuiet : (step : Step) → loads step ≡ true → IsQuiet p (perform_retried s step) =
        λ step h. record { none_passes = ground (arith, quiet step h) } in
      let nothing : IsQuiet p (pure tt) = record { none_passes = refl } in
      let inputs =
        next-IsQuiet
          (next-IsQuiet
            (next-IsQuiet
              (next-IsQuiet (step_IsQuiet (lock_asset_buffer "global") refl)
                (step_IsQuiet add_assets_to_buffer refl))
              (step_IsQuiet add_assets_to_taskdir refl))
            (if-IsQuiet s.has_chainkeys (step_IsQuiet prepare_chainkeys refl) nothing))
          (retried_IsQuiet profile_inputs refl) in
      let downloaded =
        if-IsQuiet s.foreign_function
          (next-IsQuiet (step_IsQuiet download_function refl)
            (retried_IsQuiet profile_download refl))
          nothing in
      next-IsQuiet
        (next-IsQuiet
          (next-IsQuiet (step_IsQuiet lock_compute_plan refl) (abort-IsQuiet p canceled)) inputs)
        downloaded

  execute_and_save-marks_done :
      any marks_done (execute_and_save s key).0 ≡ true
      → (s.fails execute_compute_task ≡ none) × (s.fails save_outputs ≡ none)
  unfolding execute_and_save ◌next◌ mark_as_done
  execute_and_save-marks_done h = (ground arith, ground arith)

  run_in_lock-executes : any executes (run_in_lock s key).0 ≡ true → may_run s.in_lock key ≡ true
  unfolding run_in_lock
  run_in_lock-executes h =
      elim (any-next executes (check_and_load s key) (execute_and_save s key) h) [
        | inl early ↦
            absurd
              (ground (arith, (check_and_load-IsQuiet executes refl executes-loads).none_passes))
        | inr (loaded, _) ↦ check_and_load-may_run loaded
      ]

  run_in_lock-marks_done :
      any marks_done (run_in_lock s key).0 ≡ true
      → (may_run s.in_lock key ≡ true)
        × (s.fails execute_compute_task ≡ none)
        × (s.fails save_outputs ≡ none)
  unfolding run_in_lock
  run_in_lock-marks_done h =
      elim (any-next marks_done (check_and_load s key) (execute_and_save s key) h) [
        | inl early ↦
            absurd (
              ground (arith, (check_and_load-IsQuiet marks_done refl (λ step q. refl)).none_passes))
        | inr (loaded, last) ↦
            let (executed, saved) = execute_and_save-marks_done last in
            (check_and_load-may_run loaded, executed, saved)
      ]

  clear-any :
      (p : Effect → Bool) (e : Failure)
      → p (begins (lock_asset_buffer "")) ≡ false
      → p (begins clear_assets_buffer) ≡ false
      → any p (clear_if_no_space s e).0 ≡ false
  unfolding ◌next◌
  clear-any p no_space lock clear = ground arith
  clear-any p _ lock clear = ground arith

  teardown-any :
      (p : Effect → Bool) → p (begins teardown_task_dirs) ≡ false → any p (teardown s).0 ≡ false
  teardown-any p h = ground arith

  -- An effect that none of the steps around the body has is one of the body.
  run_in_dirs-any :
      (p : Effect → Bool)
      → p (begins create_context) ≡ false
      → p (begins init_dirs) ≡ false
      → p (begins (lock_asset_buffer "")) ≡ false
      → p (begins clear_assets_buffer) ≡ false
      → p (begins teardown_task_dirs) ≡ false
      → any p (run_in_dirs s key).0 ≡ true
      → any p (run_in_lock s key).0 ≡ true
  unfolding run_in_dirs ◌next◌
  run_in_dirs-any p context dirs lock clear end_ h =
      let body : Statement = perform s init_dirs then_run (λ _. run_in_lock s key) in
      elim (any-then_run p (catch (perform s create_context) (clear_if_no_space s)) _ h) [
        | inl first ↦ elim (any-catch p (perform s create_context) (clear_if_no_space s) first) [
          | inl made ↦ absurd (ground arith)
          | inr (e, cleared) ↦ absurd (ground (arith, clear-any p e lock clear))
        ]
        | inr (_, _, rest) ↦
            elim (any-finally_run p (catch body (clear_if_no_space s)) (teardown s) rest) [
              | inr torn ↦ absurd (ground (arith, teardown-any p end_))
              | inl inside ↦ elim (any-catch p body (clear_if_no_space s) inside) [
                | inr (e, cleared) ↦ absurd (ground (arith, clear-any p e lock clear))
                | inl done_ ↦
                    elim (any-then_run p (perform s init_dirs) (λ _. run_in_lock s key) done_) [
                      | inl made ↦ absurd (ground arith)
                      | inr (_, _, last) ↦ last
                    ]
              ]
            ]
      ]

  -- A run begins to execute its task only if the orchestrator gave, at the start and once more under
  -- the lock of the compute plan, a task that waits for an executor or is executing, and a compute plan
  -- that is neither canceled nor failed.
  pub run-executes :
      any executes (run s key).0 ≡ true
      → (may_run s.at_start key ≡ true) × (may_run s.in_lock key ≡ true)
  unfolding run ◌next◌ abort_task_if_not_runnable raise_if_task_not_runnable
      start_task_if_not_started
  run-executes h =
      ground (arith, run_in_dirs-any executes refl refl refl refl refl, run_in_lock-executes)

  -- A run reports its task as done only if the task and its compute plan could run, at the start and
  -- under the lock, and neither its execution nor the saving of its outputs raised.
  pub run-marks_done :
      any marks_done (run s key).0 ≡ true
      → (may_run s.at_start key ≡ true)
        × (may_run s.in_lock key ≡ true)
        × (s.fails execute_compute_task ≡ none)
        × (s.fails save_outputs ≡ none)
  unfolding run ◌next◌ abort_task_if_not_runnable raise_if_task_not_runnable
      start_task_if_not_started
  run-marks_done h =
      ground (arith, run_in_dirs-any marks_done refl refl refl refl refl, run_in_lock-marks_done)
