-- ===== src/Worker/Running.antt =====
-- `_run` and `compute_task` of backend/substrapp/tasks/tasks_compute_task.py.
pub mod Order
pub mod Completion
use substra_backend.Prelude.{
  ℕ, Bool, true, false, not, Option, none, some, List, [], ◌∷◌, if◌then◌else◌,
}
use substra_backend.Worker.{
  OrcTask, Failure, task_non_runnable, plan_non_runnable, no_space, file_not_found,
  registry_precondition_failed, celery_no_retry, celery_retry, Attempt, raised, returned, OrcClient,
  Step, create_task_profiling, create_context, init_dirs, lock_compute_plan, lock_asset_buffer,
  add_assets_to_buffer, add_assets_to_taskdir, prepare_chainkeys, profile_inputs, download_function,
  profile_download, execute_compute_task, profile_execution, save_outputs, profile_outputs,
  clear_assets_buffer, teardown_task_dirs, Effect, begins, Run, Statement, pure, raise, ◌then_run◌,
  ◌next◌, catch, finally_run,
}
use substra_backend.Worker.Runnable.{
  abort_task_if_not_runnable, start_task_if_not_started, mark_as_done,
}

-- What a run meets: what each of its steps raises, if it does; the answers of the orchestrator at
-- the start, at the check under the lock of the compute plan, and at the end; whether the function is
-- of another organization; and whether the plan has chain keys. Leaving a lock raises nothing.
pub record Setting : Type 0 where
  pub fails : Step → Option Failure
  pub at_start : OrcClient
  pub in_lock : OrcClient
  pub at_end : OrcClient
  pub foreign_function : Bool
  pub has_chainkeys : Bool

module _ (s : Setting) where
  abbrev pub perform : Step → Statement
  perform step = (begins step ∷ [], elim (s.fails step) [ none ↦ returned tt | some e ↦ raised e ])

  -- A profiling step, under `@retry()`: after five attempts that raise, the exception is dropped and the
  -- step returns.
  abbrev pub perform_retried : Step → Statement
  perform_retried step = (begins step ∷ [], returned tt)

  -- From `add_task_assets_to_buffer` to the profiling event of the inputs.
  unfoldable pub load_inputs : Statement
  load_inputs =
      perform (lock_asset_buffer "global")
      next perform add_assets_to_buffer
      next perform add_assets_to_taskdir
      next (if s.has_chainkeys then perform prepare_chainkeys else pure tt)
      next perform_retried profile_inputs

  unfoldable pub load_function : Statement
  load_function =
      if s.foreign_function
      then perform download_function next perform_retried profile_download
      else pure tt

  -- What comes before the execution of the task, from `acquire_compute_plan_lock` on.
  unfoldable pub check_and_load : ℕ → Statement
  check_and_load key =
      perform lock_compute_plan
      next abort_task_if_not_runnable s.in_lock key true none
      next load_inputs
      next load_function

  -- The execution, and what comes after it.
  unfoldable pub execute_and_save : ℕ → Statement
  execute_and_save key =
      perform execute_compute_task
      next perform_retried profile_execution
      next perform save_outputs
      next perform_retried profile_outputs
      next mark_as_done s.at_end key

  unfoldable pub run_in_lock : ℕ → Statement
  run_in_lock key = check_and_load key next execute_and_save key

  -- except OSError: the buffer is cleared where no space is left; raise
  abbrev pub clear_if_no_space : Failure → Statement
  clear_if_no_space no_space =
      perform (lock_asset_buffer "") next perform clear_assets_buffer next raise no_space
  clear_if_no_space e = raise e

  abbrev pub ignore_missing : Failure → Statement
  ignore_missing file_not_found = pure tt
  ignore_missing e = raise e

  abbrev pub teardown : Statement
  teardown = catch (perform teardown_task_dirs) ignore_missing

  -- The try statement of `_run`: `dirs` is set once the context is made.
  unfoldable pub run_in_dirs : ℕ → Statement
  run_in_dirs key =
      catch (perform create_context) clear_if_no_space
      next finally_run (catch (perform init_dirs next run_in_lock key) clear_if_no_space) teardown

  unfoldable pub run : ℕ → Statement
  run key =
      perform_retried create_task_profiling
      next (([], s.at_start.query_task key) then_run (λ t.
          abort_task_if_not_runnable s.at_start key true (some t)
          next start_task_if_not_started s.at_start t
          next run_in_dirs key))

-- What Celery is told of a run that does not return.
pub data Rejection : Type 0 where
  ignore : Rejection
  retry : Rejection
  no_retry : Rejection

abbrev pub rejection : Failure → Rejection
rejection (task_non_runnable _) = ignore
rejection (plan_non_runnable _ _) = ignore
rejection registry_precondition_failed = retry
rejection celery_no_retry = no_retry
rejection celery_retry = retry
rejection _ = retry

abbrev pub outcome : Attempt {0} Unit → Option Rejection
outcome (returned _) = none
outcome (raised e) = some (rejection e)

unfoldable pub compute_task : Setting → ℕ → List Effect × Option Rejection
compute_task s key = ((run s key).0, outcome (run s key).1)
