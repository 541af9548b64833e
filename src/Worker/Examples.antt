-- ===== src/Worker/Examples.antt =====
-- Runs of a compute task at concrete settings.
use substra_backend.Prelude.{ℕ, true, false, ◌≡◌, refl, Option, none, some, [], any}
use substra_backend.Worker.{
  OrcTask, OrcPlan, status_waiting_for_executor_slot, returned, OrcClient, execute_compute_task,
  save_outputs, ◌next◌,
}
use substra_backend.Worker.Runnable.{
  raise_if_task_not_runnable, abort_task_if_not_runnable, start_task_if_not_started, mark_as_done,
}
use substra_backend.Worker.Running.{
  Setting, load_inputs, load_function, check_and_load, execute_and_save, run_in_lock, run_in_dirs,
  run, compute_task,
}
use substra_backend.Worker.Running.Order.{marks_done, may_run, run-executes, run-marks_done}
use substra_backend.Worker.Running.Completion.{compute_task-marks_done}

abbrev task : OrcTask
task = record {
  key = 1;
  compute_plan_key = 2;
  status = status_waiting_for_executor_slot;
  worker = "org";
  inputs = [];
  outputs = [];
}

abbrev plan : Option ℕ → OrcPlan
plan date = record { key = 2; cancelation_date = date; failure_date = none }

abbrev client : Option ℕ → OrcClient
client date = record {
  query_task = λ _. returned task;
  query_compute_plan = λ _. returned (plan date);
  is_compute_plan_running = λ _. returned true;
  update_task_status = λ _ _. returned tt;
}

-- Every step works, and the plan is canceled at the start if a date is given.
abbrev setting : Option ℕ → Setting
setting date = record {
  fails = λ _. none;
  at_start = client date;
  in_lock = client none;
  at_end = client none;
  foreign_function = true;
  has_chainkeys = false;
}

abbrev canceled_at_3 : Option ℕ
canceled_at_3 = some 3

run-executes_example : (may_run (client none) 1 ≡ true) × (may_run (client none) 1 ≡ true)
unfolding run run_in_dirs run_in_lock check_and_load load_inputs load_function execute_and_save
    ◌next◌ abort_task_if_not_runnable raise_if_task_not_runnable start_task_if_not_started
    mark_as_done
run-executes_example = run-executes (setting none) 1 refl

run-marks_done_example :
    (may_run (client none) 1 ≡ true)
    × (may_run (client none) 1 ≡ true)
    × ((setting none).fails execute_compute_task ≡ none)
    × ((setting none).fails save_outputs ≡ none)
unfolding run run_in_dirs run_in_lock check_and_load load_inputs load_function execute_and_save
    ◌next◌ abort_task_if_not_runnable raise_if_task_not_runnable start_task_if_not_started
    mark_as_done
run-marks_done_example = run-marks_done (setting none) 1 refl

compute_task-marks_done_example : any marks_done (compute_task (setting none) 1).0 ≡ true
unfolding compute_task run run_in_dirs run_in_lock check_and_load load_inputs load_function
    execute_and_save ◌next◌ abort_task_if_not_runnable raise_if_task_not_runnable
    start_task_if_not_started mark_as_done
compute_task-marks_done_example = compute_task-marks_done (setting none) 1 refl
