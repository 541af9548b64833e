-- ===== src/ComputePlan/Examples.antt =====
-- Concrete plans and tasks, tests of backend/api/models/computeplan.py, and the theorems at inputs.
use substra_backend.Prelude.{
  ℕ, ◌≡◌, refl, Option, none, some, List, [], ◌∷◌, false, ◌||◌, ◌&&◌, not, any, is_none,
  if◌then◌else◌,
}
use substra_backend.Models.{
  Date, ComputeTask, ComputePlan, TaskStatus, waiting_for_builder_slot, executing, done, failed,
  plan_created, plan_doing, plan_failed, is_failed, is_canceled,
}
use substra_backend.ComputePlan.{
  compute_tasks, get_task_stats, update_status, update_end_date, first_ended, last_ended,
  add_failed_task,
}
use substra_backend.ComputePlan.Ended.{IsFirst, IsLast}
use substra_backend.ComputePlan.Status.{
  expected_status, update_status-expected, failed_key, is_plan_failed,
}
use substra_backend.ComputePlan.FailedTask.{failed_tasks, update_status-failed_task}
use substra_backend.ComputePlan.EndDate.{
  update_end_date-latest, update_end_date-update_end_date, end_date_or,
}

abbrev task : ℕ → TaskStatus → Option Date → ComputeTask
task key status end_date = record {
  key = key;
  function = 50;
  owner = "org-1";
  compute_plan = 7;
  rank = 0;
  status = status;
  worker = "org-1";
  creation_date = 1;
  start_date = some 2;
  end_date = end_date;
  error_type = none;
  tag = "";
  logs_address = none;
  logs_checksum = none;
  logs_owner = none;
  channel = "mychannel";
}

abbrev plan : ComputePlan
plan = record {
  key = 7;
  owner = "org-1";
  status = plan_created;
  tag = "";
  name = "plan";
  creator = 1;
  creation_date = 1;
  cancelation_date = none;
  start_date = none;
  end_date = none;
  failed_task_key = none;
  channel = "mychannel";
}

-- Two tasks failed, the second of them first.
abbrev tasks : List ComputeTask
tasks = task 1 done (some 5) ∷ task 2 failed (some 9) ∷ task 3 failed (some 8) ∷ []

program : Unit {0}
unfolding update_status update_end_date compute_tasks get_task_stats first_ended last_ended
    add_failed_task
program = tt

failed_plan : (update_status 6 plan tasks).status ≡ plan_failed
unfolding program
failed_plan = refl

first_failed : (update_status 6 plan tasks).failed_task_key ≡ some 3
unfolding program
first_failed = refl

doing_plan :
    (update_status 6 plan
      (task 1 executing none ∷ task 2 waiting_for_builder_slot none ∷ [])).status
    ≡ plan_doing
unfolding program
doing_plan = refl

created_plan : (update_status 6 plan (task 2 waiting_for_builder_slot none ∷ [])).start_date ≡ none
unfolding program
created_plan = refl

ended_plan : (update_end_date plan tasks).end_date ≡ some 9
unfolding program
ended_plan = refl

update_status-expected_example :
    (update_status 6 plan tasks).status ≡ expected_status none (compute_tasks plan tasks)
update_status-expected_example = update_status-expected 6 plan tasks

update_status-failed_task_example :
    (found : Option (ComputeTask × Date)) × IsFirst found (failed_tasks plan tasks)
    × ((update_status 6 plan tasks).failed_task_key ≡ (
        if false || not (is_plan_failed (update_status 6 plan tasks).status)
        then none
        else failed_key found))
update_status-failed_task_example = update_status-failed_task 6 plan tasks

update_end_date-latest_example :
    (found : Option (ComputeTask × Date)) × IsLast found (compute_tasks plan tasks)
    × ((update_end_date plan tasks).end_date ≡ (
        if any (λ t. is_none t.end_date) (compute_tasks plan tasks)
          && not (any (λ t. is_failed t.status || is_canceled t.status) (compute_tasks plan tasks))
        then none
        else end_date_or none found))
update_end_date-latest_example = update_end_date-latest plan tasks

update_end_date-update_end_date_example :
    update_end_date (update_end_date plan tasks) tasks ≡ update_end_date plan tasks
update_end_date-update_end_date_example = update_end_date-update_end_date plan tasks
