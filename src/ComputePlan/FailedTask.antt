-- ===== src/ComputePlan/FailedTask.antt =====
-- The failed task that `update_status` of backend/api/models/computeplan.py records.
use substra_backend.Prelude.{◌≡◌, Option, List, filter, ◌||◌, not, is_some, if◌then◌else◌, arith}
use substra_backend.Models.{Date, ComputeTask, ComputePlan, is_failed}
use substra_backend.ComputePlan.{
  compute_tasks, first_ended, add_failed_task, set_start_date, record_failure, update_status,
}
use substra_backend.ComputePlan.Ended.{IsFirst, first_ended-IsFirst}
use substra_backend.ComputePlan.Status.{failed_key, is_plan_failed}

abbrev pub failed_tasks : ComputePlan → List ComputeTask → List ComputeTask
failed_tasks plan tasks = filter (λ t. is_failed t.status) (compute_tasks plan tasks)

-- A key that is recorded is kept, and none is recorded while the new status is not `failed`.
-- Otherwise the key of the failed task of the plan that ended first is recorded: it has failed and
-- ended, and no failed task of the plan ended earlier. Where no failed task has ended, none is.
pub update_status-failed_task :
    (now : Date) (plan : ComputePlan) (tasks : List ComputeTask)
    → (found : Option (ComputeTask × Date)) × IsFirst found (failed_tasks plan tasks)
      × ((update_status now plan tasks).failed_task_key ≡ (
          if is_some plan.failed_task_key
            || not (is_plan_failed (update_status now plan tasks).status)
          then plan.failed_task_key
          else failed_key found))
unfolding update_status set_start_date record_failure add_failed_task compute_tasks
update_status-failed_task now plan tasks = (
  first_ended (failed_tasks plan tasks),
  first_ended-IsFirst (failed_tasks plan tasks),
  ground arith,
)
