-- ===== src/ComputePlan.antt =====
-- backend/api/models/computeplan.py: the status, the start and end dates and the first failed task
-- of a compute plan, recomputed from the rows of its tasks.
pub mod Ended
pub mod Status
pub mod FailedTask
pub mod EndDate
mod Examples
use substra_backend.Prelude.{
  ℕ, ◌≡◌, refl, Bool, true, false, Option, none, some, List, [], ◌∷◌, ◌==◌, ltb, leb, if◌then◌else◌,
  filter, count, length, any, not, ◌&&◌, ◌||◌, is_some, is_none,
}
use substra_backend.Models.{
  Date, ComputeTask, ComputePlan, PlanStatus, plan_created, plan_doing, plan_done, plan_canceled,
  plan_failed, is_waiting_builder, is_building, is_waiting_parent, is_waiting_executor,
  is_executing, is_done, is_canceled, is_failed, is_created,
}

-- self.compute_tasks, and ComputeTask.objects.filter(compute_plan__key=self.key)
unfoldable pub compute_tasks : ComputePlan → List ComputeTask → List ComputeTask
compute_tasks plan tasks = filter (λ t. t.compute_plan == plan.key) tasks

pub record TaskStats : Type 0 where
  pub task_count : ℕ
  pub done_count : ℕ
  pub waiting_builder_slot_count : ℕ
  pub building_count : ℕ
  pub waiting_parent_tasks_count : ℕ
  pub waiting_executor_slot_count : ℕ
  pub executing_count : ℕ
  pub canceled_count : ℕ
  pub failed_count : ℕ

unfoldable pub get_task_stats : ComputePlan → List ComputeTask → TaskStats
get_task_stats plan tasks =
    let own = compute_tasks plan tasks in
    record {
      task_count = length own;
      done_count = count (λ t. is_done t.status) own;
      waiting_builder_slot_count = count (λ t. is_waiting_builder t.status) own;
      building_count = count (λ t. is_building t.status) own;
      waiting_parent_tasks_count = count (λ t. is_waiting_parent t.status) own;
      waiting_executor_slot_count = count (λ t. is_waiting_executor t.status) own;
      executing_count = count (λ t. is_executing t.status) own;
      canceled_count = count (λ t. is_canceled t.status) own;
      failed_count = count (λ t. is_failed t.status) own;
    }

-- The ladder of tests of `update_status`.
unfoldable pub status_from_stats : Option Date → TaskStats → PlanStatus
status_from_stats cancelation_date stats =
    if is_some cancelation_date || ltb 0 stats.canceled_count
    then plan_canceled
    else if stats.task_count == 0 || stats.waiting_builder_slot_count == stats.task_count
    then plan_created
    else if stats.done_count == stats.task_count
    then plan_done
    else if ltb 0 stats.failed_count
    then plan_failed
    else plan_doing

abbrev pub earliest :
    ComputeTask → Option Date → Option (ComputeTask × Date) → Option (ComputeTask × Date)
earliest t none found = found
earliest t (some d) none = some (t, d)
earliest t (some d) (some (u, e)) = if leb d e then some (t, d) else some (u, e)

abbrev pub latest :
    ComputeTask → Option Date → Option (ComputeTask × Date) → Option (ComputeTask × Date)
latest t none found = found
latest t (some d) none = some (t, d)
latest t (some d) (some (u, e)) = if ltb e d then some (t, d) else some (u, e)

-- .filter(end_date__isnull=False).order_by("end_date").first(): the first row with the least date,
-- beside its date.
unfoldable pub first_ended : List ComputeTask → Option (ComputeTask × Date)
first_ended [] = none
first_ended (t ∷ ts) = earliest t t.end_date (first_ended ts)

-- .filter(end_date__isnull=False).order_by("end_date").last(): the last row with the greatest date.
unfoldable pub last_ended : List ComputeTask → Option (ComputeTask × Date)
last_ended [] = none
last_ended (t ∷ ts) = latest t t.end_date (last_ended ts)

unfoldable pub add_failed_task : ComputePlan → List ComputeTask → ComputePlan
add_failed_task plan tasks =
    if is_some plan.failed_task_key
    then plan
    else elim (first_ended (filter (λ t. is_failed t.status) (compute_tasks plan tasks))) [
      | none ↦ plan
      | some (first_failed_task, _) ↦ record plan { failed_task_key = some first_failed_task.key }
    ]

-- `if status != CREATED and not self.start_date: self.start_date = timezone.now()`
unfoldable pub set_start_date : Date → PlanStatus → ComputePlan → ComputePlan
set_start_date now status plan =
    if not (is_created status) && is_none plan.start_date
    then record plan { start_date = some now }
    else plan

-- `if self.status == FAILED: self._add_failed_task()`
unfoldable pub record_failure : ComputePlan → List ComputeTask → ComputePlan
record_failure plan tasks = elim plan.status [ plan_failed ↦ add_failed_task plan tasks | _ ↦ plan ]

-- The row that `update_status` saves.
unfoldable pub update_status : Date → ComputePlan → List ComputeTask → ComputePlan
unfolding status_from_stats set_start_date record_failure
update_status now plan tasks =
    let status = status_from_stats plan.cancelation_date (get_task_stats plan tasks) in
    let started = set_start_date now status plan in
    record_failure (record started { status = status }) tasks

-- The row that `update_end_date` saves.
unfoldable pub update_end_date : ComputePlan → List ComputeTask → ComputePlan
update_end_date plan tasks =
    let own = compute_tasks plan tasks in
    let ongoing = any (λ t. is_none t.end_date) own in
    let stopped = any (λ t. is_failed t.status || is_canceled t.status) own in
    if is_some plan.cancelation_date
    then record plan { end_date = plan.cancelation_date }
    else if ongoing && not stopped
    then record plan { end_date = none }
    else elim (last_ended own) [ none ↦ plan | some (_, d) ↦ record plan { end_date = some d } ]
