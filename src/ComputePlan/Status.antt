-- ===== src/ComputePlan/Status.antt =====
-- What `update_status` of backend/api/models/computeplan.py computes.
use substra_backend.Prelude.{
  ℕ, ◌≡◌, refl, Bool, true, false, Option, none, some, List, [], ◌∷◌, ◌==◌, ltb, if◌then◌else◌,
  filter, count, length, any, all, not, ◌&&◌, ◌||◌, is_some, is_none, arith, count-le-length, ◌∙◌,
}
use substra_backend.Models.{
  Date, ComputeTask, ComputePlan, PlanStatus, plan_created, plan_doing, plan_done, plan_canceled,
  plan_failed, is_waiting_builder, is_done, is_canceled, is_failed, is_created,
}
use substra_backend.ComputePlan.{
  compute_tasks, get_task_stats, status_from_stats, first_ended, add_failed_task, set_start_date,
  record_failure, update_status,
}

module _ {A : Type 0} (p : A → Bool) where
  ltb-count : (xs : List A) → ltb 0 (count p xs) ≡ any p xs
  ltb-count [] = refl
  ltb-count (x ∷ xs) = ground (arith, ltb-count xs)

  count-eq-length : (xs : List A) → (count p xs == length xs) ≡ all p xs
  count-eq-length [] = refl
  count-eq-length (x ∷ xs) = ground (arith, count-eq-length xs, count-le-length p xs)

  empty-or-all : (xs : List A) → ((length xs == 0) || (count p xs == length xs)) ≡ all p xs
  empty-or-all [] = refl
  empty-or-all (x ∷ xs) = ground (arith, count-eq-length (x ∷ xs))

-- The status of a plan, said of its tasks with no counting.
abbrev pub expected_status : Option Date → List ComputeTask → PlanStatus
expected_status cancelation_date own =
    if is_some cancelation_date || any (λ t. is_canceled t.status) own
    then plan_canceled
    else if all (λ t. is_waiting_builder t.status) own
    then plan_created
    else if all (λ t. is_done t.status) own
    then plan_done
    else if any (λ t. is_failed t.status) own
    then plan_failed
    else plan_doing

module _ (now : Date) (plan : ComputePlan) (tasks : List ComputeTask) where
  status-eq-expected :
      status_from_stats plan.cancelation_date (get_task_stats plan tasks)
      ≡ expected_status plan.cancelation_date (compute_tasks plan tasks)
  unfolding status_from_stats get_task_stats
  status-eq-expected =
      let own = compute_tasks plan tasks in
      rw
        (
          ltb-count (λ (t : ComputeTask). is_canceled t.status) own,
          empty-or-all (λ (t : ComputeTask). is_waiting_builder t.status) own,
          count-eq-length (λ (t : ComputeTask). is_done t.status) own,
          ltb-count (λ (t : ComputeTask). is_failed t.status) own,
        )
        refl

  status-update_status :
      (update_status now plan tasks).status
      ≡ status_from_stats plan.cancelation_date (get_task_stats plan tasks)
  unfolding record_failure update_status add_failed_task
  status-update_status = ground arith

  -- After `update_status` the status of the plan is the one that the quantified description gives:
  -- canceled if the plan has a cancelation date or a canceled task; else created if every task
  -- waits for a builder slot (or there is no task); else done if every task is done; else failed
  -- if some task failed; else doing.
  pub update_status-expected :
      (update_status now plan tasks).status
      ≡ expected_status plan.cancelation_date (compute_tasks plan tasks)
  update_status-expected = status-update_status ∙ status-eq-expected

  -- A start date that is set is kept; one that is not set becomes `now` exactly when the new status
  -- is not `created`. The name, the dates of the end and of the cancelation and the key are kept.
  pub update_status-start_date :
      ((update_status now plan tasks).start_date ≡ (
        if is_some plan.start_date || is_created (update_status now plan tasks).status
        then plan.start_date
        else some now))
      × ((update_status now plan tasks).end_date ≡ plan.end_date)
      × ((update_status now plan tasks).cancelation_date ≡ plan.cancelation_date)
      × ((update_status now plan tasks).name ≡ plan.name)
      × ((update_status now plan tasks).key ≡ plan.key)
  unfolding update_status set_start_date record_failure add_failed_task
  update_status-start_date = (ground arith, ground arith, ground arith, ground arith, ground arith)

-- The key of the failed task that ended first.
abbrev pub failed_key : Option (ComputeTask × Date) → Option ℕ
failed_key none = none
failed_key (some (t, _)) = some t.key

abbrev pub is_plan_failed : PlanStatus → Bool
is_plan_failed plan_failed = true
is_plan_failed _ = false

-- The row that `update_status` saves, given the status and the first failed task.
abbrev pub settled : Date → PlanStatus → Option ℕ → ComputePlan → ComputePlan
settled now status key plan = record plan {
  status = status;
  start_date =
      if not (is_created status) && is_none plan.start_date then some now else plan.start_date;
  failed_task_key =
      if is_plan_failed status && is_none plan.failed_task_key then key else plan.failed_task_key;
}

pub update_status-settled :
    (now : Date) (plan : ComputePlan) (tasks : List ComputeTask)
    → update_status now plan tasks
      ≡ settled now
          (status_from_stats plan.cancelation_date (get_task_stats plan tasks))
          (failed_key (first_ended (filter (λ t. is_failed t.status) (compute_tasks plan tasks))))
          plan
unfolding update_status set_start_date record_failure add_failed_task compute_tasks
update_status-settled now plan tasks = ground arith

settled-settled :
    (now later : Date) (status : PlanStatus) (key : Option ℕ) (plan : ComputePlan)
    → settled later status key (settled now status key plan) ≡ settled now status key plan
settled-settled now later plan_created key plan = refl
settled-settled now later _ key plan = ground arith

-- A second `update_status` over the same tasks changes nothing, at whatever time it runs.
pub update_status-update_status :
    (now later : Date) (plan : ComputePlan) (tasks : List ComputeTask)
    → update_status later (update_status now plan tasks) tasks ≡ update_status now plan tasks
unfolding get_task_stats compute_tasks
update_status-update_status now later plan tasks =
    rw (update_status-settled now plan tasks, update_status-settled later)
      (settled-settled now later _ _ plan)
