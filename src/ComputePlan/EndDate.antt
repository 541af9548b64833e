-- ===== src/ComputePlan/EndDate.antt =====
-- What `update_end_date` of backend/api/models/computeplan.py computes.
use substra_backend.Prelude.{
  ◌≡◌, refl, ap, Option, none, some, List, if◌then◌else◌, any, not, ◌&&◌, ◌||◌, is_some, is_none,
  arith,
}
use substra_backend.Models.{Date, ComputeTask, ComputePlan, is_canceled, is_failed}
use substra_backend.ComputePlan.{
  compute_tasks, get_task_stats, last_ended, update_end_date, update_status,
}
use substra_backend.ComputePlan.Ended.{IsLast, last_ended-IsLast}
use substra_backend.ComputePlan.Status.{update_status-settled}

abbrev pub end_date_or : Option Date → Option (ComputeTask × Date) → Option Date
end_date_or old none = old
end_date_or old (some (_, d)) = some d

-- The end date that a plan gets, from its cancelation date, its end date and its tasks.
abbrev pub next_end_date : Option Date → Option Date → List ComputeTask → Option Date
next_end_date (some d) old own = some d
next_end_date none old own =
    if any (λ t. is_none t.end_date) own
      && not (any (λ t. is_failed t.status || is_canceled t.status) own)
    then none
    else end_date_or old (last_ended own)

pub update_end_date-next :
    (plan : ComputePlan) (tasks : List ComputeTask)
    → update_end_date plan tasks ≡ record plan {
      end_date = next_end_date plan.cancelation_date plan.end_date (compute_tasks plan tasks);
    }
unfolding update_end_date compute_tasks
update_end_date-next plan tasks = ground arith

-- A canceled plan ends at its cancelation date. A plan with a task that has not ended, and no task
-- that failed or was canceled, has no end date. Any other plan ends at the latest end date of its
-- tasks: some task of the plan has it, and no task of the plan ends later; where no task of the plan
-- has ended, the end date is kept.
pub update_end_date-latest :
    (plan : ComputePlan) (tasks : List ComputeTask)
    → (found : Option (ComputeTask × Date)) × IsLast found (compute_tasks plan tasks)
      × ((update_end_date plan tasks).end_date ≡ (
          if is_some plan.cancelation_date
          then plan.cancelation_date
          else if any (λ t. is_none t.end_date) (compute_tasks plan tasks)
              && not
                  (any (λ t. is_failed t.status || is_canceled t.status) (compute_tasks plan tasks))
          then none
          else end_date_or plan.end_date found))
unfolding update_end_date
update_end_date-latest plan tasks =
    let own = compute_tasks plan tasks in (last_ended own, last_ended-IsLast own, ground arith)

next_end_date-next_end_date :
    (c old : Option Date) (own : List ComputeTask)
    → next_end_date c (next_end_date c old own) own ≡ next_end_date c old own
next_end_date-next_end_date (some d) old own = refl
next_end_date-next_end_date none old own = ground arith

-- A second `update_end_date` over the same tasks changes nothing.
pub update_end_date-update_end_date :
    (plan : ComputePlan) (tasks : List ComputeTask)
    → update_end_date (update_end_date plan tasks) tasks ≡ update_end_date plan tasks
unfolding compute_tasks
update_end_date-update_end_date plan tasks =
    rw (update_end_date-next plan tasks, update_end_date-next)
      (ap (λ (e : Option Date). record plan { end_date = e })
        (next_end_date-next_end_date plan.cancelation_date plan.end_date _))

-- The two updates commute: neither reads what the other writes.
pub update_status-update_end_date :
    (now : Date) (plan : ComputePlan) (tasks : List ComputeTask)
    → update_status now (update_end_date plan tasks) tasks
      ≡ update_end_date (update_status now plan tasks) tasks
unfolding compute_tasks get_task_stats
update_status-update_end_date now plan tasks =
    rw
      (
        update_end_date-next plan tasks,
        update_status-settled now plan tasks,
        update_status-settled,
        update_end_date-next,
      )
      refl
