-- ===== src/Worker/Runnable.antt =====
-- backend/substrapp/compute_tasks/compute_task.py: which tasks may run, and the changes of the
-- status of a task.
use substra_backend.Prelude.{
  ℕ, Bool, true, false, ◌&&◌, Option, none, some, [], ◌∷◌, if◌then◌else◌, is_none,
}
use substra_backend.Worker.{
  OrcTaskStatus, status_waiting_for_executor_slot, status_executing, OrcTask, OrcPlan, TaskAction,
  action_executing, action_canceled, action_done, Failure, orc_error, task_non_runnable,
  plan_non_runnable, Attempt, raised, returned, OrcClient, updates_task, Statement, pure, raise,
  ◌then_run◌, catch,
}

-- ComputePlan.is_runnable
abbrev pub is_runnable : OrcPlan → Bool
is_runnable plan = is_none plan.cancelation_date && is_none plan.failure_date

-- _is_task_status_runnable
abbrev pub is_task_status_runnable : OrcTaskStatus → (allow_executing : Bool) → Bool
is_task_status_runnable status_waiting_for_executor_slot allow_executing = true
is_task_status_runnable status_executing allow_executing = allow_executing
is_task_status_runnable _ allow_executing = false

module _ (client : OrcClient) where
  abbrev pub update_task_status : ℕ → TaskAction → Statement
  update_task_status key action =
      (updates_task key action ∷ [], client.update_task_status key action)

  -- `existing_task if existing_task else client.query_task(task_key)`
  abbrev pub existing_or_queried : ℕ → Option OrcTask → Attempt OrcTask
  existing_or_queried key none = client.query_task key
  existing_or_queried key (some t) = returned t

  unfoldable pub raise_if_task_not_runnable :
      ℕ → (allow_executing : Bool) (existing_task : Option OrcTask) → Statement
  raise_if_task_not_runnable key allow_executing existing_task =
      ([], existing_or_queried key existing_task) then_run λ t.
      if is_task_status_runnable t.status allow_executing
      then ([], client.query_compute_plan t.compute_plan_key) then_run (λ plan.
          if is_runnable plan
          then pure tt
          else raise (plan_non_runnable plan.cancelation_date plan.failure_date))
      else raise (task_non_runnable t.status)

  -- `else: return True`; an error of the orchestrator is let through
  abbrev runnable_or_not : Attempt {0} Unit → Attempt Bool
  runnable_or_not (returned _) = returned true
  runnable_or_not (raised (task_non_runnable _)) = returned false
  runnable_or_not (raised (plan_non_runnable _ _)) = returned false
  runnable_or_not (raised e) = raised e

  unfoldable pub is_task_runnable : ℕ → (allow_executing : Bool) → Attempt Bool
  unfolding raise_if_task_not_runnable
  is_task_runnable key allow_executing =
      runnable_or_not (raise_if_task_not_runnable key allow_executing none).1

  abbrev cancel_task : ℕ → Failure → Statement
  cancel_task key (plan_non_runnable cancelation_date failure_date) =
      update_task_status key action_canceled then_run λ _.
      raise (plan_non_runnable cancelation_date failure_date)
  cancel_task key e = raise e

  unfoldable pub abort_task_if_not_runnable :
      ℕ → (allow_executing : Bool) (task : Option OrcTask) → Statement
  unfolding raise_if_task_not_runnable
  abort_task_if_not_runnable key allow_executing task =
      catch (raise_if_task_not_runnable key allow_executing task) (cancel_task key)

  unfoldable pub start_task_if_not_started : OrcTask → Statement
  start_task_if_not_started t = elim t.status [
    | status_waiting_for_executor_slot ↦ update_task_status t.key action_executing
    | _ ↦ pure tt
  ]

  abbrev ignore_done : Failure → Statement
  ignore_done (orc_error true) = pure tt
  ignore_done e = raise e

  unfoldable pub mark_as_done : ℕ → Statement
  mark_as_done key = catch (update_task_status key action_done) ignore_done
