-- ===== src/Worker.antt =====
-- The compute engine of backend/substrapp: what it reads from the orchestrator, and the effects that
-- its functions have. The orchestrator is a service: its answers are an argument.
pub mod Effects
pub mod Runnable
pub mod Running
pub mod Queueing
pub mod Reactor
mod Examples
mod EventExamples
use substra_backend.Prelude.{ℕ, String, Bool, Option, none, some, List, [], ◌∷◌, ◌++◌}

-- orchestrator.ComputeTaskStatus
pub data OrcTaskStatus : Type 0 where
  status_unknown : OrcTaskStatus
  status_waiting_for_builder_slot : OrcTaskStatus
  status_building : OrcTaskStatus
  status_waiting_for_parent_tasks : OrcTaskStatus
  status_waiting_for_executor_slot : OrcTaskStatus
  status_executing : OrcTaskStatus
  status_done : OrcTaskStatus
  status_canceled : OrcTaskStatus
  status_failed : OrcTaskStatus

-- orchestrator.ComputeTaskInput: a reference to an asset, or to an output of a parent task.
pub record OrcTaskInput : Type 0 where
  pub identifier : String
  pub asset_key : Option ℕ
  pub parent_task_key : Option ℕ
  pub parent_task_output_identifier : Option String

-- orchestrator.ComputeTask: the outputs with their identifiers, and whether each is transient.
pub record OrcTask : Type 0 where
  pub key : ℕ
  pub compute_plan_key : ℕ
  pub status : OrcTaskStatus
  pub worker : String
  pub inputs : List OrcTaskInput
  pub outputs : List (String × Bool)

-- orchestrator.ComputePlan
pub record OrcPlan : Type 0 where
  pub key : ℕ
  pub cancelation_date : Option ℕ
  pub failure_date : Option ℕ

pub data TaskAction : Type 0 where
  action_executing : TaskAction
  action_canceled : TaskAction
  action_done : TaskAction

-- What a function raises.
pub data Failure : Type 0 where
  -- OrcError, and whether its details say that the task is done already
  orc_error : (done_already : Bool) → Failure
  task_non_runnable : OrcTaskStatus → Failure
  plan_non_runnable : (cancelation_date failure_date : Option ℕ) → Failure
  -- OSError with ENOSPC, FileNotFoundError, and any other OSError
  no_space : Failure
  file_not_found : Failure
  os_error : Failure
  registry_precondition_failed : Failure
  celery_no_retry : Failure
  celery_retry : Failure
  type_error : Failure
  key_error : Failure
  other_error : Failure

pub data Attempt {ℓ} (A : Type ℓ) : Type ℓ where
  raised : Failure → Attempt A
  returned : A → Attempt A

-- The answers of the orchestrator at one time: a failure or a value.
pub record OrcClient : Type 0 where
  pub query_task : ℕ → Attempt OrcTask
  pub query_compute_plan : ℕ → Attempt OrcPlan
  pub is_compute_plan_running : ℕ → Attempt Bool
  pub update_task_status : ℕ → TaskAction → Attempt {0} Unit

-- The parts of a run that are not modelled further.
pub data Step : Type 0 where
  create_task_profiling : Step
  create_context : Step
  init_dirs : Step
  lock_compute_plan : Step
  -- lock_resource("asset-buffer", ...), with its unique identifier
  lock_asset_buffer : String → Step
  add_assets_to_buffer : Step
  add_assets_to_taskdir : Step
  prepare_chainkeys : Step
  profile_inputs : Step
  download_function : Step
  profile_download : Step
  execute_compute_task : Step
  profile_execution : Step
  save_outputs : Step
  profile_outputs : Step
  clear_assets_buffer : Step
  teardown_task_dirs : Step

pub data Effect : Type 0 where
  updates_task : ℕ → TaskAction → Effect
  -- the step is begun; it may raise
  begins : Step → Effect

-- The effects of a call in their order, and what it returns or raises.
abbrev pub Run {ℓ} : Type ℓ → Type ℓ
Run A = List Effect × Attempt A

-- A statement that returns nothing.
abbrev pub Statement : Type 0
Statement = Run Unit

abbrev pub pure {ℓ} : {A : Type ℓ} → A → Run A
pure a = ([], returned a)

abbrev pub raise {ℓ} : {A : Type ℓ} → Failure → Run A
raise e = ([], raised e)

-- Statements in their order.
infixl 5 ◌then_run◌
abbrev pub ◌then_run◌ {ℓ κ} : {A : Type ℓ} {B : Type κ} → Run A → (A → Run B) → Run B
(es, raised e) then_run f = (es, raised e)
(es, returned a) then_run f = (es ++ (f a).0, (f a).1)

infixl 5 ◌next◌
unfoldable pub ◌next◌ : Statement → Statement → Statement
m next n = m then_run (λ _. n)

-- try: ... except: the handler has the effects of the body before its own.
abbrev pub catch {ℓ} : {A : Type ℓ} → Run A → (Failure → Run A) → Run A
catch (es, returned a) handler = (es, returned a)
catch (es, raised e) handler = (es ++ (handler e).0, (handler e).1)

-- try: ... finally: what the last part raises takes the place of what the body gave.
abbrev pub finally_run {ℓ} : {A : Type ℓ} → Run A → Run {0} Unit → Run A
finally_run (es, r) (fs, raised e) = (es ++ fs, raised e)
finally_run (es, r) (fs, returned _) = (es ++ fs, r)
