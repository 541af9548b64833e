-- ===== src/Models/Plans.antt =====
-- backend/api/models/{computetask,computeplan}.py: the rows of compute tasks and compute plans
-- with their statuses. A key is a UUID and a date is a timestamp, both as numbers.
use substra_backend.Prelude.{ℕ, String, Option, Bool, true, false}

abbrev pub Date : Type 0
Date = ℕ

pub data TaskStatus : Type 0 where
  waiting_for_builder_slot : TaskStatus
  building : TaskStatus
  waiting_for_parent_tasks : TaskStatus
  waiting_for_executor_slot : TaskStatus
  executing : TaskStatus
  done : TaskStatus
  canceled : TaskStatus
  failed : TaskStatus

pub data ErrorType : Type 0 where
  build : ErrorType
  execution : ErrorType
  internal : ErrorType
  unspecified : ErrorType

pub record ComputeTask : Type 0 where
  pub key : ℕ
  pub function : ℕ
  pub owner : String
  pub compute_plan : ℕ
  pub rank : ℕ
  pub status : TaskStatus
  pub worker : String
  pub creation_date : Date
  pub start_date : Option Date
  pub end_date : Option Date
  pub error_type : Option ErrorType
  pub tag : String
  pub logs_address : Option String
  pub logs_checksum : Option String
  pub logs_owner : Option String
  pub channel : String

pub data PlanStatus : Type 0 where
  plan_created : PlanStatus
  plan_doing : PlanStatus
  plan_done : PlanStatus
  plan_canceled : PlanStatus
  plan_failed : PlanStatus

pub record ComputePlan : Type 0 where
  pub key : ℕ
  pub owner : String
  pub status : PlanStatus
  pub tag : String
  pub name : String
  pub creator : ℕ
  pub creation_date : Date
  pub cancelation_date : Option Date
  pub start_date : Option Date
  pub end_date : Option Date
  pub failed_task_key : Option ℕ
  pub channel : String

-- task.status == ComputeTask.Status.STATUS_...
abbrev pub is_waiting_builder : TaskStatus → Bool
is_waiting_builder waiting_for_builder_slot = true
is_waiting_builder _ = false

abbrev pub is_building : TaskStatus → Bool
is_building building = true
is_building _ = false

abbrev pub is_waiting_parent : TaskStatus → Bool
is_waiting_parent waiting_for_parent_tasks = true
is_waiting_parent _ = false

abbrev pub is_waiting_executor : TaskStatus → Bool
is_waiting_executor waiting_for_executor_slot = true
is_waiting_executor _ = false

abbrev pub is_executing : TaskStatus → Bool
is_executing executing = true
is_executing _ = false

abbrev pub is_done : TaskStatus → Bool
is_done done = true
is_done _ = false

abbrev pub is_canceled : TaskStatus → Bool
is_canceled canceled = true
is_canceled _ = false

abbrev pub is_failed : TaskStatus → Bool
is_failed failed = true
is_failed _ = false

-- compute_plan_status != PLAN_STATUS_CREATED
abbrev pub is_created : PlanStatus → Bool
is_created plan_created = true
is_created _ = false
