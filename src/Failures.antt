-- ===== src/Failures.antt =====
-- How a task of Celery that fails is reported: backend/substrapp/tasks/tasks_asset_failure_report.py,
-- store_failure of backend/substrapp/utils/errors.py, and the exceptions of
-- backend/substrapp/compute_tasks/errors.py and backend/builder/exceptions.py.
pub mod Reports
use substra_backend.Prelude.{
  ℕ, Bool, true, false, ◌==◌, Option, none, some, List, [], ◌∷◌, if◌then◌else◌, or_else,
}

-- The exceptions, with the logs that some of them have.
pub data TaskException : Type 0 where
  execution_error : ℕ → TaskException
  build_error : ℕ → TaskException
  build_retry_error : ℕ → TaskException
  build_canceled_error : TaskException
  invalid_context_error : TaskException
  celery_retry_error : TaskException
  celery_no_retry_error : TaskException
  soft_time_limit_exceeded : TaskException
  pod_timeout_error : TaskException
  other_exception : ℕ → TaskException

-- ComputeTaskErrorType
pub data ErrorType : Type 0 where
  type_build : ErrorType
  type_execution : ErrorType
  type_internal : ErrorType

-- exc.logs
abbrev pub logs_of : TaskException → Option ℕ
logs_of (execution_error logs) = some logs
logs_of (build_error logs) = some logs
logs_of (build_retry_error logs) = some logs
logs_of _ = none

-- exc.error_type
abbrev pub error_type_of : TaskException → Option ErrorType
error_type_of (execution_error _) = some type_execution
error_type_of (build_error _) = some type_build
error_type_of (build_retry_error _) = some type_build
error_type_of invalid_context_error = some type_internal
error_type_of _ = none

-- isinstance(exc, CeleryRetryError), which Celery retries for
abbrev pub is_celery_retry : TaskException → Bool
is_celery_retry (build_retry_error _) = true
is_celery_retry celery_retry_error = true
is_celery_retry _ = false

unfoldable pub get_error_type : TaskException → ErrorType
get_error_type e = elim (logs_of e) [
  | none ↦ type_internal
  | some _ ↦ or_else (error_type_of e) type_internal
]

pub data AssetKind : Type 0 where
  function_asset : AssetKind
  compute_task_asset : AssetKind

-- A row of AssetFailureReport; its primary key is the key of the asset.
pub record FailureReport : Type 0 where
  pub asset_key : ℕ
  pub asset_type : AssetKind
  pub logs_checksum : ℕ
  pub logs_address : ℕ
  pub logs : ℕ

-- The address and the checksum of the logs, and what register_failure_report is called with.
pub record LogsAddress : Type 0 where
  pub checksum : ℕ
  pub storage_address : ℕ

pub record Registration : Type 0 where
  pub asset_key : ℕ
  pub error_type : ErrorType
  pub asset_type : AssetKind
  pub logs_address : Option LogsAddress

abbrev pub stores_logs : ErrorType → Bool
stores_logs type_build = true
stores_logs type_execution = true
stores_logs type_internal = false

-- save: the row with this key is replaced, if there is one
abbrev pub save_report : FailureReport → List FailureReport → List FailureReport
save_report r [] = r ∷ []
save_report r (x ∷ xs) = if x.asset_key == r.asset_key then r ∷ xs else x ∷ save_report r xs

abbrev pub find_report : ℕ → List FailureReport → Option FailureReport
find_report key [] = none
find_report key (x ∷ xs) = if x.asset_key == key then some x else find_report key xs

-- The hash of the logs, and the address of the logs of an asset.
module _ (get_hash : ℕ → ℕ) (address_of : ℕ → ℕ) where
  abbrev pub report_of : ℕ → AssetKind → ℕ → FailureReport
  report_of key kind logs = record {
    asset_key = key;
    asset_type = kind;
    logs_checksum = get_hash logs;
    logs_address = address_of key;
    logs = logs;
  }

  -- With the logs of the exception; none is the AttributeError of an exception that has no logs.
  abbrev pub store_logs :
      Option ℕ
      → ℕ
      → AssetKind
      → List FailureReport
      → Option (List FailureReport × Option FailureReport)
  store_logs none key kind rows = none
  store_logs (some logs) key kind rows =
      some (save_report (report_of key kind logs) rows, some (report_of key kind logs))

  unfoldable pub store_failure :
      TaskException
      → ℕ
      → AssetKind
      → ErrorType
      → List FailureReport
      → Option (List FailureReport × Option FailureReport)
  store_failure e key kind error_type rows =
      if stores_logs error_type then store_logs (logs_of e) key kind rows else some (rows, none)

  abbrev pub address_from : Option FailureReport → Option LogsAddress
  address_from none = none
  address_from (some r) =
      some (record { checksum = r.logs_checksum; storage_address = r.logs_address })

  abbrev pub register :
      ℕ
      → AssetKind
      → ErrorType
      → Option (List FailureReport × Option FailureReport)
      → Option (List FailureReport × Registration)
  register key kind error_type none = none
  register key kind error_type (some (rows, report)) = some (
    rows,
    record {
      asset_key = key;
      error_type = error_type;
      asset_type = kind;
      logs_address = address_from report;
    },
  )

  -- The rows, and what the orchestrator is told.
  unfoldable pub store_asset_failure_report :
      TaskException
      → ℕ
      → AssetKind
      → List FailureReport
      → Option (List FailureReport × Registration)
  store_asset_failure_report e key kind rows =
      let error_type = get_error_type e in
      register key kind error_type (store_failure e key kind error_type rows)
