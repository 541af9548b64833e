-- ===== src/Sync/Events.antt =====
-- The events that backend/api/events/sync.py consumes, as the orchestrator's client converts them
-- to dictionaries, and what the handlers take from outside.
use substra_backend.Prelude.{
  ℕ, String, Bool, Option, none, some, List, [], ◌∷◌, str_eq, if◌then◌else◌,
}
use substra_backend.Models.{
  Date, TaskStatus, ErrorType, AssetKind, FunctionInput, FunctionStatus, FailedAssetKind,
}

-- A dictionary with text keys.
abbrev pub Dict : Type 0
Dict = List (String × String)

-- d.get(k)
unfoldable pub dict_get : String → Dict → Option String
dict_get k [] = none
dict_get k ((j, v) ∷ d) = if str_eq j k then some v else dict_get k d

-- d.pop(k, default) returns the value, and removes the key.
unfoldable pub dict_remove : String → Dict → Dict
dict_remove k [] = []
dict_remove k ((j, v) ∷ d) = if str_eq j k then dict_remove k d else (j, v) ∷ dict_remove k d

pub record OrganizationData : Type 0 where
  pub id : String
  pub address : String
  pub creation_date : Date

pub record FunctionData : Type 0 where
  pub key : ℕ
  pub name : String
  pub owner : String
  pub status : FunctionStatus
  pub inputs : List FunctionInput
  pub image : Dict
  pub creation_date : Date

pub record PlanData : Type 0 where
  pub key : ℕ
  pub owner : String
  pub tag : String
  pub name : String
  pub creation_date : Date
  pub cancelation_date : Option Date

-- An input names an asset, or an output of a parent task.
pub data TaskInputData : Type 0 where
  asset_input : (identifier : String) (asset_key : ℕ) → TaskInputData
  parent_output :
      (identifier : String) (parent_task_key : ℕ) (output_identifier : String) → TaskInputData

pub record TaskData : Type 0 where
  pub key : ℕ
  pub function_key : ℕ
  pub owner : String
  pub compute_plan_key : ℕ
  pub rank : ℕ
  pub status : TaskStatus
  pub worker : String
  pub creation_date : Date
  pub metadata : Dict
  pub tag : String
  pub inputs : List TaskInputData
  pub outputs : List (String × Bool)

pub record OutputAssetData : Type 0 where
  pub compute_task_key : ℕ
  pub compute_task_output_identifier : String
  pub asset_kind : AssetKind
  pub asset_key : String

pub record DataManagerData : Type 0 where
  pub key : ℕ
  pub name : String
  pub owner : String
  pub logs_permission : Option (Bool × List String)
  pub creation_date : Date

pub record DataSampleData : Type 0 where
  pub key : ℕ
  pub owner : String
  pub data_manager_keys : List ℕ
  pub creation_date : Date

-- The value is a float that is stored and never computed with: an opaque number.
pub record PerformanceData : Type 0 where
  pub compute_task_key : ℕ
  pub compute_task_output_identifier : String
  pub performance_value : ℕ
  pub creation_date : Date

pub record ModelData : Type 0 where
  pub key : ℕ
  pub compute_task_key : ℕ
  pub address : Option (String × String)
  pub owner : String
  pub creation_date : Date

pub record FailureReportData : Type 0 where
  pub error_type : ErrorType
  pub asset_type : FailedAssetKind
  pub logs_address : Option (String × String)
  pub owner : Option String

pub record ProfilingStepData : Type 0 where
  pub step : String
  pub duration : ℕ

pub data Payload : Type 0 where
  organization : OrganizationData → Payload
  function : FunctionData → Payload
  compute_plan : PlanData → Payload
  compute_task : TaskData → Payload
  compute_task_output_asset : OutputAssetData → Payload
  data_manager : DataManagerData → Payload
  data_sample : DataSampleData → Payload
  performance : PerformanceData → Payload
  model : ModelData → Payload
  failure_report : FailureReportData → Payload
  profiling_step : ProfilingStepData → Payload

pub data EventKind : Type 0 where
  event_unknown : EventKind
  event_asset_created : EventKind
  event_asset_updated : EventKind
  event_asset_disabled : EventKind

-- `asset_kind` says which payload there is, so it is the constructor of the payload.
pub record Event : Type 0 where
  pub id : String
  pub channel : String
  pub asset_key : ℕ
  pub timestamp : String
  pub event_kind : EventKind
  pub payload : Payload

-- What the handlers take from outside: the clock, the key that the database gives to the virtual
-- user, Django's `parse_datetime`, the text of a UUID, and the number of errors that the field validation of a
-- serializer finds besides those that depend on the rows of the database.
pub record Env : Type 0 where
  pub now : Date
  pub new_user : ℕ
  pub parse_datetime : String → Option Date
  pub key_text : ℕ → String
  pub field_errors : Payload → ℕ
