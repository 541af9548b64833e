-- ===== src/Models/Assets.antt =====
-- The other tables of backend/api/models, backend/substrapp/models/asset_failure_report.py, and the
-- database. A row that refers to another by an automatic key holds the fields that are unique
-- together; the inputs of a function, which are never written again, stand in its row.
use substra_backend.Prelude.{ℕ, String, Bool, Option, List}
use substra_backend.Models.Plans.{Date, ComputeTask, ComputePlan}

pub data AssetKind : Type 0 where
  asset_data_sample : AssetKind
  asset_data_manager : AssetKind
  asset_model : AssetKind
  asset_performance : AssetKind

pub record ChannelOrganization : Type 0 where
  pub organization_id : String
  pub address : String
  pub creation_date : Date
  pub channel : String

pub record FunctionInput : Type 0 where
  pub identifier : String
  pub kind : AssetKind
  pub optional : Bool
  pub multiple : Bool

pub data FunctionStatus : Type 0 where
  function_unknown : FunctionStatus
  function_waiting : FunctionStatus
  function_building : FunctionStatus
  function_ready : FunctionStatus
  function_canceled : FunctionStatus
  function_failed : FunctionStatus

pub record Function : Type 0 where
  pub key : ℕ
  pub name : String
  pub owner : String
  pub status : FunctionStatus
  pub image_address : Option String
  pub image_checksum : Option String
  pub inputs : List FunctionInput
  pub creation_date : Date
  pub channel : String

pub record ComputeTaskInput : Type 0 where
  pub task : ℕ
  pub identifier : String
  pub position : ℕ
  pub asset_key : Option ℕ
  pub parent_task_key : Option ℕ
  pub parent_task_output_identifier : Option String
  pub channel : String

pub record ComputeTaskOutput : Type 0 where
  pub task : ℕ
  pub identifier : String
  pub transient : Bool
  pub channel : String

-- `task_input` is one-to-one: an input has at most one asset.
pub record ComputeTaskInputAsset : Type 0 where
  pub task_input : ComputeTaskInput
  pub asset_kind : AssetKind
  pub asset_key : String
  pub channel : String

pub record ComputeTaskOutputAsset : Type 0 where
  pub task_output : ComputeTaskOutput
  pub asset_kind : AssetKind
  pub asset_key : String
  pub channel : String

pub record DataManager : Type 0 where
  pub key : ℕ
  pub name : String
  pub owner : String
  pub logs_permission_public : Bool
  pub logs_permission_authorized_ids : List String
  pub creation_date : Date
  pub channel : String

pub record DataSample : Type 0 where
  pub key : ℕ
  pub owner : String
  pub data_managers : List ℕ
  pub creation_date : Date
  pub channel : String

pub record Performance : Type 0 where
  pub task_output : ComputeTaskOutput
  pub value : ℕ
  pub creation_date : Date
  pub channel : String

pub record Model : Type 0 where
  pub key : ℕ
  pub compute_task : ℕ
  pub model_address : Option String
  pub model_checksum : Option String
  pub owner : String
  pub creation_date : Date
  pub channel : String

pub data FailedAssetKind : Type 0 where
  failed_asset_unknown : FailedAssetKind
  failed_asset_compute_task : FailedAssetKind
  failed_asset_function : FailedAssetKind

pub record AssetFailureReport : Type 0 where
  pub asset_key : ℕ
  pub asset_type : FailedAssetKind
  pub logs_address : Option String
  pub logs_checksum : Option String
  pub logs_owner : String

pub record FunctionProfilingStep : Type 0 where
  pub function : ℕ
  pub step : String
  pub duration : ℕ

-- backend/api/models: one list of rows for each table, in the order of insertion.
pub record Db : Type 0 where
  pub organizations : List ChannelOrganization
  pub functions : List Function
  pub plans : List ComputePlan
  pub tasks : List ComputeTask
  pub task_inputs : List ComputeTaskInput
  pub task_outputs : List ComputeTaskOutput
  pub input_assets : List ComputeTaskInputAsset
  pub output_assets : List ComputeTaskOutputAsset
  pub data_managers : List DataManager
  pub data_samples : List DataSample
  pub performances : List Performance
  pub models : List Model
  pub failure_reports : List AssetFailureReport
  pub profiling_steps : List FunctionProfilingStep
  -- the key of the virtual user, once it exists
  pub external_user : Option ℕ
