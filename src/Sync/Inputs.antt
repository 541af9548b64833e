-- ===== src/Sync/Inputs.antt =====
-- The inputs and outputs of a task that is created: `create` of the serializer in
-- backend/api/serializers/computetask.py, over backend/orchestrator/computetask.py.
use substra_backend.Prelude.{
  ℕ, suc, String, ◌+◌, Bool, ◌&&◌, Option, none, some, List, [], ◌∷◌, ◌++◌, ◌==◌, str_eq,
  if◌then◌else◌, Result, ok, err, ◌>>=◌, or_raise, does_not_exist, any, integrity_error, key_error,
  or_else,
}
use substra_backend.Models.{
  Db, ComputeTask, AssetKind, FunctionInput, ComputeTaskInput, ComputeTaskOutput,
  ComputeTaskInputAsset, ComputeTaskOutputAsset,
}
use substra_backend.Store.{exists}
use substra_backend.Sync.Events.{TaskInputData, asset_input, parent_output}
use substra_backend.Sync.Assets.{task_key}

-- self.objects.filter/get of an output by its task and identifier
unfoldable pub find_output : ℕ → String → List ComputeTaskOutput → Option ComputeTaskOutput
find_output task identifier [] = none
find_output task identifier (o ∷ os) =
    if (o.task == task) && str_eq o.identifier identifier
    then some o
    else find_output task identifier os

-- input_kinds[identifier]
unfoldable pub find_kind : String → List FunctionInput → Option AssetKind
find_kind identifier [] = none
find_kind identifier (i ∷ is) =
    if str_eq i.identifier identifier then some i.kind else find_kind identifier is

abbrev pub same_output : ComputeTaskOutput → ComputeTaskOutput → Bool
same_output a b = (a.task == b.task) && str_eq a.identifier b.identifier

abbrev pub same_input : ComputeTaskInput → ComputeTaskInput → Bool
same_input a b =
    (a.task == b.task) && (str_eq a.identifier b.identifier && (a.position == b.position))

-- task_output.assets.first()
unfoldable pub first_asset :
    ComputeTaskOutput → List ComputeTaskOutputAsset → Option ComputeTaskOutputAsset
first_asset o [] = none
first_asset o (a ∷ as_) = if same_output a.task_output o then some a else first_asset o as_

-- ComputeTaskInputAsset.objects.create: an input has at most one asset.
unfoldable pub create_input_asset : ComputeTaskInputAsset → Db → Result Db
create_input_asset a db =
    if any (λ (b : ComputeTaskInputAsset). same_input b.task_input a.task_input) db.input_assets
    then err integrity_error
    else ok (record db { input_assets = db.input_assets ++ a ∷ [] })

-- The asset of an input, of the kind that the function gives to the input.
unfoldable pub attach_asset :
    List FunctionInput → ComputeTaskInput → (key : String) → Db → Result Db
unfolding create_input_asset find_kind
attach_asset kinds i key db = do
  kind ← or_raise key_error (find_kind i.identifier kinds)
  create_input_asset
      (record { task_input = i; asset_kind = kind; asset_key = key; channel = i.channel }) db

-- `if task_output_asset:`
unfoldable pub attach_first :
    List FunctionInput → ComputeTaskInput → Option ComputeTaskOutputAsset → Db → Result Db
unfolding attach_asset
attach_first kinds i none db = ok db
attach_first kinds i (some asset) db = attach_asset kinds i asset.asset_key db

-- `elif task_input.parent_task_key:`
unfoldable pub attach_parent : List FunctionInput → ComputeTaskInput → Option ℕ → Db → Result Db
unfolding attach_first find_output first_asset
attach_parent kinds i none db = ok db
attach_parent kinds i (some parent) db = do
  output ←
      or_raise does_not_exist
        (find_output parent (or_else i.parent_task_output_identifier "") db.task_outputs)
  attach_first kinds i (first_asset output db.output_assets) db

-- `if task_input.asset_key:`. The text of a key is `key_text`.
unfoldable pub attach :
    (key_text : ℕ → String) → List FunctionInput → ComputeTaskInput → Option ℕ → Db → Result Db
unfolding attach_asset attach_parent
attach key_text kinds i (some key) db = attach_asset kinds i (key_text key) db
attach key_text kinds i none db = attach_parent kinds i i.parent_task_key db

-- The asset of an input that is known when the task is created: the one that the input names, or the
-- first one that the output of the parent task has.
unfoldable pub resolve_input :
    (key_text : ℕ → String) → List FunctionInput → ComputeTaskInput → Db → Result Db
unfolding attach
resolve_input key_text kinds i db = attach key_text kinds i i.asset_key db

-- `orc_to_api` of an input, at its position in the task.
unfoldable pub input_row : ℕ → String → ℕ → TaskInputData → ComputeTaskInput
input_row task channel position (asset_input identifier key) = record {
  task = task;
  identifier = identifier;
  position = position;
  asset_key = some key;
  parent_task_key = none;
  parent_task_output_identifier = none;
  channel = channel;
}
input_row task channel position (parent_output identifier parent output) = record {
  task = task;
  identifier = identifier;
  position = position;
  asset_key = none;
  parent_task_key = some parent;
  parent_task_output_identifier = some output;
  channel = channel;
}

-- `for position, input in enumerate(inputs)`
unfoldable pub create_inputs :
    (key_text : ℕ → String)
    → List FunctionInput
    → (task : ℕ) (channel : String) (position : ℕ) → List TaskInputData
    → Db
    → Result Db
unfolding resolve_input input_row
create_inputs key_text kinds task channel position [] db = ok db
create_inputs key_text kinds task channel position (i ∷ is) db =
    let row = input_row task channel position i in
    resolve_input key_text kinds row (record db { task_inputs = db.task_inputs ++ row ∷ [] })
    >>= create_inputs key_text kinds task channel (suc position) is

-- `for output in outputs`
unfoldable pub output_rows : ℕ → String → List (String × Bool) → List ComputeTaskOutput
output_rows task channel [] = []
output_rows task channel ((identifier, transient) ∷ os) =
    record { task = task; identifier = identifier; transient = transient; channel = channel }
    ∷ output_rows task channel os

-- The parent tasks that the inputs name and that have no row.
unfoldable pub missing_parents : List TaskInputData → List ComputeTask → ℕ
missing_parents [] tasks = 0
missing_parents (asset_input _ _ ∷ is) tasks = missing_parents is tasks
missing_parents (parent_output _ parent _ ∷ is) tasks =
    (if exists task_key parent tasks then 0 else 1) + missing_parents is tasks
