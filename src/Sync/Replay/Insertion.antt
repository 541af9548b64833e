-- ===== src/Sync/Replay/Insertion.antt =====
-- What the creation of the inputs of a task leaves alone: `create` of the serializer in
-- backend/api/serializers/computetask.py.
use substra_backend.Prelude.{
  ℕ, suc, String, ◌≡◌, ◌≤◌, refl, ◌∙◌, true, Option, none, some, List, [], ◌∷◌, ◌++◌, Result, ok,
  err, Error, already_exists, does_not_exist, key_error, ◌>>=◌, or_raise, arith, any, Bool-cases,
  inl, inr, ◌≢◌,
}
use substra_backend.Models.{
  Db, ComputeTask, FunctionInput, ComputeTaskInput, ComputeTaskInputAsset, ComputeTaskOutputAsset,
}
use substra_backend.Store.{save, exists}
use substra_backend.Store.Laws.{get?-save}
use substra_backend.Sync.Events.{TaskInputData, asset_input, parent_output}
use substra_backend.Sync.Assets.{task_key}
use substra_backend.Sync.Inputs.{
  create_input_asset, attach_asset, attach_first, attach_parent, attach, create_inputs, input_row,
  missing_parents, same_input, find_output, find_kind, first_asset,
}

-- The tables that the creation of inputs reads and does not write.
pub record SameCore (a b : Db) : Type 0 where
  pub functions : b.functions ≡ a.functions
  pub plans : b.plans ≡ a.plans
  pub tasks : b.tasks ≡ a.tasks

SameCore-refl : (a : Db) → SameCore a a
SameCore-refl a = record { functions = refl; plans = refl; tasks = refl }

SameCore-trans : {a b c : Db} → SameCore a b → SameCore b c → SameCore a c
SameCore-trans p q = record {
  functions = q.functions ∙ p.functions;
  plans = q.plans ∙ p.plans;
  tasks = q.tasks ∙ p.tasks;
}

-- The step wrote none of those tables, or it raised an error that is not swallowed.
abbrev pub Inserts : Db → Result Db → Type 0
Inserts db (ok db') = SameCore db db'
Inserts db (err e) = e ≢ already_exists

Inserts-bind :
    (db : Db) (m : Result Db) (f : Db → Result Db)
    → Inserts db m
    → ((db' : Db) → Inserts db' (f db'))
    → Inserts db (m >>= f)
Inserts-bind db (err e) f h k = h
Inserts-bind db (ok db') f h k = after (f db') (k db')
  where
    after : (r : Result Db) → Inserts db' r → Inserts db r
    after (ok c) g = SameCore-trans h g
    after (err e) g = g

Inserts-or_raise :
    {A : Type 0} (db : Db) (e : Error) (o : Option A) (f : A → Result Db)
    → e ≢ already_exists
    → ((a : A) → Inserts db (f a))
    → Inserts db (or_raise e o >>= f)
Inserts-or_raise db e none f h k = h
Inserts-or_raise db e (some a) f h k = k a

create_input_asset-Inserts :
    (a : ComputeTaskInputAsset) (db : Db) → Inserts db (create_input_asset a db)
unfolding create_input_asset
create_input_asset-Inserts a db =
    elim (Bool-cases
      (any (λ (b : ComputeTaskInputAsset). same_input b.task_input a.task_input) db.input_assets)) [
        | inl dup ↦ rw dup (λ e. cc)
        | inr new ↦ rw new (record { functions = refl; plans = refl; tasks = refl })
      ]

module _ (kinds : List FunctionInput) (i : ComputeTaskInput) where
  attach_asset-Inserts : (key : String) (db : Db) → Inserts db (attach_asset kinds i key db)
  unfolding attach_asset
  attach_asset-Inserts key db =
      Inserts-or_raise db key_error (find_kind i.identifier kinds) _ (λ e. cc)
        λ kind. create_input_asset-Inserts _ db

  attach_first-Inserts :
      (asset : Option ComputeTaskOutputAsset) (db : Db) → Inserts db (attach_first kinds i asset db)
  unfolding attach_first
  attach_first-Inserts none db = SameCore-refl db
  attach_first-Inserts (some asset) db = attach_asset-Inserts asset.asset_key db

  attach_parent-Inserts :
      (parent : Option ℕ) (db : Db) → Inserts db (attach_parent kinds i parent db)
  unfolding attach_parent
  attach_parent-Inserts none db = SameCore-refl db
  attach_parent-Inserts (some parent) db =
      Inserts-or_raise db does_not_exist (find_output parent _ db.task_outputs) _ (λ e. cc)
        λ output. attach_first-Inserts (first_asset output db.output_assets) db

  attach-Inserts :
      (key_text : ℕ → String) (key : Option ℕ) (db : Db)
      → Inserts db (attach key_text kinds i key db)
  unfolding attach
  attach-Inserts key_text none db = attach_parent-Inserts i.parent_task_key db
  attach-Inserts key_text (some key) db = attach_asset-Inserts (key_text key) db

Inserts-input :
    (db : Db) (inputs : List ComputeTaskInput) (r : Result Db)
    → Inserts (record db { task_inputs = inputs }) r
    → Inserts db r
Inserts-input db inputs (ok c) h = record {
  functions = h.functions;
  plans = h.plans;
  tasks = h.tasks;
}
Inserts-input db inputs (err e) h = h

pub create_inputs-Inserts :
    (key_text : ℕ → String) (kinds : List FunctionInput) (task : ℕ) (channel : String)
    (position : ℕ) (is : List TaskInputData) (db : Db)
    → Inserts db (create_inputs key_text kinds task channel position is db)
unfolding create_inputs
create_inputs-Inserts key_text kinds task channel position [] db = SameCore-refl db
create_inputs-Inserts key_text kinds task channel position (i ∷ is) db =
    let row = input_row task channel position i in
    let with_row = record db { task_inputs = db.task_inputs ++ row ∷ [] } in
    Inserts-input db _ _ (
      Inserts-bind with_row (attach key_text kinds row row.asset_key with_row) _
        (attach-Inserts kinds row key_text row.asset_key with_row)
        (create_inputs-Inserts key_text kinds task channel (suc position) is))

-- A task that is saved adds no missing parent.
exists-save :
    (k : ℕ) (t : ComputeTask) (tasks : List ComputeTask)
    → exists task_key k tasks ≡ true
    → exists task_key k (save task_key t tasks) ≡ true
unfolding exists
exists-save k t tasks h = ground (arith, get?-save task_key k t tasks)

pub missing_parents-save :
    (is : List TaskInputData) (t : ComputeTask) (tasks : List ComputeTask)
    → missing_parents is (save task_key t tasks) ≤ missing_parents is tasks
unfolding missing_parents
missing_parents-save [] t tasks = omega arith
missing_parents-save (asset_input _ _ ∷ is) t tasks = missing_parents-save is t tasks
missing_parents-save (parent_output _ parent _ ∷ is) t tasks =
    ground (arith, missing_parents-save is t tasks, exists-save parent t tasks)
