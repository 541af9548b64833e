-- ===== src/Outputs.antt =====
-- backend/substrapp/compute_tasks/outputs.py: how the models that a task has made are saved, with the
-- orchestrator, the storage and the API as what may refuse.
pub mod Deleting
pub mod Rollback
mod Examples
use substra_backend.Prelude.{
  ℕ, Bool, true, false, Option, none, some, List, [], ◌∷◌, ◌==◌, if◌then◌else◌, zero, suc,
}
use substra_backend.Store.{save, delete, exists}

-- A row of substrapp.models.Model; the file is stored after the row is created.
pub record ModelRow : Type 0 where
  pub key : ℕ
  pub file : Option ℕ
  -- none is the empty text
  pub checksum : Option ℕ

-- context.OutputResource of a model, with the key that its row gets (uuid4).
pub record OutputResource : Type 0 where
  pub identifier : ℕ
  pub rel_path : ℕ
  pub new_key : ℕ

-- What the orchestrator is asked to register.
pub record NewModel : Type 0 where
  pub key : ℕ
  pub compute_task_output_identifier : ℕ
  pub checksum : ℕ

pub data SaveError : Type 0 where
  os_error : SaveError
  storage_error : SaveError
  orchestrator_error : SaveError
  does_not_exist : SaveError
  organization_error : SaveError

pub data Reply {ℓ} (A : Type ℓ) : Type ℓ where
  raises : SaveError → Reply A
  gives : A → Reply A

-- What the run leaves: the rows of the models, what the orchestrator and the API have registered, the
-- files of the task directory by their path (an output is a file or
-- nothing), and the models of the asset buffer.
pub record State : Type 0 where
  pub rows : List ModelRow
  pub registered : List (List NewModel)
  pub in_api : List (List NewModel)
  pub files : ℕ → Option ℕ
  pub buffer : List (ℕ × ℕ)

-- What the run calls.
pub record Calls : Type 0 where
  pub get_hash : ℕ → ℕ
  pub save_fails : OutputResource → Bool
  pub register_refuses : List NewModel → Bool
  pub post_fails : ℕ → Bool

abbrev pub with_rows : List ModelRow → State → State
with_rows rows s = record {
  rows = rows;
  registered = s.registered;
  in_api = s.in_api;
  files = s.files;
  buffer = s.buffer;
}

abbrev pub save_row : ModelRow → State → State
save_row row s = with_rows (save ModelRow.key row s.rows) s

-- `_delete_model` for each model
unfoldable pub delete_models : List NewModel → List ModelRow → List ModelRow × Reply {0} Unit
delete_models [] rows = (rows, gives tt)
delete_models (m ∷ ms) rows =
    let rest = delete_models ms in
    if exists ModelRow.key m.key rows
    then rest (delete ModelRow.key m.key rows)
    else (rows, raises does_not_exist)

-- raise exc, unless a deletion has raised
abbrev pub raise_again : State → List ModelRow × Reply {0} Unit → State × Reply {0} Unit
raise_again s (rows, raises e) = (with_rows rows s, raises e)
raise_again s (rows, gives _) = (with_rows rows s, raises orchestrator_error)

module _ (calls : Calls) where
  abbrev pub new_model : OutputResource → ℕ → NewModel
  new_model o content = record {
    key = o.new_key;
    compute_task_output_identifier = o.identifier;
    checksum = calls.get_hash content;
  }

  abbrev pub model_row : OutputResource → Option ℕ → Option ℕ → ModelRow
  model_row o file checksum = record { key = o.new_key; file = file; checksum = checksum }

  -- A row is created, then the file is opened, and stored. `get_hash` gives the empty text for a missing
  -- file, and it is `open` that raises.
  abbrev pub store_model : OutputResource → Option ℕ → State → State × Reply NewModel
  store_model o none s = (save_row (model_row o none none) s, raises os_error)
  store_model o (some content) s =
      if calls.save_fails o
      then (save_row (model_row o none (some (calls.get_hash content))) s, raises storage_error)
      else (
        save_row (model_row o (some content) (some (calls.get_hash content)))
            (save_row (model_row o none (some (calls.get_hash content))) s),
        gives (new_model o content),
      )

  unfoldable pub save_model_to_local_storage : OutputResource → State → State × Reply NewModel
  save_model_to_local_storage o s = store_model o (s.files o.rel_path) s

  abbrev pub with_model : NewModel → State × Reply (List NewModel) → State × Reply (List NewModel)
  with_model m (s, raises e) = (s, raises e)
  with_model m (s, gives ms) = (s, gives (m ∷ ms))

  abbrev pub after_model :
      State × Reply NewModel
      → (State → State × Reply (List NewModel))
      → State × Reply (List NewModel)
  after_model (s, raises e) rest = (s, raises e)
  after_model (s, gives m) rest = with_model m (rest s)

  unfoldable pub save_model_files : List OutputResource → State → State × Reply (List NewModel)
  save_model_files [] s = (s, gives [])
  save_model_files (o ∷ os) s =
      let rest = save_model_files os in after_model (save_model_to_local_storage o s) rest

  -- `_register_models_in_api`, under `@retry(raise_exception=True)`, with this many attempts left
  unfoldable pub posts : ℕ → ℕ → Bool
  posts zero attempt = false
  posts (suc left) attempt =
      let again = posts left (suc attempt) in if calls.post_fails attempt then again else true

  -- os.rename of one model into the buffer
  abbrev pub move_model : ℕ → ℕ → Option ℕ → State → State × Reply {0} Unit
  move_model path key none s = (s, raises os_error)
  move_model path key (some content) s = (
    record {
      rows = s.rows;
      registered = s.registered;
      in_api = s.in_api;
      files = λ p. if p == path then none else s.files p;
      buffer = (key, content) ∷ s.buffer;
    },
    gives tt,
  )

  abbrev pub after_move :
      State × Reply {0} Unit → (State → State × Reply {0} Unit) → State × Reply {0} Unit
  after_move (s, raises e) rest = (s, raises e)
  after_move (s, gives _) rest = rest s

  -- `add_model_from_path` for each pair of the zip
  unfoldable pub add_models_from_path :
      List OutputResource → List NewModel → State → State × Reply {0} Unit
  add_models_from_path (o ∷ os) (m ∷ ms) s =
      let rest = add_models_from_path os ms in
      after_move (move_model o.rel_path m.key (s.files o.rel_path) s) rest
  add_models_from_path _ _ s = (s, gives tt)

  abbrev pub in_orchestrator : List NewModel → State → State
  in_orchestrator ms s = record {
    rows = s.rows;
    registered = ms ∷ s.registered;
    in_api = s.in_api;
    files = s.files;
    buffer = s.buffer;
  }

  abbrev pub in_the_api : List NewModel → State → State
  in_the_api ms s = record {
    rows = s.rows;
    registered = s.registered;
    in_api = ms ∷ s.in_api;
    files = s.files;
    buffer = s.buffer;
  }

  -- What follows the registration with the orchestrator.
  abbrev pub after_register_models :
      List OutputResource → List NewModel → State → State × Reply {0} Unit
  after_register_models os ms s =
      if posts 5 0
      then add_models_from_path os ms (in_the_api ms s)
      else (s, raises organization_error)

  abbrev pub after_save_model_files :
      List OutputResource → State × Reply (List NewModel) → State × Reply {0} Unit
  after_save_model_files os (s, raises e) = (s, raises e)
  after_save_model_files os (s, gives ms) =
      if calls.register_refuses ms
      then raise_again s (delete_models ms s.rows)
      else after_register_models os ms (in_orchestrator ms s)

  unfoldable pub save_models : List OutputResource → State → State × Reply {0} Unit
  save_models os s = after_save_model_files os (save_model_files os s)
