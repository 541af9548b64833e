-- ===== src/Registration.antt =====
-- backend/api/views/datasample.py: how new data samples are registered. The calls of the view are not in
-- one transaction, so each change of a table stands, whatever is raised behind it.
pub mod Rows
pub mod Creating
mod Examples
use substra_backend.Prelude.{
  ℕ, Bool, true, false, ◌&&◌, not, ◌==◌, Option, none, some, List, [], ◌∷◌, ◌++◌, length, filter,
  count, any, if◌then◌else◌, is_some,
}

pub data CreationError : Type 0 where
  validation_error : CreationError
  bad_request : CreationError
  key_error : CreationError
  other_error : ℕ → CreationError

pub data Reply {ℓ} (A : Type ℓ) : Type ℓ where
  raises : CreationError → Reply A
  gives : A → Reply A

-- What `_get_files` yields for a file, with the key that its row gets (uuid4).
pub record FileData : Type 0 where
  pub new_key : ℕ
  pub content : ℕ
  pub checksum : ℕ

-- A row of substrapp.models.DataSample.
pub record FileRow : Type 0 where
  pub key : ℕ
  pub stored : ℕ
  pub checksum : ℕ

-- What the orchestrator answers for a sample, and a row of api.models.DataSample.
pub record ApiData : Type 0 where
  pub key : ℕ
  pub metadata : ℕ

-- The tables: the files of the data samples, the data samples of the API, and the data managers.
pub record Tables : Type 0 where
  pub files : List FileRow
  pub samples : List ApiData
  pub data_managers : List ℕ

-- What the view calls: the serializers, the storage and the orchestrator.
pub record Calls : Type 0 where
  pub is_valid : FileData → Bool
  pub save_fails : FileData → Bool
  pub register_datasamples : List FileRow → List ℕ → Reply (List ApiData)
  -- an error in another field than the key
  pub has_other_errors : ApiData → Bool
  -- what the insertion of a valid sample raises
  pub save_raises : ApiData → Option CreationError

-- check_datamanagers
unfoldable pub check_datamanagers : List ℕ → Tables → Reply {0} Unit
check_datamanagers [] db = raises bad_request
check_datamanagers (k ∷ ks) db =
    if count (λ d. any (λ j. j == d) (k ∷ ks)) db.data_managers == length (k ∷ ks)
    then gives tt
    else raises bad_request

abbrev pub row_of : FileData → FileRow
row_of f = record { key = f.new_key; stored = f.content; checksum = f.checksum }

-- instance.delete()
abbrev pub remove : ℕ → List FileRow → List FileRow
remove key rows = filter (λ r. not (r.key == key)) rows

-- for instance in instances.values(): instance.delete()
unfoldable pub delete_instances : List FileRow → List FileRow → List FileRow
delete_instances [] rows = rows
delete_instances (i ∷ is) rows = delete_instances is (remove i.key rows)

abbrev pub with_files : List FileRow → Tables → Tables
with_files rows db = record { files = rows; samples = db.samples; data_managers = db.data_managers }

module _ (calls : Calls) where
  -- _db_create
  unfoldable pub db_create : FileData → Reply FileRow
  db_create f =
      if not (calls.is_valid f)
      then raises validation_error
      else (if calls.save_fails f then raises bad_request else gives (row_of f))

  -- What the generator yields, or the exception that it raises, and the row that is made of it.
  abbrev pub created : Reply FileData → Reply FileRow
  created (raises e) = raises e
  created (gives f) = db_create f

  -- The result of the loop, with one more instance.
  abbrev pub prepend :
      FileRow → List FileRow × Reply (List FileRow) → List FileRow × Reply (List FileRow)
  prepend row (after, raises e) = (after, raises e)
  prepend row (after, gives rows) = (after, gives (row ∷ rows))

  -- One turn of the loop that saves the files.
  abbrev pub save_one :
      Reply FileRow
      → List FileRow
      → (List FileRow → List FileRow × Reply (List FileRow))
      → List FileRow × Reply (List FileRow)
  save_one (raises e) rows rest = (rows, raises e)
  save_one (gives row) rows rest = prepend row (rest (row ∷ rows))

  -- The loop: the table, and the instances or an exception.
  unfoldable pub save_files :
      List (Reply FileData) → List FileRow → List FileRow × Reply (List FileRow)
  save_files [] rows = (rows, gives [])
  save_files (f ∷ fs) rows = let rest = save_files fs in save_one (created f) rows rest

  abbrev pub has_sample : ℕ → List ApiData → Bool
  has_sample key samples = any (λ s. s.key == key) samples

  abbrev pub has_file : ℕ → List FileRow → Bool
  has_file key rows = any (λ r. r.key == key) rows

  abbrev pub insert_sample :
      List FileRow → ApiData → Option CreationError → Tables → Tables × Reply {0} Unit
  insert_sample instances d (some e) db =
      (with_files (delete_instances instances db.files) db, raises e)
  insert_sample instances d none db = (
    record { files = db.files; samples = d ∷ db.samples; data_managers = db.data_managers },
    gives tt,
  )

  -- One turn of the loop of `_api_create`, with `save_if_not_exists`: only where the key is taken and no
  -- other field has an error, this is an AlreadyExistsError, which is caught; for another exception the
  -- instances are deleted. No other process inserts the sample between its validation and its insertion.
  abbrev pub save_sample : List FileRow → ApiData → Tables → Tables × Reply {0} Unit
  save_sample instances d db =
      if calls.has_other_errors d
      then (with_files (delete_instances instances db.files) db, raises validation_error)
      else if has_sample d.key db.samples
      then (db, gives tt)
      else insert_sample instances d (calls.save_raises d) db

  abbrev pub go_on :
      Reply {0} Unit → Tables → (Tables → Tables × Reply {0} Unit) → Tables × Reply {0} Unit
  go_on (raises e) db rest = (db, raises e)
  go_on (gives _) db rest = rest db

  -- instances[data["key"]]
  abbrev pub find_instance : List FileRow → ℕ → Tables → Tables × Reply {0} Unit
  find_instance instances key db =
      if has_file key instances then (db, gives tt) else (db, raises key_error)

  unfoldable pub api_create : List FileRow → List ApiData → Tables → Tables × Reply {0} Unit
  api_create instances [] db = (db, gives tt)
  api_create instances (d ∷ ds) db =
      let rest = api_create instances ds in
      let (saved, result) = save_sample instances d db in
      go_on result saved
        (λ now. let (found, known) = find_instance instances d.key now in go_on known found rest)

  abbrev pub after_registration :
      List FileRow → Reply (List ApiData) → Tables → Tables × Reply {0} Unit
  after_registration instances (raises e) db =
      (with_files (delete_instances instances db.files) db, raises e)
  after_registration instances (gives answer) db = api_create instances answer db

  -- Steps 2 and 3 of `_create`, on the instances.
  unfoldable pub register_all : List ℕ → List FileRow → Tables → Tables × Reply {0} Unit
  register_all data_manager_keys instances db =
      after_registration instances (calls.register_datasamples instances data_manager_keys) db

  abbrev pub after_saving :
      List ℕ → List FileRow × Reply (List FileRow) → Tables → Tables × Reply {0} Unit
  after_saving data_manager_keys (rows, raises e) db = (with_files rows db, raises e)
  after_saving data_manager_keys (rows, gives instances) db =
      register_all data_manager_keys instances (with_files rows db)

  -- _create
  unfoldable pub create_all : List ℕ → List (Reply FileData) → Tables → Tables × Reply {0} Unit
  create_all data_manager_keys fs db =
      go_on (check_datamanagers data_manager_keys db) db
        (λ checked. after_saving data_manager_keys (save_files fs checked.files) checked)

  -- create: what the client is told, none for an exception that the view lets through
  abbrev pub status : Reply {0} Unit → Option ℕ
  status (gives _) = some 201
  status (raises validation_error) = some 400
  status (raises e) = none

  unfoldable pub create : List ℕ → List (Reply FileData) → Tables → Tables × Option ℕ
  create data_manager_keys fs db =
      let (after, result) = create_all data_manager_keys fs db in (after, status result)
