-- ===== src/AssetBuffer/Adding.antt =====
-- The functions of backend/substrapp/compute_tasks/asset_buffer.py that fill the buffer.
use substra_backend.Prelude.{
  ℕ, String, Bool, true, false, ◌||◌, ◌==◌, Option, none, some, List, [], ◌∷◌, if◌then◌else◌,
  is_some,
}
use substra_backend.Worker.{file_not_found, other_error, Attempt, raised, returned}
use substra_backend.AssetBuffer.{
  Folder, data_samples, models, openers, same_folder, Node, file, directory, Buffer, write,
  DataSampleFile, Remote, Source, Filling, ◌and_then◌,
}

-- add_to_buffer_safe: nothing is done where the path exists; what `add_function` leaves there when it
-- raises is deleted
unfoldable pub add_to_buffer_safe : Folder → ℕ → Filling → Filling
add_to_buffer_safe folder key add_function b =
    if is_some (b folder key)
    then (b, returned tt)
    else (let (after, result) = add_function b in
        elim result [
          | returned _ ↦ (after, returned tt)
          | raised e ↦ (write folder key none after, raised e)
        ])

-- get_dir_hash, which raises for an empty directory; os.listdir raises for a file
abbrev pub get_dir_hash : (List (String × ℕ) → ℕ) → Option Node → Attempt ℕ
get_dir_hash dirhash none = raised file_not_found
get_dir_hash dirhash (some (file _)) = raised other_error
get_dir_hash dirhash (some (directory [])) = raised other_error
get_dir_hash dirhash (some (directory (entry ∷ es))) = returned (dirhash (entry ∷ es))

-- shutil.rmtree(os.path.dirname(dst))
abbrev pub remove_folder : Folder → Buffer → Buffer
remove_folder folder b f k = if same_folder f folder then none else b f k

-- proc.exitcode != 0
abbrev pub is_raised : Attempt {0} Unit → Bool
is_raised (raised e) = true
is_raised (returned _) = false

module _ (source : Source) where
  -- The content of a data sample at `dst`: from its archive, or from the servermedias, where its path
  -- must be a directory that is not empty.
  abbrev copy_servermedias : Option Node → Option Node × Attempt {0} Unit
  copy_servermedias (some (directory (entry ∷ es))) = source.copytree (entry ∷ es)
  copy_servermedias _ = (none, raised other_error)

  abbrev pub extract : DataSampleFile → Option Node × Attempt {0} Unit
  extract row = elim row.archive [
    | some content ↦ source.uncompress content
    | none ↦
        if source.storage_in_servermedias
        then copy_servermedias (source.servermedias row.path)
        else (none, raised other_error)
  ]

  -- verify checksum: on a wrong one the directory that holds `dst` is removed
  abbrev pub verify_data_sample : ℕ → DataSampleFile → Filling
  verify_data_sample key row b = elim (get_dir_hash source.dirhash (b data_samples key)) [
    | raised e ↦ (b, raised e)
    | returned checksum ↦
        if checksum == row.checksum
        then (b, returned tt)
        else (remove_folder data_samples b, raised other_error)
  ]

  unfoldable pub add_datasample_internal : ℕ → Filling
  add_datasample_internal key b = elim (source.data_sample key) [
    | none ↦ (b, raised other_error)
    | some row ↦
        let (left, result) = extract row in
        elim result [
          | raised e ↦ (write data_samples key left b, raised e)
          | returned _ ↦ verify_data_sample key row (write data_samples key left b)
        ]
  ]

  -- download: what is left at the destination, none where nothing was written or where the file was
  -- removed for its checksum, and how it ends
  unfoldable pub download : Remote → Option ℕ × Attempt {0} Unit
  download remote = elim (source.request remote.uri) [
    | raised e ↦ (none, raised e)
    | returned (content, some e) ↦ (some content, raised e)
    | returned (content, none) ↦
        if source.sha256 content remote.salt == remote.checksum
        then (some content, returned tt)
        else (none, raised other_error)
  ]

  abbrev pub opener_node : Option ℕ → Node
  opener_node none = directory []
  opener_node (some content) = directory (("opener.py", content) ∷ [])

  -- os.mkdir(dst), and the download into it
  unfoldable pub add_opener_internal : ℕ → Filling
  add_opener_internal key b =
      let (left, result) = download (source.opener key) in
      (write openers key (some (opener_node left)) b, result)

  abbrev pub model_node : Option ℕ → Option Node
  model_node none = none
  model_node (some content) = some (file content)

  unfoldable pub add_model_internal : ℕ → Filling
  add_model_internal key b =
      let (left, result) = download (source.model key) in
      (write models key (model_node left) b, result)

  -- with lock_resource(...): ...
  abbrev pub locked : Folder → ℕ → Filling → Filling
  locked folder key body b = elim (source.lock folder key) [
    | some e ↦ (b, raised e)
    | none ↦ body b
  ]

  abbrev pub add_datasample_to_buffer : ℕ → Filling
  add_datasample_to_buffer key = add_to_buffer_safe data_samples key (add_datasample_internal key)

  abbrev pub add_opener_to_buffer : ℕ → Filling
  add_opener_to_buffer key = add_to_buffer_safe openers key (add_opener_internal key)

  abbrev pub add_model_to_buffer : ℕ → Filling
  add_model_to_buffer key = add_to_buffer_safe models key (add_model_internal key)

  -- An asset under its lock.
  unfoldable pub add_asset : Folder → ℕ → Filling
  add_asset data_samples key = locked data_samples key (add_datasample_to_buffer key)
  add_asset openers key = locked openers key (add_opener_to_buffer key)
  add_asset models key = locked models key (add_model_to_buffer key)

  -- for data_sample_key in ctx.data_sample_keys
  unfoldable pub add_each : Folder → List ℕ → Filling
  add_each folder [] b = (b, returned tt)
  add_each folder (key ∷ keys) b =
      let rest = add_each folder keys in (add_asset folder key and_then rest) b

  -- The processes of `_add_models_to_buffer`, one after the other: each works on the path of its model
  -- alone, and none stops the others. The result says whether one of them failed.
  unfoldable pub run_processes : List ℕ → Buffer → Buffer × Bool
  run_processes [] b = (b, false)
  run_processes (key ∷ keys) b =
      let (after, result) = add_asset models key b in
      let (end_, failed) = run_processes keys after in (end_, is_raised result || failed)

-- delete_models_from_buffer
unfoldable pub delete_models_from_buffer : List ℕ → Buffer → Buffer
delete_models_from_buffer [] b = b
delete_models_from_buffer (key ∷ keys) b = delete_models_from_buffer keys (write models key none b)

-- if exceptions: ...
abbrev pub avoid_partial : Bool → List ℕ → Filling
avoid_partial true keys b = (delete_models_from_buffer keys b, raised other_error)
avoid_partial false keys b = (b, returned tt)

module _ (source : Source) where
  unfoldable pub add_models_to_buffer : List ℕ → Filling
  add_models_to_buffer keys b =
      let (after, failed) = run_processes source keys b in avoid_partial failed keys after

-- The assets that a task needs: what Context gives.
pub record NeededAssets : Type 0 where
  pub data_sample_keys : List ℕ
  pub data_manager : Option ℕ
  pub input_models : List ℕ

module _ (source : Source) where
  abbrev pub add_opener : Option ℕ → Filling
  add_opener none b = (b, returned tt)
  add_opener (some key) b = add_asset source openers key b

  abbrev pub add_models : List ℕ → Filling
  add_models [] b = (b, returned tt)
  add_models (key ∷ keys) b = add_models_to_buffer source (key ∷ keys) b

  unfoldable pub add_task_assets_to_buffer : NeededAssets → Filling
  add_task_assets_to_buffer ctx =
      add_each source data_samples ctx.data_sample_keys
      and_then add_opener ctx.data_manager
      and_then add_models ctx.input_models
