-- ===== src/AssetBuffer/Examples.antt =====
-- The theorems about the asset buffer on a worker with one data manager, two data samples and a model.
use substra_backend.Prelude.{
  ℕ, String, true, if◌then◌else◌, ◌==◌, ◌≡◌, refl, Option, none, some, List, [], ◌∷◌,
}
use substra_backend.Worker.{no_space, returned}
use substra_backend.AssetBuffer.{data_samples, directory, Buffer, write, DataSampleFile, Source}
use substra_backend.AssetBuffer.Adding.{
  add_to_buffer_safe, add_datasample_internal, download, add_opener_internal, add_model_internal,
  add_asset, add_each, run_processes, add_models_to_buffer, NeededAssets, add_task_assets_to_buffer,
}
use substra_backend.AssetBuffer.Genuine.{IsGenuine}
use substra_backend.AssetBuffer.Keeping.{add_task_assets_to_buffer-IsGenuine}
use substra_backend.AssetBuffer.Presence.{
  HasNeeded, add_task_assets_to_buffer-HasNeeded, add_task_assets_to_buffer-again,
}
use substra_backend.AssetBuffer.Linking.{LinkFailures, add_assets_to_taskdir}
use substra_backend.AssetBuffer.TaskDirectory.{empty, Linked, filled, add_assets_to_taskdir-Linked}

abbrev content_of : List (String × ℕ) → ℕ
content_of [] = 0
content_of ((name, content) ∷ es) = content

abbrev data_sample_row : ℕ → Option DataSampleFile
data_sample_row key =
    some (record { archive = some key; path = 0; checksum = if key == 3 then 4 else key })

-- Each file has its key as its content, and its content as its checksum; the data sample 3 is broken.
abbrev source : Source
source = record {
  data_sample = data_sample_row;
  servermedias = λ path. none;
  storage_in_servermedias = true;
  uncompress = λ content. (some (directory (("data", content) ∷ [])), returned tt);
  copytree = λ entries. (some (directory entries), returned tt);
  request = λ uri. returned (uri, none);
  dirhash = content_of;
  sha256 = λ content salt. content;
  opener = λ key. record { uri = key; checksum = key; salt = none };
  model = λ key. record { uri = key; checksum = key; salt = some 8 };
  lock = λ folder key. none;
}

abbrev needs : NeededAssets
needs = record { data_sample_keys = 1 ∷ 2 ∷ []; data_manager = some 5; input_models = 7 ∷ [] }

empty-IsGenuine : IsGenuine source empty
empty-IsGenuine = record { genuine = λ folder key. refl }

brought : (add_task_assets_to_buffer source needs empty).1 ≡ returned tt
unfolding add_to_buffer_safe add_datasample_internal download add_opener_internal add_model_internal
    add_asset add_each run_processes add_models_to_buffer add_task_assets_to_buffer
brought = refl

has_needed : HasNeeded needs (filled source needs empty)
has_needed = add_task_assets_to_buffer-HasNeeded source needs empty brought

add_task_assets_to_buffer-IsGenuine_example :
    IsGenuine source (add_task_assets_to_buffer source needs empty).0
add_task_assets_to_buffer-IsGenuine_example =
    add_task_assets_to_buffer-IsGenuine source needs empty empty-IsGenuine

add_task_assets_to_buffer-again_example :
    add_task_assets_to_buffer source needs (filled source needs empty)
    ≡ (filled source needs empty, returned tt)
add_task_assets_to_buffer-again_example =
    add_task_assets_to_buffer-again source needs empty (filled source needs empty) brought
      has_needed

-- Only the data sample 9 cannot be linked, as no space is left.
abbrev linking : LinkFailures
linking folder key = if key == 9 then some (none, no_space) else none

add_assets_to_taskdir-Linked_example :
    ((add_assets_to_taskdir linking (filled source needs empty) needs empty).1 ≡ returned tt)
    × Linked
        (filled source needs empty)
        needs
        (add_assets_to_taskdir linking (filled source needs empty) needs empty).0
add_assets_to_taskdir-Linked_example =
    add_assets_to_taskdir-Linked source needs empty linking
      ((refl, (refl, tt)), (refl, tt), (refl, tt)) brought empty-IsGenuine refl

-- A buffer with the data sample 1.
abbrev with_one : Buffer
with_one = write data_samples 1 (some (directory (("data", 1) ∷ []))) empty
