-- ===== src/ImageTransfer/Decoder.antt =====
-- backend/image_transfer/decoder.py: how the images of a zip are put into a registry.
use substra_backend.Prelude.{ℕ, Bool, ◌==◌, Option, none, some, List, [], ◌∷◌, ◌++◌, if◌then◌else◌}
use substra_backend.ImageTransfer.Names.{Text, colon, get_repo_and_tag}
use substra_backend.ImageTransfer.{
  http_error, manifest_not_found, index_error, key_error, value_error, Outcome, failed, done,
  ManifestContent, Registry, Blob, get_list_of_blobs, Member, payload_descriptor, BlobPath, in_zip,
  in_registry, PayloadDescriptor, Entry, manifest_entry, blob_entry, descriptor_entry, Zip,
}

-- zip_file.read, which raises a KeyError, and the decoding of what was read
abbrev pub read_manifest : Option Entry → Outcome {0} ManifestContent
read_manifest none = failed key_error
read_manifest (some (manifest_entry content)) = done content
read_manifest (some _) = failed value_error

abbrev pub read_blob : Option Entry → Outcome {0} ℕ
read_blob none = failed key_error
read_blob (some (blob_entry content)) = done content
read_blob (some _) = failed value_error

abbrev pub get_payload_descriptor : Option Entry → Outcome {0} PayloadDescriptor
get_payload_descriptor none = failed key_error
get_payload_descriptor (some (descriptor_entry d)) = done d
get_payload_descriptor (some _) = failed value_error

-- docker_image, with the repository of the organization where it is given
unfoldable pub target : Option Text → Text → Outcome Text
target none image = done image
target (some repository) image = elim (get_repo_and_tag image).1 [
  | none ↦ failed value_error
  | some tag ↦ done (repository ++ (colon ∷ tag))
]

module _ (registry : Registry) where
  -- What changes the registry: the state that it leaves, and how it ends.
  abbrev pub Pushing : Type 0
  Pushing = registry.State → registry.State × Outcome {0} Unit

  abbrev pub go_on : Outcome {0} Unit → registry.State → Pushing → registry.State × Outcome {0} Unit
  go_on (failed e) after n = (after, failed e)
  go_on (done _) after n = n after

  abbrev pub after_reading {ℓ} : {A : Type ℓ} → Outcome A → (A → Pushing) → Pushing
  after_reading (failed e) body s = (s, failed e)
  after_reading (done a) body s = body a s

  -- The body of the loop of push_all_blobs_from_manifest.
  abbrev pub push_at : Zip → Blob → Option BlobPath → Pushing
  push_at zip blob none s = (s, failed key_error)
  push_at zip blob (some (in_zip path)) s =
      after_reading (read_blob (zip path))
        (λ content after. registry.push_blob after blob.repository content blob.digest) s
  push_at zip blob (some (in_registry repository)) s =
      registry.mount_blob s blob.repository repository blob.digest

  unfoldable pub push_blobs : Zip → (ℕ → Option BlobPath) → List Blob → Pushing
  push_blobs zip blobs_paths [] s = (s, done tt)
  push_blobs zip blobs_paths (blob ∷ bs) s =
      let rest = push_blobs zip blobs_paths bs in
      let (after, result) = push_at zip blob (blobs_paths blob.digest) s in go_on result after rest

  unfoldable pub push_all_blobs_from_manifest :
      Zip → (ℕ → Option BlobPath) → Text → ManifestContent → Pushing
  push_all_blobs_from_manifest zip blobs_paths repository content =
      after_reading (get_list_of_blobs repository content) (push_blobs zip blobs_paths)

  -- dxf.set_manifest(manifest.tag, ...)
  abbrev pub set_manifest_at : Text → Option Text → ManifestContent → Pushing
  set_manifest_at repo none content s = (s, failed index_error)
  set_manifest_at repo (some tag) content s = registry.set_manifest s repo tag content

  unfoldable pub load_content : Zip → (ℕ → Option BlobPath) → Text → ManifestContent → Pushing
  load_content zip blobs_paths image content s =
      let (repo, tag) = get_repo_and_tag image in
      let (after, result) = push_all_blobs_from_manifest zip blobs_paths repo content s in
      go_on result after (set_manifest_at repo tag content)

  unfoldable pub load_single_image_from_zip_in_registry :
      Zip → Text → Member → (ℕ → Option BlobPath) → Pushing
  load_single_image_from_zip_in_registry zip image path blobs_paths =
      after_reading (read_manifest (zip path)) (load_content zip blobs_paths image)

  -- except requests.HTTPError
  abbrev pub if_missing : Bool → Outcome {0} ManifestContent → Outcome {0} Unit
  if_missing strict (failed (http_error status)) =
      if status == 404
      then (if strict then failed manifest_not_found else done tt)
      else failed (http_error status)
  if_missing strict (failed e) = failed e
  if_missing strict (done _) = done tt

  unfoldable pub check_if_the_docker_image_is_in_the_registry : Text → Bool → Pushing
  check_if_the_docker_image_is_in_the_registry image strict s =
      let (repo, tag) = get_repo_and_tag image in
      elim tag [
        | none ↦ (s, failed value_error)
        | some t ↦ (s, if_missing strict (registry.get_manifest s repo t none))
      ]

  abbrev pub load_image : Zip → (ℕ → Option BlobPath) → Bool → Option Member → Text → Pushing
  load_image zip blobs_paths strict none image =
      check_if_the_docker_image_is_in_the_registry image strict
  load_image zip blobs_paths strict (some path) image =
      load_single_image_from_zip_in_registry zip image path blobs_paths

  unfoldable pub load_images :
      Zip → (ℕ → Option BlobPath) → Bool → Option Text → List (Text × Option Member) → Pushing
  load_images zip blobs_paths strict repository [] s = (s, done tt)
  load_images zip blobs_paths strict repository ((image, path) ∷ ps) s =
      let rest = load_images zip blobs_paths strict repository ps in
      let (after, result) =
        after_reading (target repository image) (load_image zip blobs_paths strict path) s in
      go_on result after rest

  -- The state of the registry at the end, and how the iterator ends; the names that it yields are the
  -- targets of the images.
  unfoldable pub load_zip_images_in_registry : Zip → Bool → Option Text → Pushing
  load_zip_images_in_registry zip strict repository =
      after_reading (get_payload_descriptor (zip payload_descriptor)) (λ descriptor.
        load_images zip descriptor.blobs_paths strict repository descriptor.manifests_paths)
