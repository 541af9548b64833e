-- ===== src/ImageTransfer/Encoder.antt =====
-- backend/image_transfer/encoder.py: how the zip is made from the images of a registry.
use substra_backend.Prelude.{
  ℕ, ◌==◌, Option, none, some, List, [], ◌∷◌, ◌++◌, any, if◌then◌else◌, is_some,
}
use substra_backend.ImageTransfer.Names.{Text, text_eq, normalize_name, get_repo_and_tag}
use substra_backend.ImageTransfer.{
  TransferError, http_error, registry_precondition_failed, index_error, key_error, Outcome, failed,
  done, ◌and_then◌, ManifestContent, Registry, Blob, Manifest, get_list_of_blobs, Member, manifests,
  blobs, payload_descriptor, BlobPath, in_zip, in_registry, manifest_entry, blob_entry,
  descriptor_entry, Zip, writestr,
}

abbrev pub Paths : Type 0
Paths = List (Text × Option Member)

-- manifests_paths[name] = path
unfoldable pub set_path : Text → Option Member → Paths → Paths
set_path name path [] = (name, path) ∷ []
set_path name path ((other, p) ∷ ps) =
    if text_eq other name then (other, path) ∷ ps else (other, p) ∷ set_path name path ps

-- manifests_paths[name], which may raise a KeyError
unfoldable pub get_path : Text → Paths → Option (Option Member)
get_path name [] = none
get_path name ((other, p) ∷ ps) = if text_eq other name then some p else get_path name ps

-- The loop of PayloadDescriptor.from_images.
unfoldable pub from_images : List Text → List Text → Paths → Paths
from_images [] already paths = paths
from_images (image ∷ images) already paths = from_images images already (
    set_path image
      (if any (λ n. text_eq n image) already then none else some (manifests (normalize_name image)))
      paths)

unfoldable pub get_images_not_transferred_yet : Paths → List Text
get_images_not_transferred_yet [] = []
get_images_not_transferred_yet ((image, none) ∷ ps) = get_images_not_transferred_yet ps
get_images_not_transferred_yet ((image, some _) ∷ ps) = image ∷ get_images_not_transferred_yet ps

-- get_blob_with_same_digest
unfoldable pub get_blob_with_same_digest : List Blob → ℕ → Option Blob
get_blob_with_same_digest [] digest = none
get_blob_with_same_digest (b ∷ bs) digest =
    if b.digest == digest then some b else get_blob_with_same_digest bs digest

-- except HTTPError: a status of 412 is a failed check for vulnerabilities
abbrev pub convert_error : TransferError → TransferError
convert_error (http_error status) =
    if status == 412 then registry_precondition_failed else http_error status
convert_error e = e

abbrev pub convert_412 {ℓ} : {A : Type ℓ} → Outcome A → Outcome A
convert_412 (failed e) = failed (convert_error e)
convert_412 (done a) = done a

module _ (registry : Registry) (s : registry.State) (platform : Option ℕ) where
  -- Manifest.content, on the side of the encoder
  abbrev pub content_at : Text × Option Text → Outcome {0} ManifestContent
  content_at (repo, none) = failed index_error
  content_at (repo, some tag) = registry.get_manifest s repo tag platform

  unfoldable pub fetch : Text → Outcome {0} ManifestContent
  fetch image = content_at (get_repo_and_tag image)

  unfoldable pub get_manifest_and_list_of_blobs_to_pull : Text → Outcome (Manifest × List Blob)
  get_manifest_and_list_of_blobs_to_pull image = fetch image and_then (λ content.
      get_list_of_blobs (get_repo_and_tag image).0 content
      and_then (λ found. done (record { docker_image_name = image; content = content }, found)))

  unfoldable pub get_manifests_and_list_of_all_blobs :
      List Text → Outcome (List Manifest × List Blob)
  get_manifests_and_list_of_all_blobs [] = done ([], [])
  get_manifests_and_list_of_all_blobs (image ∷ images) =
      let rest = get_manifests_and_list_of_all_blobs images in
      convert_412 (get_manifest_and_list_of_blobs_to_pull image)
      and_then (λ (manifest, found). rest and_then (λ (ms, bs). done (manifest ∷ ms, found ++ bs)))

  -- download_blob_to_zip
  unfoldable pub download_blob_to_zip : Blob → Zip → Outcome (Zip × Member)
  download_blob_to_zip blob zip =
      registry.pull_blob s blob.repository blob.digest and_then (λ content.
        done (writestr (blobs blob.digest) (blob_entry content) zip, blobs blob.digest))

  abbrev pub BlobPaths : Type 0
  BlobPaths = ℕ → Option BlobPath

  abbrev pub set_blob_path : ℕ → BlobPath → BlobPaths → BlobPaths
  set_blob_path digest path paths d = if d == digest then some path else paths d

  -- The nominal case of the loop of add_blobs_to_zip, and the case of a blob that was transferred already.
  abbrev pub locate_blob : Option Blob → Blob → Zip × BlobPaths → Outcome (Zip × BlobPaths)
  locate_blob (some dest) blob (zip, paths) =
      done (zip, set_blob_path blob.digest (in_registry dest.repository) paths)
  locate_blob none blob (zip, paths) =
      download_blob_to_zip blob zip
      and_then (λ (written, path). done (written, set_blob_path blob.digest (in_zip path) paths))

  unfoldable pub add_blob : List Blob → Blob → Zip × BlobPaths → Outcome (Zip × BlobPaths)
  add_blob already blob (zip, paths) =
      if is_some (paths blob.digest)
      then done (zip, paths)
      else locate_blob (get_blob_with_same_digest already blob.digest) blob (zip, paths)

  unfoldable pub add_blobs_to_zip :
      List Blob → List Blob → Zip × BlobPaths → Outcome (Zip × BlobPaths)
  add_blobs_to_zip [] already state = done state
  add_blobs_to_zip (blob ∷ bs) already state =
      add_blob already blob state and_then (λ next_state. add_blobs_to_zip bs already next_state)

-- The path of a manifest in the zip; writestr raises for None.
abbrev pub write_at : Option (Option Member) → ManifestContent → Zip → Outcome Zip
write_at (some (some path)) content zip = done (writestr path (manifest_entry content) zip)
write_at _ content zip = failed key_error

unfoldable pub write_manifests : List Manifest → Paths → Zip → Outcome Zip
write_manifests [] paths zip = done zip
write_manifests (manifest ∷ ms) paths zip =
    write_at (get_path manifest.docker_image_name paths) manifest.content zip
    and_then (λ written. write_manifests ms paths written)

abbrev pub empty_zip : Zip
empty_zip member = none

module _ (registry : Registry) (s : registry.State) (platform : Option ℕ) where
  unfoldable pub create_zip_from_docker_images : List Text → List Text → Outcome Zip
  create_zip_from_docker_images to_transfer already =
      let paths = from_images to_transfer already [] in
      get_manifests_and_list_of_all_blobs registry s platform (get_images_not_transferred_yet paths)
      and_then (λ (ms, to_pull).
          get_manifests_and_list_of_all_blobs registry s platform already
          and_then (λ (_, transferred).
              add_blobs_to_zip registry s platform to_pull transferred (empty_zip, λ digest. none)
              and_then (λ (zip, blobs_paths). write_manifests ms paths zip and_then (λ written.
                  done (
                    writestr payload_descriptor
                      (descriptor_entry
                        (record { manifests_paths = paths; blobs_paths = blobs_paths }))
                      written)))))
