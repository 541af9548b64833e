-- ===== src/ImageTransfer.antt =====
-- backend/image_transfer: how the image of a function goes from the registry of one organization to
-- the one of another, in a zip. The registry is the one that the package dxf talks to.
pub mod Names
pub mod Encoder
pub mod Decoder
pub mod Laws
pub mod Blobs
pub mod Paths
pub mod Encoding
pub mod Manifests
pub mod Carrying
pub mod Pushing
pub mod Targets
pub mod RoundTrip
mod Examples
use substra_backend.Prelude.{
  ℕ, Bool, true, false, ◌&&◌, ◌==◌, Option, none, some, List, [], ◌∷◌, map, if◌then◌else◌,
}
use substra_backend.ImageTransfer.Names.{Text, text_eq}

-- What the code raises or lets through. An HTTPError has its status.
pub data TransferError : Type 0 where
  http_error : ℕ → TransferError
  registry_precondition_failed : TransferError
  manifest_content_error : TransferError
  manifest_not_found : TransferError
  index_error : TransferError
  key_error : TransferError
  value_error : TransferError

pub data Outcome {ℓ} (A : Type ℓ) : Type ℓ where
  failed : TransferError → Outcome A
  done : A → Outcome A

infixl 5 ◌and_then◌
abbrev pub ◌and_then◌ {ℓ κ} : {A : Type ℓ} {B : Type κ} → Outcome A → (A → Outcome B) → Outcome B
(failed e) and_then rest = failed e
(done a) and_then rest = rest a

-- What get_manifest returns: a JSON text, with the digests of its config and its layers and the rest of
-- its content, a text that is not JSON, or, for a manifest of several platforms, a dict.
pub data ManifestContent : Type 0 where
  manifest_text : ℕ → List ℕ → ℕ → ManifestContent
  malformed : ℕ → ManifestContent
  several_platforms : ManifestContent

-- A registry, as dxf offers it: the state, and the calls for a repository. An operation that changes
-- the state leaves one also where it raises.
pub record Registry : Type 1 where
  pub State : Type 0
  pub digest_of : ℕ → ℕ
  pub pull_blob : State → Text → ℕ → Outcome {0} ℕ
  pub get_manifest : State → Text → Text → Option ℕ → Outcome {0} ManifestContent
  pub push_blob : State → Text → ℕ → ℕ → State × Outcome {0} Unit
  pub mount_blob : State → Text → Text → ℕ → State × Outcome {0} Unit
  pub set_manifest : State → Text → Text → ManifestContent → State × Outcome {0} Unit

-- Blob
pub record Blob : Type 0 where
  pub digest : ℕ
  pub repository : Text

-- Manifest, with its content
pub record Manifest : Type 0 where
  pub docker_image_name : Text
  pub content : ManifestContent

-- get_list_of_blobs: the config, then the layers
unfoldable pub get_list_of_blobs : Text → ManifestContent → Outcome (List Blob)
get_list_of_blobs repository (manifest_text config layers _) =
    done (map (λ d. record { digest = d; repository = repository }) (config ∷ layers))
get_list_of_blobs repository (malformed _) = failed value_error
get_list_of_blobs repository several_platforms = failed manifest_content_error

-- The names of the members of a zip: manifests/..., blobs/... and payload_descriptor.json.
pub data Member : Type 0 where
  manifests : Text → Member
  blobs : ℕ → Member
  payload_descriptor : Member

abbrev pub same_member : Member → Member → Bool
same_member (manifests n) (manifests m) = text_eq n m
same_member (blobs d) (blobs e) = d == e
same_member payload_descriptor payload_descriptor = true
same_member _ _ = false

-- BlobPathInZip, BlobLocationInRegistry
pub data BlobPath : Type 0 where
  in_zip : Member → BlobPath
  in_registry : Text → BlobPath

-- PayloadDescriptor. The paths of the manifests keep the order of a dict.
pub record PayloadDescriptor : Type 0 where
  pub manifests_paths : List (Text × Option Member)
  pub blobs_paths : ℕ → Option BlobPath

pub data Entry : Type 0 where
  manifest_entry : ManifestContent → Entry
  blob_entry : ℕ → Entry
  descriptor_entry : PayloadDescriptor → Entry

-- What reading a member of the zip gives: of two members with one name, the one written last.
abbrev pub Zip : Type 0
Zip = Member → Option Entry

abbrev pub writestr : Member → Entry → Zip → Zip
writestr name entry zip m = if same_member m name then some entry else zip m
