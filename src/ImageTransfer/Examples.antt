-- ===== src/ImageTransfer/Examples.antt =====
-- Two images that go from one registry in memory to another.
use substra_backend.Prelude.{
  true, false, ◌≡◌, refl, sym, ap, ◌∙◌, inl, inr, Option, none, some, List, [], ◌∷◌, if◌then◌else◌,
  In,
}
use substra_backend.ImageTransfer.Names.{
  Text, text_eq, text_eq_refl, normalize_name, get_repo_and_tag,
}
use substra_backend.ImageTransfer.{
  Outcome, done, ManifestContent, manifest_text, get_list_of_blobs, Zip,
}
use substra_backend.ImageTransfer.Encoder.{
  set_path, get_path, from_images, get_images_not_transferred_yet, get_blob_with_same_digest, fetch,
  get_manifest_and_list_of_blobs_to_pull, get_manifests_and_list_of_all_blobs, download_blob_to_zip,
  add_blob, add_blobs_to_zip, write_manifests, create_zip_from_docker_images, empty_zip,
}
use substra_backend.ImageTransfer.Decoder.{target, load_zip_images_in_registry}
use substra_backend.ImageTransfer.Laws.{Memory, memory, memory-IsLawful}
use substra_backend.ImageTransfer.Carrying.{DifferentNames}
use substra_backend.ImageTransfer.Targets.{DifferentTargets}
use substra_backend.ImageTransfer.RoundTrip.{Arrived, load_zip_images_in_registry-Arrived}

-- "f:1", "f:2"
abbrev first : Text
first = 102 ∷ 58 ∷ 49 ∷ []

abbrev second : Text
second = 102 ∷ 58 ∷ 50 ∷ []

abbrev images : List Text
images = first ∷ second ∷ []

abbrev manifest_of : Text → Option ManifestContent
manifest_of tag =
    if text_eq tag (49 ∷ [])
    then some (manifest_text 5 (6 ∷ 7 ∷ []) 0)
    else some (manifest_text 8 (6 ∷ []) 1)

abbrev source : Memory
source = record {
  stored_blobs = λ repo digest. true;
  stored_manifests = λ repo tag. manifest_of tag;
}

abbrev nothing : Memory
nothing = record { stored_blobs = λ repo digest. false; stored_manifests = λ repo tag. none }

-- "r"
abbrev organization : Option Text
organization = some (114 ∷ [])

abbrev or_empty : Outcome Zip → Zip
or_empty (done zip) = zip
or_empty _ = empty_zip

abbrev zip : Zip
zip = or_empty (create_zip_from_docker_images memory source none images [])

made : create_zip_from_docker_images memory source none images [] ≡ done zip
unfolding create_zip_from_docker_images from_images set_path get_path get_images_not_transferred_yet
    get_blob_with_same_digest fetch get_manifest_and_list_of_blobs_to_pull
    get_manifests_and_list_of_all_blobs download_blob_to_zip add_blob add_blobs_to_zip
    write_manifests normalize_name get_repo_and_tag get_list_of_blobs
made = refl

different_texts : (s t : Text) → text_eq s t ≡ false → ¬ (s ≡ t)
different_texts s t f e = clash (sym (text_eq_refl s) ∙ ap (text_eq s) e ∙ f)
  where
    clash : ¬ (true ≡ false)
    clash h = cc

-- A function that keeps the two images apart.
images_apart :
    (f : Text → Text)
    → text_eq (f first) (f second) ≡ false
    → (i j : Text) → In i images
    → In j images
    → f i ≡ f j
    → i ≡ j
images_apart f d i j (inl a) (inl b) e = a ∙ sym b
images_apart f d i j (inr (inl a)) (inr (inl b)) e = a ∙ sym b
images_apart f d i j (inl a) (inr (inl b)) e =
    absurd (different_texts (f first) (f second) d (sym (ap f a) ∙ e ∙ ap f b))
images_apart f d i j (inr (inl a)) (inl b) e =
    absurd (different_texts (f first) (f second) d (sym (ap f b) ∙ sym e ∙ ap f a))
images_apart f d i j (inr (inr a)) m e = absurd a
images_apart f d i j (inl a) (inr (inr b)) e = absurd b
images_apart f d i j (inr (inl a)) (inr (inr b)) e = absurd b

images-DifferentNames : DifferentNames images
unfolding normalize_name
images-DifferentNames = record { different = images_apart normalize_name refl }

abbrev or_empty_text : Outcome Text → Text
or_empty_text (done name) = name
or_empty_text _ = []

images-DifferentTargets : DifferentTargets organization images
unfolding target get_repo_and_tag
images-DifferentTargets = record {
  apart = λ i j a b e.
      images_apart (λ n. or_empty_text (target organization n)) refl i j a b (ap or_empty_text e);
}

load_zip_images_in_registry-Arrived_example :
    ((load_zip_images_in_registry memory zip true organization nothing).1 ≡ done tt)
    × Arrived memory source none memory
        (load_zip_images_in_registry memory zip true organization nothing).0
        organization
        second
load_zip_images_in_registry-Arrived_example =
    load_zip_images_in_registry-Arrived memory memory memory-IsLawful memory-IsLawful (λ c. refl)
      source none nothing organization true images images-DifferentNames images-DifferentTargets zip
      made second (inr (inl refl))

-- "a/f:1" and "a_f:1" have one normalized name.
same_name : normalize_name (97 ∷ 47 ∷ first) ≡ normalize_name (97 ∷ 95 ∷ first)
unfolding normalize_name
same_name = refl
