-- ===== src/ImageTransfer/Carrying.antt =====
-- What the zip holds that `create_zip_from_docker_images` of backend/image_transfer/encoder.py makes.
use substra_backend.Prelude.{
  ℕ, ◌≡◌, refl, sym, ap, ◌∙◌, subst, inl, inr, Option, none, some, List, [], ◌∷◌, map, All, All-map,
  In,
}
use substra_backend.ImageTransfer.Names.{Text, normalize_name, get_repo_and_tag}
use substra_backend.ImageTransfer.{
  done, ManifestContent, Registry, Blob, Manifest, get_list_of_blobs, manifests, payload_descriptor,
  BlobPath, PayloadDescriptor, manifest_entry, descriptor_entry, Zip, writestr,
}
use substra_backend.ImageTransfer.Encoder.{
  Paths, from_images, fetch, get_manifests_and_list_of_all_blobs, write_manifests, empty_zip,
  create_zip_from_docker_images,
}
use substra_backend.ImageTransfer.Blobs.{
  and_then-done, done-injective, Stored, Step, add_blobs_to_zip-Step,
}
use substra_backend.ImageTransfer.Paths.{
  names, OwnPaths, from_images-OwnPaths, from_images-In, from_images_only, get_images-names,
  get_path-own,
}
use substra_backend.ImageTransfer.Encoding.{OwnContents, AllFetched, get_all-AllFetched}
use substra_backend.ImageTransfer.Manifests.{
  Agrees, RightPaths, write_manifests-Written, write_manifests_blobs,
}

-- No two of the images have one normalized name.
pub record DifferentNames (images : List Text) : Type 0 where
  pub different :
      (i j : Text) → In i images → In j images → normalize_name i ≡ normalize_name j → i ≡ j

module _ (registry : Registry) (s : registry.State) (platform : Option ℕ) where
  -- The zip has the manifest of the image, and each of its blobs.
  pub record Carried (zip : Zip) (blobs_paths : ℕ → Option BlobPath) (image : Text) : Type 0 where
    pub content : ManifestContent
    pub found : List Blob
    pub got : fetch registry s platform image ≡ done content
    pub listed : get_list_of_blobs (get_repo_and_tag image).0 content ≡ done found
    pub entry : zip (manifests (normalize_name image)) ≡ some (manifest_entry content)
    pub stored : All (λ b. Stored registry zip blobs_paths b.digest) found

  pub record Holds (images : List Text) (zip : Zip) : Type 0 where
    pub descriptor : PayloadDescriptor
    pub described : zip payload_descriptor ≡ some (descriptor_entry descriptor)
    pub own_paths : OwnPaths descriptor.manifests_paths
    pub only : (i : Text) → In i (names descriptor.manifests_paths) → In i images
    pub covers : (i : Text) → In i images → In i (names descriptor.manifests_paths)
    pub carried : (i : Text) → In i images → Carried zip descriptor.blobs_paths i

  module _ (images : List Text) (differ : DifferentNames images) where
    same_content :
        (m n : Manifest)
        → fetch registry s platform m.docker_image_name ≡ done m.content
        → fetch registry s platform n.docker_image_name ≡ done n.content
        → m.docker_image_name ≡ n.docker_image_name
        → m.content ≡ n.content
    same_content m n p q e = done-injective _ _ (sym p ∙ ap (fetch registry s platform) e ∙ q)

    OwnContents-Agrees :
        (m : Manifest) (ms : List Manifest)
        → ((i : Text) → In i (map (λ n. n.docker_image_name) ms) → In i images)
        → OwnContents registry s platform ms
        → In m.docker_image_name images
        → fetch registry s platform m.docker_image_name ≡ done m.content
        → Agrees m ms
    OwnContents-Agrees m [] inside own i p = tt
    OwnContents-Agrees m (n ∷ ms) inside own i p = (
      λ e. same_content m n p own.0 (differ.different _ _ i (inside _ (inl refl)) e),
      OwnContents-Agrees m ms (λ x h. inside x (inr h)) own.1 i p,
    )

    all_RightPaths :
        (paths : Paths) (ms : List Manifest)
        → OwnPaths paths
        → ((i : Text) → In i (map (λ n. n.docker_image_name) ms) → In i (names paths))
        → RightPaths paths ms
    all_RightPaths paths [] own inside = tt
    all_RightPaths paths (n ∷ ms) own inside = (
      get_path-own paths n.docker_image_name own (inside _ (inl refl)),
      all_RightPaths paths ms own (λ x h. inside x (inr h)),
    )

    module _
        (pull_digest : (r : Text) (d c : ℕ)
          → registry.pull_blob s r d ≡ done c
          → registry.digest_of c ≡ d) where
      abbrev paths : Paths
      paths = from_images images [] []

      paths-OwnPaths : OwnPaths paths
      paths-OwnPaths = from_images-OwnPaths images [] tt

      within : (i : Text) → In i (names paths) → In i images
      within i h = elim (from_images_only images [] i h) [
        | inl here ↦ here
        | inr never ↦ absurd never
      ]

      module _ (ms : List Manifest) (bs : List Blob)
          (all_read : AllFetched registry s platform (names paths) ms bs) (zip written : Zip)
          (blobs_paths : ℕ → Option BlobPath)
          (step : Step registry s platform pull_digest
            (map (λ b. b.digest) bs)
            empty_zip
            (λ d. none)
            (zip, blobs_paths))
          (wrote : write_manifests ms paths zip ≡ done written) where
        abbrev finished : Zip
        finished =
            writestr payload_descriptor
              (descriptor_entry (record { manifests_paths = paths; blobs_paths = blobs_paths }))
              written

        right : RightPaths paths ms
        right = all_RightPaths paths ms paths-OwnPaths (λ i h. subst (In i) all_read.named h)

        Stored-finished :
            (d : ℕ) → Stored registry zip blobs_paths d → Stored registry finished blobs_paths d
        Stored-finished d st = record {
          located = st.located;
          content = st.content;
          entry = write_manifests_blobs ms paths zip written d right wrote ∙ st.entry;
          has_digest = st.has_digest;
        }

        each-Carried : (i : Text) → In i images → Carried finished blobs_paths i
        each-Carried i h =
            let f = all_read.fetched i (from_images-In images [] i h) in
            let m : Manifest = record { docker_image_name = i; content = f.content } in
            record {
              content = f.content;
              found = f.found;
              got = f.got;
              listed = f.listed;
              entry =
                  write_manifests-Written ms paths zip written m right wrote
                    (OwnContents-Agrees m ms (λ x e. within x (subst (In x) all_read.named e))
                      all_read.own_contents h f.got)
                    f.manifest_in;
              stored =
                  f.digests_in (Stored registry finished blobs_paths)
                    (All-map Stored-finished _ step.own);
            }

        finished-Holds : Holds images finished
        finished-Holds = record {
          descriptor = record { manifests_paths = paths; blobs_paths = blobs_paths };
          described = refl;
          own_paths = paths-OwnPaths;
          only = within;
          covers = from_images-In images [];
          carried = each-Carried;
        }

      pub create_zip-Holds :
          (zip : Zip)
          → create_zip_from_docker_images registry s platform images [] ≡ done zip
          → Holds images zip
      unfolding create_zip_from_docker_images get_manifests_and_list_of_all_blobs
      create_zip-Holds zip h =
          let ((ms, bs), one, rest) = and_then-done _ _ h in
          let ((blobs_zip, blobs_paths), two, rest2) = and_then-done _ _ rest in
          let (written, three, e) = and_then-done _ _ rest2 in
          let all_read = get_all-AllFetched registry s platform (names paths) ms bs (
            subst (λ x. get_manifests_and_list_of_all_blobs registry s platform x ≡ done (ms, bs))
              (get_images-names paths paths-OwnPaths) one) in
          let step =
            add_blobs_to_zip-Step registry s platform pull_digest bs empty_zip (λ d. none)
              (blobs_zip, blobs_paths) (record { stored = λ d. inl refl }) two in
          subst (Holds images) (done-injective _ _ e)
            (finished-Holds ms bs all_read blobs_zip written blobs_paths step three)
