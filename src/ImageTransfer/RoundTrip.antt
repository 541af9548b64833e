-- ===== src/ImageTransfer/RoundTrip.antt =====
-- That an image that backend/image_transfer puts into a zip arrives in the registry where the zip is
-- pushed to.
use substra_backend.Prelude.{
  ℕ, Bool, ◌≡◌, refl, sym, ap, ◌∙◌, subst, inl, inr, Option, none, List, [], ◌∷◌, ◌++◌, All,
  All-map, In,
}
use substra_backend.ImageTransfer.Names.{
  Text, colon, get_repo_and_tag, get_repo_and_tag-join, normalize_name,
}
use substra_backend.ImageTransfer.{
  Outcome, done, ManifestContent, Registry, manifests, BlobPath, Zip,
}
use substra_backend.ImageTransfer.Encoder.{Paths, fetch, create_zip_from_docker_images}
use substra_backend.ImageTransfer.Decoder.{
  load_single_image_from_zip_in_registry, go_on, after_reading, target, load_image, load_images,
  load_zip_images_in_registry,
}
use substra_backend.ImageTransfer.Laws.{HasBlob, IsLawful}
use substra_backend.ImageTransfer.Blobs.{done-injective, Stored}
use substra_backend.ImageTransfer.Paths.{path_of, names, OwnPaths}
use substra_backend.ImageTransfer.Carrying.{DifferentNames, Carried, Holds, create_zip-Holds}
use substra_backend.ImageTransfer.Pushing.{digests_of, IsText, Loaded, load_single-Loaded}
use substra_backend.ImageTransfer.Targets.{
  listed-IsText, All-digests, Named, DifferentTargets, fetched-Named,
}

In-cons {ℓ} :
    (P : Text → Type ℓ) (i : Text) (xs : List Text)
    → P i
    → ((j : Text) → In j xs → P j)
    → (j : Text) → In j (i ∷ xs)
    → P j
In-cons P i xs here later j (inl same) = subst P (sym same) here
In-cons P i xs here later j (inr h) = later j h

module _ (src : Registry) (at_src : src.State) (platform : Option ℕ) where
  -- The image is in the registry as it is in the one where it comes from: its manifest under its name,
  -- and in its repository each blob that the manifest lists, with a content that has the digest.
  pub record Arrived (dst : Registry) (s : dst.State) (repository : Option Text) (image : Text)
      : Type 0 where
    pub named : Named repository image
    pub content : ManifestContent
    pub got : fetch src at_src platform image ≡ done content
    pub is_text : IsText content
    pub set : dst.get_manifest s named.repo named.tag none ≡ done content
    pub has : All (HasBlob dst s named.repo) (digests_of content)

  module _ (dst : Registry) (laws : IsLawful dst) (repository : Option Text) (images : List Text)
      (zip : Zip) (blobs_paths : ℕ → Option BlobPath) (apart : DifferentTargets repository images)
      (same_digests : (c : ℕ) → src.digest_of c ≡ dst.digest_of c) where
    -- What the load of an image of the zip leaves of the ones that arrived before.
    record LoadedImage (i : Text) (s : dst.State) (end_ : dst.State × Outcome {0} Unit)
        : Type 0 where
      returns : end_.1 ≡ done tt
      arrived : Arrived dst end_.0 repository i
      keeps :
          (j : Text) → In j images → Arrived dst s repository j → Arrived dst end_.0 repository j

    Stored-dst : (d : ℕ) → Stored src zip blobs_paths d → Stored dst zip blobs_paths d
    Stored-dst d st = record {
      located = st.located;
      content = st.content;
      entry = st.entry;
      has_digest = sym (same_digests st.content) ∙ st.has_digest;
    }

    module _ (i : Text) (inside : In i images) (c : Carried src at_src platform zip blobs_paths i)
        (s : dst.State) where
      abbrev to : Named repository i
      to = fetched-Named src at_src platform repository i c.content c.got

      -- What arrived under the same name is the same image.
      same_content :
          (j : Text)
          → In j images
          → (a : Arrived dst s repository j) → a.named.repo ≡ to.repo
          → a.named.tag ≡ to.tag
          → c.content ≡ a.content
      same_content j inside_j a same_repo same_tag =
          let same_name : a.named.name ≡ to.name =
            get_repo_and_tag-join a.named.name a.named.repo a.named.tag a.named.split
            ∙ ap (λ r. r ++ (colon ∷ a.named.tag)) same_repo
            ∙ ap (λ t. to.repo ++ (colon ∷ t)) same_tag
            ∙ sym (get_repo_and_tag-join to.name to.repo to.tag to.split) in
          let same_target = a.named.targeted ∙ ap (λ n. done n) same_name ∙ sym to.targeted in
          let same_image = apart.apart j i inside_j inside same_target in
          done-injective _ _ (sym c.got ∙ ap (fetch src at_src platform) (sym same_image) ∙ a.got)

      Arrived-kept :
          (end_ : dst.State × Outcome {0} Unit)
          → Loaded dst laws zip blobs_paths to.repo to.tag c.content s end_
          → (j : Text) → In j images
          → Arrived dst s repository j
          → Arrived dst end_.0 repository j
      Arrived-kept end_ loaded j inside_j a = record {
        named = a.named;
        content = a.content;
        got = a.got;
        is_text = a.is_text;
        set = elim (loaded.others a.named.repo a.named.tag) [
          | inr same ↦ same ∙ a.set
          | inl (same_repo, same_tag) ↦
              rw (same_repo, same_tag)
                (loaded.set ∙ ap (λ x. done x) (same_content j inside_j a same_repo same_tag))
        ];
        has = All-map (λ d b. loaded.keeps a.named.repo d b) (digests_of a.content) a.has;
      }

      load_image-LoadedImage :
          (strict : Bool)
          → LoadedImage i s (
              after_reading dst
                (target repository i)
                (load_image dst zip blobs_paths strict (path_of i))
                s)
      load_image-LoadedImage strict =
          let end_ =
            load_single_image_from_zip_in_registry dst zip to.name (manifests (normalize_name i))
              blobs_paths s in
          let text = listed-IsText (get_repo_and_tag i).0 c.content c.found c.listed in
          let digests =
            All-digests (Stored src zip blobs_paths) (get_repo_and_tag i).0 c.content c.found
              c.listed c.stored in
          let loaded =
            load_single-Loaded dst laws zip blobs_paths to.name to.repo to.tag
              (manifests (normalize_name i)) c.content s c.entry text to.split
              (All-map Stored-dst (digests_of c.content) digests) in
          let one : LoadedImage i s end_ = record {
            returns = loaded.returns;
            arrived = record {
              named = to;
              content = c.content;
              got = c.got;
              is_text = text;
              set = loaded.set;
              has = loaded.has;
            };
            keeps = Arrived-kept end_ loaded;
          } in
          subst
            (λ t.
              LoadedImage i s
                (after_reading dst t (load_image dst zip blobs_paths strict (path_of i)) s))
            (sym to.targeted) one

    -- The loads of all images of the dict.
    record LoadedAll (ps : Paths) (s : dst.State) (end_ : dst.State × Outcome {0} Unit)
        : Type 0 where
      pub returns : end_.1 ≡ done tt
      pub arrived : (i : Text) → In i (names ps) → Arrived dst end_.0 repository i
      pub keeps :
          (j : Text) → In j images → Arrived dst s repository j → Arrived dst end_.0 repository j

    load_images-LoadedAll :
        (strict : Bool) (ps : Paths) (s : dst.State)
        → OwnPaths ps
        → ((i : Text) → In i (names ps) → In i images)
        → ((i : Text) → In i images → Carried src at_src platform zip blobs_paths i)
        → LoadedAll ps s (load_images dst zip blobs_paths strict repository ps s)
    unfolding load_images
    load_images-LoadedAll strict [] s own inside carried = record {
      returns = refl;
      arrived = λ i h. absurd h;
      keeps = λ j h a. a;
    }
    load_images-LoadedAll strict ((i, path) ∷ ps) s own inside carried =
        let step =
          after_reading dst (target repository i) (load_image dst zip blobs_paths strict path) s in
        let one : LoadedImage i s step =
          subst
            (λ p.
              LoadedImage i s (
                after_reading dst (target repository i) (load_image dst zip blobs_paths strict p)
                  s))
            (sym own.0)
            (load_image-LoadedImage i (inside i (inl refl)) (carried i (inside i (inl refl))) s
              strict) in
        let rest = load_images-LoadedAll strict ps step.0 own.1 (λ j h. inside j (inr h)) carried in
        let end_ = load_images dst zip blobs_paths strict repository ps step.0 in
        let whole : LoadedAll ((i, path) ∷ ps) s end_ = record {
          returns = rest.returns;
          arrived =
              In-cons (λ j. Arrived dst end_.0 repository j) i (names ps)
                (rest.keeps i (inside i (inl refl)) one.arrived) rest.arrived;
          keeps = λ j h a. rest.keeps j h (one.keeps j h a);
        } in
        subst
          (λ r.
            LoadedAll ((i, path) ∷ ps) s
              (go_on dst r step.0 (load_images dst zip blobs_paths strict repository ps)))
          (sym one.returns) whole

-- Two registries, and what is asked of the names of the images.
module _ (src dst : Registry) (src_laws : IsLawful src) (dst_laws : IsLawful dst)
    (same_digests : (c : ℕ) → src.digest_of c ≡ dst.digest_of c) (at_src : src.State)
    (platform : Option ℕ) (at_dst : dst.State) (repository : Option Text) (strict : Bool)
    (images : List Text) (differ : DifferentNames images)
    (apart : DifferentTargets repository images) (zip : Zip)
    (made : create_zip_from_docker_images src at_src platform images [] ≡ done zip) where
  abbrev end_ : dst.State × Outcome {0} Unit
  end_ = load_zip_images_in_registry dst zip strict repository at_dst

  holds : Holds src at_src platform images zip
  holds = create_zip-Holds src at_src platform images differ (src_laws.pull_digest at_src) zip made

  loaded_all :
      LoadedAll src at_src platform dst dst_laws repository images zip holds.descriptor.blobs_paths
        apart same_digests holds.descriptor.manifests_paths at_dst end_
  unfolding load_zip_images_in_registry
  loaded_all = rw holds.described (
      load_images-LoadedAll src at_src platform dst dst_laws repository images zip
        holds.descriptor.blobs_paths apart same_digests strict holds.descriptor.manifests_paths
        at_dst holds.own_paths holds.only holds.carried)

  -- Where the payload of some images is made of a registry, with none of them transferred before, the
  -- load of this payload in another registry, whatever it holds, returns, and each of the images has then
  -- arrived: its manifest can be got under its repository and its tag as it was got where it comes from,
  -- and each blob that the manifest lists can be pulled, with a content of this digest. Conditions: no
  -- two images have one normalized name, and no two arrive under one name; the registries address blobs
  -- by one digest of their content, and keep what is pushed to them.
  pub load_zip_images_in_registry-Arrived :
      (image : Text)
      → In image images
      → (end_.1 ≡ done tt) × Arrived src at_src platform dst end_.0 repository image
  load_zip_images_in_registry-Arrived image inside =
      (loaded_all.returns, loaded_all.arrived image (holds.covers image inside))
