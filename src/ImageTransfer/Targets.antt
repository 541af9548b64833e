-- ===== src/ImageTransfer/Targets.antt =====
-- The names under which the images of a zip arrive: `load_zip_images_in_registry` of
-- backend/image_transfer/decoder.py.
use substra_backend.Prelude.{
  ℕ, ◌==◌, ◌≡◌, refl, sym, ap, subst, inl, inr, Option, none, some, List, [], ◌∷◌, ◌++◌, map, All,
  In, Bool-cases,
}
use substra_backend.ImageTransfer.Names.{Text, colon, get_repo_and_tag}
use substra_backend.ImageTransfer.{
  done, ManifestContent, manifest_text, malformed, several_platforms, Registry, Blob,
  get_list_of_blobs,
}
use substra_backend.ImageTransfer.Encoder.{fetch, content_at}
use substra_backend.ImageTransfer.Decoder.{target}
use substra_backend.ImageTransfer.Blobs.{done-injective}
use substra_backend.ImageTransfer.Pushing.{digests_of, IsText}

pub listed-IsText :
    (r : Text) (m : ManifestContent) (found : List Blob)
    → get_list_of_blobs r m ≡ done found
    → IsText m
unfolding get_list_of_blobs
listed-IsText r (manifest_text config layers x) found h = tt
listed-IsText r (malformed x) found h = cc
listed-IsText r several_platforms found h = cc

pub All-digests :
    (P : ℕ → Type 0) (r : Text) (m : ManifestContent) (found : List Blob)
    → get_list_of_blobs r m ≡ done found
    → All (λ b. P b.digest) found
    → All P (digests_of m)
unfolding get_list_of_blobs
All-digests P r (manifest_text config layers x) found h a =
    go (config ∷ layers) (subst (All (λ (b : Blob). P b.digest)) (sym (done-injective _ _ h)) a)
  where
    go :
        (ds : List ℕ)
        → All (λ (b : Blob). P b.digest) (map (λ d. record { digest = d; repository = r }) ds)
        → All P ds
    go [] k = tt
    go (d ∷ ds) k = (k.0, go ds k.1)
All-digests P r (malformed x) found h a = tt
All-digests P r several_platforms found h a = tt

-- A name with a colon has a tag.
joined_tag : (r t : Text) → (u : Text) × ((get_repo_and_tag (r ++ (colon ∷ t))).1 ≡ some u)
unfolding get_repo_and_tag
joined_tag [] t = (t, refl)
joined_tag (c ∷ cs) t = elim (Bool-cases (c == colon)) [
  | inl is_colon ↦ (cs ++ (colon ∷ t), rw is_colon refl)
  | inr other ↦ let (u, h) = joined_tag cs t in (u, rw other h)
]

-- The name under which an image arrives, with its repository and its tag.
pub record Named (repository : Option Text) (image : Text) : Type 0 where
  pub name : Text
  pub repo : Text
  pub tag : Text
  pub targeted : target repository image ≡ done name
  pub split : get_repo_and_tag name ≡ (repo, some tag)

-- No two of the images arrive under one name.
pub record DifferentTargets (repository : Option Text) (images : List Text) : Type 0 where
  pub apart :
      (i j : Text) → In i images → In j images → target repository i ≡ target repository j → i ≡ j

module _ (src : Registry) (at_src : src.State) (platform : Option ℕ) where
  fetched_tag :
      (image : Text) (content : ManifestContent)
      → fetch src at_src platform image ≡ done content
      → (u : Text) × ((get_repo_and_tag image).1 ≡ some u)
  unfolding fetch
  fetched_tag image content h = go (get_repo_and_tag image) h
    where
      go :
          (p : Text × Option Text)
          → content_at src at_src platform p ≡ done content
          → (u : Text) × (p.1 ≡ some u)
      go (r, none) k = cc
      go (r, some u) k = (u, refl)

  pub fetched-Named :
      (repository : Option Text) (image : Text) (content : ManifestContent)
      → fetch src at_src platform image ≡ done content
      → Named repository image
  unfolding target
  fetched-Named none image content h =
      let (u, tagged) = fetched_tag image content h in
      record {
        name = image;
        repo = (get_repo_and_tag image).0;
        tag = u;
        targeted = refl;
        split = ap (λ t. ((get_repo_and_tag image).0, t)) tagged;
      }
  fetched-Named (some r) image content h =
      let (u, tagged) = fetched_tag image content h in
      let name = r ++ (colon ∷ u) in
      let (t, retagged) = joined_tag r u in
      record {
        name = name;
        repo = (get_repo_and_tag name).0;
        tag = t;
        targeted = rw (tagged, target) refl;
        split = ap (λ x. ((get_repo_and_tag name).0, x)) retagged;
      }
