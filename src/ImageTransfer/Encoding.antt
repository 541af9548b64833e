-- ===== src/ImageTransfer/Encoding.antt =====
-- What `get_manifests_and_list_of_all_blobs` of backend/image_transfer/encoder.py reads.
use substra_backend.Prelude.{
  ℕ, ◌≡◌, refl, sym, ap, ◌∙◌, subst, inl, inr, Option, List, [], ◌∷◌, ◌++◌, map, All, In,
}
use substra_backend.ImageTransfer.Names.{Text, get_repo_and_tag}
use substra_backend.ImageTransfer.{
  Outcome, failed, done, ManifestContent, Registry, Blob, Manifest, get_list_of_blobs,
}
use substra_backend.ImageTransfer.Encoder.{
  convert_412, fetch, get_manifest_and_list_of_blobs_to_pull, get_manifests_and_list_of_all_blobs,
}
use substra_backend.ImageTransfer.Blobs.{and_then-done, done-injective}

convert_412-done {ℓ} : {A : Type ℓ} (o : Outcome A) {a : A} → convert_412 o ≡ done a → o ≡ done a
convert_412-done (failed e) h = cc
convert_412-done (done a) h = h

All-append :
    (P : ℕ → Type 0) (xs ys : List Blob)
    → All P (map (λ b. b.digest) (xs ++ ys))
    → All (λ b. P b.digest) xs × All P (map (λ b. b.digest) ys)
All-append P [] ys h = (tt, h)
All-append P (x ∷ xs) ys h = let (l, r) = All-append P xs ys h.1 in ((h.0, l), r)

module _ (registry : Registry) (s : registry.State) (platform : Option ℕ) where
  -- The image was read from the registry, and its manifest and its blobs are in the lists.
  pub record Fetched (image : Text) (ms : List Manifest) (bs : List Blob) : Type 1 where
    pub content : ManifestContent
    pub found : List Blob
    pub got : fetch registry s platform image ≡ done content
    pub listed : get_list_of_blobs (get_repo_and_tag image).0 content ≡ done found
    pub manifest_in : In (record { docker_image_name = image; content = content }) ms
    pub digests_in : (P : ℕ → Type 0) → All P (map (λ b. b.digest) bs) → All (λ b. P b.digest) found

  -- A manifest of the list is the one of its image.
  abbrev pub OwnContents : List Manifest → Type 0
  OwnContents ms = All (λ m. fetch registry s platform m.docker_image_name ≡ done m.content) ms

  Fetched-same :
      (i image : Text) (ms : List Manifest) (bs : List Blob)
      → image ≡ i
      → Fetched i ms bs
      → Fetched image ms bs
  Fetched-same i image ms bs same f = subst (λ x. Fetched x ms bs) (sym same) f

  pub record AllFetched (images : List Text) (ms : List Manifest) (bs : List Blob) : Type 1 where
    pub fetched : (image : Text) → In image images → Fetched image ms bs
    pub own_contents : OwnContents ms
    pub named : map (λ m. m.docker_image_name) ms ≡ images

  module _ (i : Text) (content : ManifestContent) (found : List Blob) where
    abbrev mine : Manifest
    mine = record { docker_image_name = i; content = content }

    AllFetched-cons :
        (is : List Text) (ms : List Manifest) (bs : List Blob)
        → fetch registry s platform i ≡ done content
        → get_list_of_blobs (get_repo_and_tag i).0 content ≡ done found
        → AllFetched is ms bs
        → AllFetched (i ∷ is) (mine ∷ ms) (found ++ bs)
    AllFetched-cons is ms bs got listed rest = record {
      fetched = each;
      own_contents = (got, rest.own_contents);
      named = ap (λ t. i ∷ t) rest.named;
    }
      where
        each : (image : Text) → In image (i ∷ is) → Fetched image (mine ∷ ms) (found ++ bs)
        each image (inl same) = Fetched-same i image (mine ∷ ms) (found ++ bs) same (record {
          content = content;
          found = found;
          got = got;
          listed = listed;
          manifest_in = inl refl;
          digests_in = λ P a. (All-append P found bs a).0;
        })
        each image (inr later) =
            let f = rest.fetched image later in
            record {
              content = f.content;
              found = f.found;
              got = f.got;
              listed = f.listed;
              manifest_in = inr f.manifest_in;
              digests_in = λ P a. f.digests_in P (All-append P found bs a).1;
            }

  pub get_all-AllFetched :
      (images : List Text) (ms : List Manifest) (bs : List Blob)
      → get_manifests_and_list_of_all_blobs registry s platform images ≡ done (ms, bs)
      → AllFetched images ms bs
  unfolding get_manifests_and_list_of_all_blobs get_manifest_and_list_of_blobs_to_pull
  get_all-AllFetched [] ms bs h =
      subst (λ p. AllFetched [] p.0 p.1) (done-injective ([], []) (ms, bs) h)
        (record { fetched = λ i m. absurd m; own_contents = tt; named = refl })
  get_all-AllFetched (i ∷ is) ms bs h =
      let (here, one, rest) = and_then-done _ _ h in
      let ((ms2, bs2), others, e) = and_then-done _ _ rest in
      let (content, got, lists) = and_then-done _ _ (convert_412-done _ one) in
      let (found, listed, made) = and_then-done _ _ lists in
      subst (λ p. AllFetched (i ∷ is) p.0 p.1)
        (ap (λ p. (p.0 ∷ ms2, p.1 ++ bs2)) (done-injective _ _ made) ∙ done-injective _ _ e)
        (AllFetched-cons i content found is ms2 bs2 got listed
          (get_all-AllFetched is ms2 bs2 others))
