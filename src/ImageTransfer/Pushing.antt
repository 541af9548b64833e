-- ===== src/ImageTransfer/Pushing.antt =====
-- What `push_all_blobs_from_manifest` and `load_single_image_from_zip_in_registry` of
-- backend/image_transfer/decoder.py leave in a registry, where the zip has the blobs.
use substra_backend.Prelude.{
  ℕ, ◌≡◌, refl, sym, ◌∙◌, subst, ◌⊎◌, inl, inr, Option, none, some, List, [], ◌∷◌, map, All,
  All-map,
}
use substra_backend.ImageTransfer.Names.{Text, get_repo_and_tag}
use substra_backend.ImageTransfer.{
  Outcome, done, ManifestContent, manifest_text, malformed, several_platforms, Registry, Blob,
  get_list_of_blobs, Member, BlobPath, manifest_entry, Zip,
}
use substra_backend.ImageTransfer.Decoder.{
  go_on, push_at, push_blobs, push_all_blobs_from_manifest, set_manifest_at, load_content,
  load_single_image_from_zip_in_registry,
}
use substra_backend.ImageTransfer.Laws.{HasBlob, IsLawful}
use substra_backend.ImageTransfer.Blobs.{Stored}

-- The digests of a manifest that lists blobs.
abbrev pub digests_of : ManifestContent → List ℕ
digests_of (manifest_text config layers rest) = config ∷ layers
digests_of (malformed x) = []
digests_of several_platforms = []

abbrev pub IsText : ManifestContent → Type 0
IsText (manifest_text config layers rest) = Unit
IsText (malformed x) = ⊥
IsText several_platforms = ⊥

abbrev blob_at : Text → ℕ → Blob
blob_at repo d = record { digest = d; repository = repo }

module _ (dst : Registry) (laws : IsLawful dst) (zip : Zip)
    (blobs_paths : ℕ → Option BlobPath) where
  record Pushed (repo : Text) (ds : List ℕ) (s : dst.State) (end_ : dst.State × Outcome {0} Unit)
      : Type 0 where
    returns : end_.1 ≡ done tt
    has : All (HasBlob dst end_.0 repo) ds
    keeps : (q : Text) (e : ℕ) → HasBlob dst s q e → HasBlob dst end_.0 q e
    same : (q t : Text) → dst.get_manifest end_.0 q t none ≡ dst.get_manifest s q t none

  push_at-Pushed :
      (repo : Text) (d : ℕ) (s : dst.State)
      → Stored dst zip blobs_paths d
      → Pushed repo (d ∷ []) s (push_at dst zip (blob_at repo d) (blobs_paths d) s)
  push_at-Pushed repo d s st =
      let pushed = dst.push_blob s repo st.content d in
      let (returns, pulled) = laws.push_returns s repo st.content d st.has_digest in
      let one : Pushed repo (d ∷ []) s pushed = record {
        returns = returns;
        has = (record { content = st.content; pulled = pulled; has_digest = st.has_digest }, tt);
        keeps = λ q e h. laws.push_keeps s repo st.content d q e st.has_digest h;
        same = λ q t. laws.push_manifests s repo st.content d q t;
      } in
      rw (st.located, st.entry) one

  push_blobs-Pushed :
      (repo : Text) (ds : List ℕ) (s : dst.State)
      → All (Stored dst zip blobs_paths) ds
      → Pushed repo ds s (push_blobs dst zip blobs_paths (map (blob_at repo) ds) s)
  unfolding push_blobs
  push_blobs-Pushed repo [] s h = record {
    returns = refl;
    has = tt;
    keeps = λ q e b. b;
    same = λ q t. refl;
  }
  push_blobs-Pushed repo (d ∷ ds) s h =
      let step = push_at dst zip (blob_at repo d) (blobs_paths d) s in
      let first = push_at-Pushed repo d s h.0 in
      let rest = push_blobs-Pushed repo ds step.0 h.1 in
      let whole : Pushed repo (d ∷ ds) s
          (push_blobs dst zip blobs_paths (map (blob_at repo) ds) step.0) =
        record {
          returns = rest.returns;
          has = (rest.keeps repo d first.has.0, rest.has);
          keeps = λ q e b. rest.keeps q e (first.keeps q e b);
          same = λ q t. rest.same q t ∙ first.same q t;
        } in
      subst
        (λ r.
          Pushed repo (d ∷ ds) s
            (go_on dst r step.0 (push_blobs dst zip blobs_paths (map (blob_at repo) ds))))
        (sym first.returns) whole

  -- What the load of one image leaves.
  pub record Loaded (repo tag : Text) (content : ManifestContent) (s : dst.State)
      (end_ : dst.State × Outcome {0} Unit) : Type 0 where
    pub returns : end_.1 ≡ done tt
    pub set : dst.get_manifest end_.0 repo tag none ≡ done content
    pub has : All (HasBlob dst end_.0 repo) (digests_of content)
    pub keeps : (q : Text) (e : ℕ) → HasBlob dst s q e → HasBlob dst end_.0 q e
    pub others :
        (q u : Text)
        → ((q ≡ repo) × (u ≡ tag))
          ⊎ (dst.get_manifest end_.0 q u none ≡ dst.get_manifest s q u none)

  All-blob_at :
      (P : ℕ → Type 0) (repo : Text) (ds : List ℕ)
      → All P ds
      → All (λ b. P b.digest) (map (blob_at repo) ds)
  All-blob_at P repo [] h = tt
  All-blob_at P repo (d ∷ ds) h = (h.0, All-blob_at P repo ds h.1)

  load_content-Loaded :
      (image repo tag : Text) (content : ManifestContent) (s : dst.State)
      → IsText content
      → get_repo_and_tag image ≡ (repo, some tag)
      → All (Stored dst zip blobs_paths) (digests_of content)
      → Loaded repo tag content s (load_content dst zip blobs_paths image content s)
  unfolding load_content push_all_blobs_from_manifest get_list_of_blobs
  load_content-Loaded image repo tag (malformed x) s t split h = absurd t
  load_content-Loaded image repo tag several_platforms s t split h = absurd t
  load_content-Loaded image repo tag (manifest_text config layers x) s t split h =
      let content = manifest_text config layers x in
      let p = push_blobs dst zip blobs_paths (map (blob_at repo) (config ∷ layers)) s in
      let pushed = push_blobs-Pushed repo (config ∷ layers) s h in
      let (returns, set) =
        laws.set_returns p.0 repo tag content (map (blob_at repo) (config ∷ layers)) refl
          (All-blob_at (HasBlob dst p.0 repo) repo (config ∷ layers) pushed.has) in
      let end_ = dst.set_manifest p.0 repo tag content in
      let loaded : Loaded repo tag content s end_ = record {
        returns = returns;
        set = set;
        has =
            All-map (λ d b. laws.set_keeps p.0 repo tag content repo d b) (config ∷ layers)
              pushed.has;
        keeps = λ q e b. laws.set_keeps p.0 repo tag content q e (pushed.keeps q e b);
        others = λ q u. elim (laws.set_others p.0 repo tag content q u) [
          | inl here ↦ inl here
          | inr same ↦ inr (same ∙ pushed.same q u)
        ];
      } in
      subst
        (λ r.
          let q = push_blobs dst zip blobs_paths (map (blob_at r.0) (config ∷ layers)) s in
          Loaded repo tag content s (go_on dst q.1 q.0 (set_manifest_at dst r.0 r.1 content)))
        (sym split)
        (subst
          (λ r.
            Loaded repo tag content s
              (go_on dst r p.0 (set_manifest_at dst repo (some tag) content)))
          (sym pushed.returns) loaded)

  pub load_single-Loaded :
      (image repo tag : Text) (path : Member) (content : ManifestContent) (s : dst.State)
      → zip path ≡ some (manifest_entry content)
      → IsText content
      → get_repo_and_tag image ≡ (repo, some tag)
      → All (Stored dst zip blobs_paths) (digests_of content)
      → Loaded repo tag content s
          (load_single_image_from_zip_in_registry dst zip image path blobs_paths s)
  unfolding load_single_image_from_zip_in_registry
  load_single-Loaded image repo tag path content s read t split h =
      rw read (load_content-Loaded image repo tag content s t split h)
