-- ===== src/ImageTransfer/Blobs.antt =====
-- What `add_blobs_to_zip` of backend/image_transfer/encoder.py puts into the zip.
use substra_backend.Prelude.{
  ℕ, ◌==◌, ◌≡◌, refl, sym, ap, ◌∙◌, subst, ◌⊎◌, inl, inr, Option, none, some, List, [], ◌∷◌, All,
  map, ==_iff, ==_refl, Bool-cases,
}
use substra_backend.ImageTransfer.Names.{Text}
use substra_backend.ImageTransfer.{
  Outcome, failed, done, ◌and_then◌, Registry, Blob, blobs, BlobPath, in_zip, blob_entry, Zip,
  writestr,
}
use substra_backend.ImageTransfer.Encoder.{
  set_blob_path, download_blob_to_zip, add_blob, add_blobs_to_zip, get_blob_with_same_digest,
}

-- A sequence that returns: its first part returned, and then the rest did.
pub and_then-done {ℓ κ} :
    {A : Type ℓ} {B : Type κ} (m : Outcome A) (rest : A → Outcome B) {b : B}
    → (m and_then rest) ≡ done b
    → (a : A) × (m ≡ done a) × (rest a ≡ done b)
and_then-done (failed e) rest h = cc
and_then-done (done a) rest h = (a, refl, h)

pub done-injective {ℓ} : {A : Type ℓ} (a b : A) → done a ≡ done b → a ≡ b
done-injective a b h = cc

module _ (registry : Registry) where
  -- The blob of this digest stands in the zip, and the descriptor says so.
  pub record Stored (zip : Zip) (paths : ℕ → Option BlobPath) (d : ℕ) : Type 0 where
    pub located : paths d ≡ some (in_zip (blobs d))
    pub content : ℕ
    pub entry : zip (blobs d) ≡ some (blob_entry content)
    pub has_digest : registry.digest_of content ≡ d

  pub record BlobsStored (zip : Zip) (paths : ℕ → Option BlobPath) : Type 0 where
    pub stored : (d : ℕ) → (paths d ≡ none) ⊎ Stored zip paths d

  module _ (s : registry.State) (platform : Option ℕ)
      (pull_digest : (r : Text) (d c : ℕ)
        → registry.pull_blob s r d ≡ done c
        → registry.digest_of c ≡ d) where
    -- What a step of the loop leaves.
    pub record Step (digests : List ℕ) (zip : Zip) (paths : ℕ → Option BlobPath)
        (after : Zip × (ℕ → Option BlobPath)) : Type 0 where
      pub sound : BlobsStored after.0 after.1
      pub own : All (Stored after.0 after.1) digests
      pub kept : (d : ℕ) → Stored zip paths d → Stored after.0 after.1 d

    module _ (blob : Blob) (zip : Zip) (paths : ℕ → Option BlobPath)
        (sound : BlobsStored zip paths) where
      module _ (c : ℕ) (h : registry.pull_blob s blob.repository blob.digest ≡ done c) where
        abbrev written : Zip
        written = writestr (blobs blob.digest) (blob_entry c) zip

        abbrev located : ℕ → Option BlobPath
        located = set_blob_path registry s platform blob.digest (in_zip (blobs blob.digest)) paths

        own_Stored : Stored written located blob.digest
        own_Stored = record {
          located = rw (==_refl blob.digest) refl;
          content = c;
          entry = rw (==_refl blob.digest) refl;
          has_digest = pull_digest blob.repository blob.digest c h;
        }

        kept_Stored : (d : ℕ) → Stored zip paths d → Stored written located d
        kept_Stored d st = elim (Bool-cases (d == blob.digest)) [
          | inl same ↦
              subst (Stored written located) (sym ((==_iff d blob.digest).0 same)) own_Stored
          | inr differs ↦ record {
            located = rw differs st.located;
            content = st.content;
            entry = rw differs st.entry;
            has_digest = st.has_digest;
          }
        ]

        download-Step : Step (blob.digest ∷ []) zip paths (written, located)
        download-Step = record {
          sound = record {
            stored = λ d. elim (Bool-cases (d == blob.digest)) [
              | inl same ↦
                  inr (
                    subst (Stored written located) (sym ((==_iff d blob.digest).0 same)) own_Stored)
              | inr differs ↦ elim (sound.stored d) [
                | inl absent ↦ inl (rw differs absent)
                | inr st ↦ inr (kept_Stored d st)
              ]
            ];
          };
          own = (own_Stored, tt);
          kept = kept_Stored;
        }

      add_blob-Step :
          (after : Zip × (ℕ → Option BlobPath))
          → add_blob registry s platform [] blob (zip, paths) ≡ done after
          → Step (blob.digest ∷ []) zip paths after
      unfolding add_blob get_blob_with_same_digest download_blob_to_zip
      add_blob-Step after h = elim (sound.stored blob.digest) [
        | inr here ↦
            subst (Step (blob.digest ∷ []) zip paths) (done-injective _ _ (rw here.located at h))
              (record { sound = sound; own = (here, tt); kept = λ d st. st })
        | inl absent ↦
            let (pair, loaded, finished) = and_then-done _ _ (rw absent at h) in
            let (c, pulled, made) = and_then-done _ _ loaded in
            let e = done-injective _ _ made in
            subst (Step (blob.digest ∷ []) zip paths)
              (ap (λ p. (p.0, set_blob_path registry s platform blob.digest (in_zip p.1) paths)) e
                ∙ done-injective _ _ finished)
              (download-Step c pulled)
      ]

    pub add_blobs_to_zip-Step :
        (bs : List Blob) (zip : Zip) (paths : ℕ → Option BlobPath)
        (after : Zip × (ℕ → Option BlobPath))
        → BlobsStored zip paths
        → add_blobs_to_zip registry s platform bs [] (zip, paths) ≡ done after
        → Step (map (λ b. b.digest) bs) zip paths after
    unfolding add_blobs_to_zip
    add_blobs_to_zip-Step [] zip paths after sound h =
        subst (Step [] zip paths) (done-injective _ _ h)
          (record { sound = sound; own = tt; kept = λ d st. st })
    add_blobs_to_zip-Step (b ∷ bs) zip paths after sound h =
        let ((mid_zip, mid_paths), added, later) = and_then-done _ _ h in
        let first = add_blob-Step b zip paths sound (mid_zip, mid_paths) added in
        let rest = add_blobs_to_zip-Step bs mid_zip mid_paths after first.sound later in
        record {
          sound = rest.sound;
          own = (rest.kept b.digest first.own.0, rest.own);
          kept = λ d st. rest.kept d (first.kept d st);
        }
