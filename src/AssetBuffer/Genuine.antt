-- ===== src/AssetBuffer/Genuine.antt =====
-- That backend/substrapp/compute_tasks/asset_buffer.py keeps only whole assets with the right checksum
-- in the buffer.
use substra_backend.Prelude.{
  ℕ, Bool, true, false, ◌&&◌, ◌==◌, ◌≡◌, ◌≢◌, ◌⊎◌, Option, none, some, [], ◌∷◌, is_some, arith,
  ==_iff,
}
use substra_backend.Worker.{Attempt, returned}
use substra_backend.AssetBuffer.{
  Folder, data_samples, models, openers, same_folder, Node, file, directory, Buffer, Source,
}
use substra_backend.AssetBuffer.Adding.{
  add_to_buffer_safe, add_datasample_internal, download, add_opener_internal, add_model_internal,
  add_asset,
}

module _ (source : Source) where
  -- The node is the asset of this key, whole: its hash is the one that is registered for the asset.
  abbrev pub is_genuine : Folder → ℕ → Option Node → Bool
  is_genuine folder key none = true
  is_genuine data_samples key (some (directory (entry ∷ es))) = elim (source.data_sample key) [
    | none ↦ false
    | some row ↦ source.dirhash (entry ∷ es) == row.checksum
  ]
  is_genuine models key (some (file content)) =
      source.sha256 content (source.model key).salt == (source.model key).checksum
  is_genuine openers key (some (directory ((name, content) ∷ []))) =
      source.sha256 content (source.opener key).salt == (source.opener key).checksum
  is_genuine _ key (some _) = false

  pub record IsGenuine (b : Buffer) : Type 0 where
    pub genuine : (f : Folder) (k : ℕ) → is_genuine f k (b f k) ≡ true

  -- What a call that adds one asset leaves.
  pub record Added (folder : Folder) (key : ℕ) (b after : Buffer) (result : Attempt {0} Unit)
      : Type 0 where
    pub others :
        (f : Folder) (k : ℕ)
        → (same_folder f folder && (k == key)) ≡ false
        → (after f k ≡ b f k) ⊎ ((after f k ≡ none) × (result ≢ returned tt))
    pub own :
        is_genuine folder key (b folder key) ≡ true
        → is_genuine folder key (after folder key) ≡ true
    pub present : result ≡ returned tt → is_some (after folder key) ≡ true
    pub kept : is_some (b folder key) ≡ true → after folder key ≡ b folder key

  module _ (key : ℕ) (b : Buffer) where
    add_model-Added :
        Added models key b (add_asset source models key b).0 (add_asset source models key b).1
    unfolding add_asset add_to_buffer_safe add_model_internal download
    add_model-Added = record {
      others = λ f k h. ground arith;
      own = ground arith;
      present = ground (arith, ==_iff key key);
      kept = ground arith;
    }

    add_opener-Added :
        Added openers key b (add_asset source openers key b).0 (add_asset source openers key b).1
    unfolding add_asset add_to_buffer_safe add_opener_internal download
    add_opener-Added = record {
      others = λ f k h. ground arith;
      own = ground arith;
      present = ground (arith, ==_iff key key);
      kept = ground arith;
    }

    add_data_sample-Added :
        Added data_samples key b
          (add_asset source data_samples key b).0
          (add_asset source data_samples key b).1
    unfolding add_asset add_to_buffer_safe add_datasample_internal
    add_data_sample-Added = record {
      others = λ f k h. ground arith;
      own = ground arith;
      present = ground (arith, ==_iff key key);
      kept = ground arith;
    }

    pub add_asset-Added :
        (folder : Folder)
        → Added folder key b (add_asset source folder key b).0 (add_asset source folder key b).1
    add_asset-Added data_samples = add_data_sample-Added
    add_asset-Added models = add_model-Added
    add_asset-Added openers = add_opener-Added
