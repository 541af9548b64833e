-- ===== src/AssetBuffer/WrongChecksum.antt =====
-- What `_add_datasample_to_buffer_internal` of backend/substrapp/compute_tasks/asset_buffer.py removes
-- where a data sample has a wrong checksum.
use substra_backend.Prelude.{ℕ, String, false, ◌==◌, ==_refl, ◌≡◌, none, some, List, ◌∷◌, arith}
use substra_backend.Worker.{other_error, raised, returned}
use substra_backend.AssetBuffer.{data_samples, directory, Buffer, DataSampleFile, Source}
use substra_backend.AssetBuffer.Adding.{
  add_to_buffer_safe, extract, add_datasample_internal, add_asset,
}

module _ (source : Source) (b : Buffer) (key other : ℕ) (row : DataSampleFile) where
  -- A data sample whose extraction leaves a directory with a wrong checksum makes
  -- `_add_datasample_to_buffer` raise, and no data sample at all, of whatever key, is left in the buffer.
  -- Conditions: the lock is free, the data sample has a row and does not stand in the buffer.
  pub add_asset-loses_others :
      {entry : String × ℕ} {es : List (String × ℕ)}
      → source.lock data_samples key ≡ none
      → b data_samples key ≡ none
      → source.data_sample key ≡ some row
      → extract source row ≡ (some (directory (entry ∷ es)), returned tt)
      → (source.dirhash (entry ∷ es) == row.checksum) ≡ false
      → ((add_asset source data_samples key b).1 ≡ raised other_error)
        × ((add_asset source data_samples key b).0 data_samples other ≡ none)
  unfolding add_asset add_to_buffer_safe add_datasample_internal
  add_asset-loses_others {entry} {es} l absent r e wrong = ground (arith, ==_refl key)
