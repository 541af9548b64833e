-- ===== src/Store/Laws.antt =====
-- The laws of the table operations.
use substra_backend.Prelude.{
  ℕ, ◌≡◌, refl, none, some, List, [], ◌∷◌, ◌==◌, if◌then◌else◌, arith, ==_iff, ==_refl, true,
}
use substra_backend.Store.{get?, save, delete, exists}

module _ {R : Type 0} (key_of : R → ℕ) where
  pub get?-save :
      (k : ℕ) (r : R) (rows : List R)
      → get? key_of k (save key_of r rows) ≡ (if key_of r == k then some r else get? key_of k rows)
  unfolding get? save
  get?-save k r [] = refl
  get?-save k r (x ∷ rows) =
      ground (arith, ==_iff (key_of x) (key_of r), ==_iff (key_of x) k, get?-save k r rows)

  pub get?-delete :
      (k j : ℕ) (rows : List R)
      → get? key_of k (delete key_of j rows) ≡ (if j == k then none else get? key_of k rows)
  unfolding get? delete
  get?-delete k j [] = ground arith
  get?-delete k j (x ∷ rows) =
      ground (arith, ==_iff (key_of x) j, ==_iff (key_of x) k, ==_refl k, get?-delete k j rows)

  pub get?-save_self :
      (r : R) (rows : List R) → get? key_of (key_of r) (save key_of r rows) ≡ some r
  get?-save_self r rows = rw (get?-save (key_of r) r rows, ==_refl (key_of r)) refl

  -- A second save under the same key replaces the first.
  pub save-save :
      (r s : R) (rows : List R)
      → key_of s ≡ key_of r
      → save key_of s (save key_of r rows) ≡ save key_of s rows
  unfolding save
  save-save r s [] e = ground (arith, ==_iff (key_of r) (key_of s))
  save-save r s (x ∷ rows) e = ground (arith, save-save r s rows e)

  pub key_of-get? : (k : ℕ) (r : R) (rows : List R) → get? key_of k rows ≡ some r → key_of r ≡ k
  unfolding get?
  key_of-get? k r [] e = cc
  key_of-get? k r (x ∷ rows) e = ground (arith, key_of-get? k r rows)

  pub save-get? :
      (k : ℕ) (r : R) (rows : List R) → get? key_of k rows ≡ some r → save key_of r rows ≡ rows
  unfolding get? save
  save-get? k r [] e = cc
  save-get? k r (x ∷ rows) e = ground (arith, save-get? k r rows, key_of-get? k r rows)

  pub exists-save_self :
      (r : R) (rows : List R) → exists key_of (key_of r) (save key_of r rows) ≡ true
  unfolding exists
  exists-save_self r rows = rw (get?-save_self r rows) refl

  -- The row that was read, changed and saved is the one that is read next.
  pub get?-save_edited :
      (k : ℕ) (r s : R) (rows : List R)
      → get? key_of k rows ≡ some r
      → key_of s ≡ key_of r
      → get? key_of k (save key_of s rows) ≡ some s
  get?-save_edited k r s rows found same =
      rw (get?-save k s rows, same, key_of-get? k r rows found, ==_refl k) refl

  pub save-save_self :
      (r : R) (rows : List R) → save key_of r (save key_of r rows) ≡ save key_of r rows
  save-save_self r rows = save-save r r rows refl
