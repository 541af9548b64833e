-- ===== src/Store.antt =====
-- A table of the relational database, as Django's ORM reads and writes it: `objects.get` by the
-- primary key, and `save`, which updates the row with the same key or inserts a new one.
pub mod Laws
use substra_backend.Prelude.{
  ℕ, Bool, Option, none, some, List, [], ◌∷◌, ◌==◌, if◌then◌else◌, is_some,
}

module _ {R : Type 0} (key_of : R → ℕ) where
  unfoldable pub get? : ℕ → List R → Option R
  get? k [] = none
  get? k (r ∷ rows) = if key_of r == k then some r else get? k rows

  unfoldable pub save : R → List R → List R
  save r [] = r ∷ []
  save r (x ∷ rows) = if key_of x == key_of r then r ∷ rows else x ∷ save r rows

  -- objects.get(...).delete(), of a row that is there
  unfoldable pub delete : ℕ → List R → List R
  delete k [] = []
  delete k (x ∷ rows) = if key_of x == k then delete k rows else x ∷ delete k rows

  unfoldable pub exists : ℕ → List R → Bool
  unfolding get?
  exists k rows = is_some (get? k rows)
