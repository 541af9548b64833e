-- ===== src/Sync/Replay/Saved.antt =====
-- `save_if_not_exists` of backend/api/serializers/utils.py, called twice.
use substra_backend.Prelude.{
  ℕ, zero, suc, already_exists, ◌≡◌, refl, Bool, true, false, none, Result, ok, err, ok-injective,
  ◌⊎◌, inl, inr, arith,
}
use substra_backend.Models.{Db}
use substra_backend.Sync.Saving.{save_if_not_exists, unless_exists, unless_exists-taken}

-- If nothing is raised, no field has an error, and the row is there already or is inserted.
pub saved-eq-ok :
    (taken : Bool) (others : ℕ) (inserted : Result Db) (db db' : Db)
    → unless_exists db (save_if_not_exists taken others none inserted) ≡ ok db'
    → (others ≡ 0)
      × (((db' ≡ db) × ((taken ≡ true) ⊎ (inserted ≡ err already_exists))) ⊎ (inserted ≡ ok db'))
unfolding save_if_not_exists
saved-eq-ok true zero inserted db db' h = (refl, inl ((cc), inl refl))
saved-eq-ok true (suc n) inserted db db' h = ground arith
saved-eq-ok false zero (ok a) db db' h = (refl, inr h)
saved-eq-ok false zero (err already_exists) db db' h = (refl, inl ((cc), inr refl))
saved-eq-ok false zero (err _) db db' h = ground arith
saved-eq-ok false (suc n) inserted db db' h = ground arith

-- A handler that creates a row, over the test that the key is taken, the number of other errors and
-- the insertion.
module _ (taken : Db → Bool) (others : Db → ℕ) (insert : Db → Result Db) where
  abbrev pub attempt : Db → Result Db
  attempt db = unless_exists db (save_if_not_exists (taken db) (others db) none (insert db))

  -- If the insertion makes the key taken and brings no other error, a second attempt changes nothing.
  pub attempt-attempt :
      (db db' : Db)
      → (insert db ≡ ok db' → taken db' ≡ true)
      → (insert db ≡ ok db' → others db ≡ 0 → others db' ≡ 0)
      → attempt db ≡ ok db'
      → attempt db' ≡ ok db'
  attempt-attempt db db' takes clean h =
      let (zero_errors, cases) = saved-eq-ok (taken db) (others db) (insert db) db db' h in
      elim cases [
        | inl (same, _) ↦ rw same (rw same at h)
        | inr inserted ↦
            rw (takes inserted, clean inserted zero_errors) (unless_exists-taken db' _ none)
      ]

-- The same for an insertion that raises nothing.
module _ (taken : Db → Bool) (others : Db → ℕ) (insert : Db → Db) where
  pub insert-replay :
      (db db' : Db)
      → taken (insert db) ≡ true
      → (others db ≡ 0 → others (insert db) ≡ 0)
      → attempt taken others (λ b. ok (insert b)) db ≡ ok db'
      → attempt taken others (λ b. ok (insert b)) db' ≡ ok db'
  insert-replay db db' takes clean =
      attempt-attempt taken others (λ b. ok (insert b)) db db'
        (λ e. rw (← ok-injective (insert db) db' e) takes)
        (λ e z. rw (← ok-injective (insert db) db' e) (clean z))
