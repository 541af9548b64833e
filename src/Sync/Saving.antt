-- ===== src/Sync/Saving.antt =====
-- `SafeSerializerMixin.save_if_not_exists` of backend/api/serializers/utils.py, and the handlers'
-- `try: save_if_not_exists() except AlreadyExistsError: log`.
use substra_backend.Prelude.{
  ℕ, ◌≡◌, refl, Bool, true, ◌||◌, ◌&&◌, Option, none, some, ◌==◌, ltb, if◌then◌else◌, Result, ok,
  err, validation_error, already_exists, integrity_error,
}

-- `taken`: the validation finds an error of the primary key field, which is the one that says that
-- the key is taken. `others`: the other fields with errors. `conflict`: the IntegrityError of
-- `save`, if one is raised; true where its message contains the name of the primary key.
unfoldable pub save_if_not_exists {ℓ} :
    {A : Type ℓ} → (taken : Bool) (others : ℕ) (conflict : Option Bool) → Result A → Result A
save_if_not_exists taken others conflict saved =
    if taken || ltb 0 others
    then (if taken && (others == 0) then err already_exists else err validation_error)
    else elim conflict [
      | none ↦ saved
      | some on_key ↦ if on_key then err already_exists else err integrity_error
    ]

-- except AlreadyExistsError: nothing is written.
abbrev pub unless_exists {ℓ} : {A : Type ℓ} → A → Result A → Result A
unless_exists before (ok after) = ok after
unless_exists before (err already_exists) = ok before
unless_exists before (err e) = err e

-- except ValidationError: nothing is written.
abbrev pub unless_invalid {ℓ} : {A : Type ℓ} → A → Result A → Result A
unless_invalid before (ok after) = ok after
unless_invalid before (err validation_error) = ok before
unless_invalid before (err e) = err e

-- Creating a row whose key is taken, with no other error, writes nothing and raises nothing.
pub unless_exists-taken {ℓ} :
    {A : Type ℓ} (before : A) (saved : Result A) (conflict : Option Bool)
    → unless_exists before (save_if_not_exists true 0 conflict saved) ≡ ok before
unfolding save_if_not_exists
unless_exists-taken before saved conflict = refl
