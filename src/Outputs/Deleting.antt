-- ===== src/Outputs/Deleting.antt =====
-- `_delete_model` for each of the new models, in backend/substrapp/compute_tasks/outputs.py.
use substra_backend.Prelude.{
  ℕ, Bool, true, false, ◌&&◌, not, ◌==◌, ◌≡◌, refl, ◌∙◌, Option, none, List, [], ◌∷◌, any,
  if◌then◌else◌, arith, ==_refl, ==_iff,
}
use substra_backend.Store.{get?, delete, exists}
use substra_backend.Store.Laws.{get?-delete}
use substra_backend.Outputs.{ModelRow, NewModel, Reply, raises, gives, delete_models}

abbrev pub named : ℕ → List NewModel → Bool
named key ms = any (λ m. m.key == key) ms

abbrev pub distinct : List NewModel → Bool
distinct [] = true
distinct (m ∷ ms) = not (named m.key ms) && distinct ms

abbrev pub row : ℕ → List ModelRow → Option ModelRow
row k rows = get? ModelRow.key k rows

-- The rows are gone, and no other.
abbrev pub Deleted : ℕ → List NewModel → List ModelRow → List ModelRow × Reply {0} Unit → Type 0
Deleted k ms rows (after, raises e) = ⊥
Deleted k ms rows (after, gives _) = row k after ≡ (if named k ms then none else row k rows)

exists-delete :
    (k j : ℕ) (rows : List ModelRow)
    → (j == k) ≡ false
    → exists ModelRow.key k (delete ModelRow.key j rows) ≡ exists ModelRow.key k rows
unfolding exists
exists-delete k j rows h = rw (get?-delete ModelRow.key k j rows, h) refl

pub delete_models-Deleted :
    (k : ℕ) (ms : List NewModel) (rows : List ModelRow)
    → distinct ms ≡ true
    → ((j : ℕ) → named j ms ≡ true → exists ModelRow.key j rows ≡ true)
    → Deleted k ms rows (delete_models ms rows)
unfolding delete_models
delete_models-Deleted k [] rows d h = refl
delete_models-Deleted k (m ∷ ms) rows d h = rw (h m.key (ground (arith, ==_refl m.key))) (
    shift (delete_models ms (delete ModelRow.key m.key rows))
      (delete_models-Deleted k ms (delete ModelRow.key m.key rows) (ground arith) there))
  where
    shift :
        (r : List ModelRow × Reply {0} Unit)
        → Deleted k ms (delete ModelRow.key m.key rows) r
        → Deleted k (m ∷ ms) rows r
    shift (after, raises _) g = elim g [ ]
    shift (after, gives _) g = ground (arith, g, get?-delete ModelRow.key k m.key rows)

    there :
        (j : ℕ) → named j ms ≡ true → exists ModelRow.key j (delete ModelRow.key m.key rows) ≡ true
    there j g = exists-delete j m.key rows (ground (arith, ==_iff m.key j)) ∙ h j (ground arith)
