-- ===== src/Registration/Rows.antt =====
-- What the deletion of the new rows leaves of the table, in backend/api/views/datasample.py.
use substra_backend.Prelude.{
  ℕ, Bool, true, false, ◌&&◌, not, ◌==◌, ◌≡◌, refl, ap, ◌∙◌, List, [], ◌∷◌, any, arith, ==_refl,
}
use substra_backend.Registration.{FileRow, remove, delete_instances}

-- The table with new rows in it, the newest first.
unfoldable pub add_rows : List FileRow → List FileRow → List FileRow
add_rows [] rows = rows
add_rows (r ∷ rs) rows = add_rows rs (r ∷ rows)

abbrev pub has_key : ℕ → List FileRow → Bool
has_key key rows = any (λ r. r.key == key) rows

-- The new rows have keys of their own, which the table does not have.
abbrev pub is_fresh : List FileRow → List FileRow → Bool
is_fresh [] rows = true
is_fresh (r ∷ rs) rows = not (has_key r.key rows) && not (has_key r.key rs) && is_fresh rs rows

remove_absent : (key : ℕ) (rows : List FileRow) → has_key key rows ≡ false → remove key rows ≡ rows
remove_absent key [] h = refl
remove_absent key (r ∷ rs) h = ground (arith, remove_absent key rs)

remove_other :
    (key : ℕ) (r : FileRow) (rows : List FileRow)
    → (r.key == key) ≡ false
    → remove key (r ∷ rows) ≡ r ∷ remove key rows
remove_other key r rows h = rw h refl

remove_own :
    (r : FileRow) (rows : List FileRow)
    → has_key r.key rows ≡ false
    → remove r.key (r ∷ rows) ≡ rows
remove_own r rows h = rw (==_refl r.key) (remove_absent r.key rows h)

remove-add_rows :
    (key : ℕ) (rs rows : List FileRow)
    → has_key key rs ≡ false
    → remove key (add_rows rs rows) ≡ add_rows rs (remove key rows)
unfolding add_rows
remove-add_rows key [] rows h = refl
remove-add_rows key (r ∷ rs) rows h =
    remove-add_rows key rs (r ∷ rows) (ground arith)
    ∙ ap (add_rows rs) (remove_other key r rows (ground arith))

-- Deleting the new rows gives the table back.
pub delete_instances-add_rows :
    (rs rows : List FileRow)
    → is_fresh rs rows ≡ true
    → delete_instances rs (add_rows rs rows) ≡ rows
unfolding delete_instances add_rows
delete_instances-add_rows [] rows h = refl
delete_instances-add_rows (r ∷ rs) rows h =
    ap (delete_instances rs) (
      remove-add_rows r.key rs (r ∷ rows) (ground arith)
      ∙ ap (add_rows rs) (remove_own r rows (ground arith)))
    ∙ delete_instances-add_rows rs rows (ground arith)

pub add_rows_has :
    (rs rows : List FileRow) (key : ℕ)
    → has_key key rows ≡ true
    → has_key key (add_rows rs rows) ≡ true
unfolding add_rows
add_rows_has [] rows key h = h
add_rows_has (r ∷ rs) rows key h = add_rows_has rs (r ∷ rows) key (ground arith)
