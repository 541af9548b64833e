-- ===== src/Sync/Duplicates/OutputAssets.antt =====
-- The event of an output asset, delivered twice to backend/api/events/sync.py.
use substra_backend.Prelude.{
  String, ◌≡◌, refl, sym, ◌∙◌, ap, Bool, true, false, some, List, [], ◌∷◌, ◌++◌, if◌then◌else◌, ok,
  err, integrity_error, does_not_exist, arith, Bool-cases, inl, inr, any, filter, str_eq,
  bind-eq-ok, or_raise-eq-ok, ok-injective,
}
use substra_backend.Models.{Db, ComputeTaskInput, ComputeTaskOutput, ComputeTaskInputAsset}
use substra_backend.Sync.Events.{OutputAssetData}
use substra_backend.Sync.Inputs.{create_input_asset, find_output, same_input}
use substra_backend.Sync.Outputs.{
  create_input_assets, awaits, create_computetask_output_asset, output_asset_row, input_asset_row,
}
use substra_backend.Sync.Duplicates.{any-append, or-true, same_input_self}

abbrev is_nonempty : {A : Type 0} → List A → Bool
is_nonempty [] = false
is_nonempty (x ∷ xs) = true

-- The inputs that are given an asset have one afterwards, and those that had one keep it.
module _ (a : OutputAssetData) (channel : String) where
  abbrev has_asset : ComputeTaskInput → Db → Bool
  has_asset i db = any (λ (b : ComputeTaskInputAsset). same_input b.task_input i) db.input_assets

  create_input_asset-eq-ok :
      (i : ComputeTaskInput) (db db' : Db)
      → create_input_asset (input_asset_row channel a i) db ≡ ok db'
      → db' ≡ record db { input_assets = db.input_assets ++ input_asset_row channel a i ∷ [] }
  unfolding create_input_asset
  create_input_asset-eq-ok i db db' h = elim (Bool-cases (has_asset i db)) [
    | inl dup ↦ let raised : err integrity_error ≡ ok db' = rw dup at h in cc raised
    | inr fresh ↦ sym (ok-injective _ _ (rw fresh at h))
  ]

  -- The tables of inputs and outputs of tasks, and of the assets of outputs, are not written.
  create_input_assets-keeps :
      (is : List ComputeTaskInput) (db db' : Db)
      → create_input_assets a channel is db ≡ ok db'
      → (db'.task_inputs ≡ db.task_inputs)
        × (db'.task_outputs ≡ db.task_outputs)
        × (db'.output_assets ≡ db.output_assets)
  unfolding create_input_assets
  create_input_assets-keeps [] db db' h =
      let e = sym (ok-injective _ _ h) in
      (
        ap (λ (b : Db). b.task_inputs) e,
        ap (λ (b : Db). b.task_outputs) e,
        ap (λ (b : Db). b.output_assets) e,
      )
  create_input_assets-keeps (i ∷ is) db db' h =
      let (db1, made, rest) =
        bind-eq-ok (create_input_asset (input_asset_row channel a i) db) _ h in
      let e = create_input_asset-eq-ok i db db1 made in
      let (ins, outs, assets) = create_input_assets-keeps is db1 db' rest in
      (
        ins ∙ ap (λ (b : Db). b.task_inputs) e,
        outs ∙ ap (λ (b : Db). b.task_outputs) e,
        assets ∙ ap (λ (b : Db). b.output_assets) e,
      )

  create_input_assets-has :
      (j : ComputeTaskInput) (is : List ComputeTaskInput) (db db' : Db)
      → create_input_assets a channel is db ≡ ok db'
      → has_asset j db ≡ true
      → has_asset j db' ≡ true
  unfolding create_input_assets
  create_input_assets-has j [] db db' h had = rw (← ok-injective _ _ h) had
  create_input_assets-has j (i ∷ is) db db' h had =
      let (db1, made, rest) =
        bind-eq-ok (create_input_asset (input_asset_row channel a i) db) _ h in
      let e = create_input_asset-eq-ok i db db1 made in
      create_input_assets-has j is db1 db' rest (
        rw e (
          rw
            (
              any-append (λ (b : ComputeTaskInputAsset). same_input b.task_input j) db.input_assets
                  (input_asset_row channel a i ∷ []),
              had,
            )
            refl))

  create_input_assets-first :
      (i : ComputeTaskInput) (is : List ComputeTaskInput) (db db' : Db)
      → create_input_assets a channel (i ∷ is) db ≡ ok db'
      → has_asset i db' ≡ true
  unfolding create_input_assets
  create_input_assets-first i is db db' h =
      let (db1, made, rest) =
        bind-eq-ok (create_input_asset (input_asset_row channel a i) db) _ h in
      let e = create_input_asset-eq-ok i db db1 made in
      create_input_assets-has i is db1 db' rest (
        rw e (
          rw
            (
              any-append (λ (b : ComputeTaskInputAsset). same_input b.task_input i) db.input_assets
                  (input_asset_row channel a i ∷ []),
              same_input_self i,
              or-true (has_asset i db),
            )
            refl))

  -- The inputs that were given an asset are refused a second one.
  create_input_assets-replay :
      (is : List ComputeTaskInput) (db db' d : Db)
      → create_input_assets a channel is db ≡ ok db'
      → d.input_assets ≡ db'.input_assets
      → create_input_assets a channel is d ≡ (if is_nonempty is then err integrity_error else ok d)
  unfolding create_input_assets create_input_asset
  create_input_assets-replay [] db db' d h same = refl
  create_input_assets-replay (i ∷ is) db db' d h same =
      rw (rw (← same) at (create_input_assets-first i is db db' h)) refl

nonempty-filter : {A : Type 0} (p : A → Bool) (xs : List A) → is_nonempty (filter p xs) ≡ any p xs
nonempty-filter p [] = refl
nonempty-filter p (x ∷ xs) = ground (arith, nonempty-filter p xs)

-- The event of an output asset that is delivered again does not leave the database as it is: if an
-- input of some task waits for the output, it raises an IntegrityError, for that input has an asset;
-- if none does, the output gets a second row for the same asset.
pub create_computetask_output_asset-replay :
    (channel : String) (a : OutputAssetData) (db db' : Db)
    → create_computetask_output_asset channel a db ≡ ok db'
    → (output : ComputeTaskOutput) × (db'.output_assets
        ≡ db.output_assets ++ output_asset_row channel a output ∷ [])
      × (create_computetask_output_asset channel a db' ≡ (
          if any (awaits a.compute_task_key a.compute_task_output_identifier) db.task_inputs
          then err integrity_error
          else ok (record db' {
            output_assets = db'.output_assets ++ output_asset_row channel a output ∷ [];
          })))
unfolding create_computetask_output_asset
create_computetask_output_asset-replay channel a db db' h =
    let waits = awaits a.compute_task_key a.compute_task_output_identifier in
    let (output, found, rest) =
      or_raise-eq-ok does_not_exist
        (find_output a.compute_task_key a.compute_task_output_identifier
          (filter (λ (o : ComputeTaskOutput). str_eq o.channel channel) db.task_outputs))
        _ h in
    let (ins, outs, assets) =
      create_input_assets-keeps a channel (filter waits db.task_inputs) _ db' rest in
    let again = record db' {
      output_assets = db'.output_assets ++ output_asset_row channel a output ∷ [];
    } in
    let replayed =
      create_input_assets-replay a channel (filter waits db.task_inputs) _ db' again rest refl in
    let found' : find_output a.compute_task_key a.compute_task_output_identifier
          (filter (λ (o : ComputeTaskOutput). str_eq o.channel channel) db'.task_outputs)
        ≡ some output =
      rw outs found in
    (
      output,
      assets,
      rw found' (
          ap (λ (is : List ComputeTaskInput). create_input_assets a channel (filter waits is) again)
            ins
          ∙ replayed
          ∙ ap (λ (b : Bool). if b then err integrity_error else ok again)
              (nonempty-filter waits db.task_inputs)),
    )
