-- ===== src/Sync/Replay/Assets.antt =====
-- The handlers for the assets other than plans and tasks, called twice.
use substra_backend.Prelude.{
  ℕ, String, ◌+◌, ◌≡◌, refl, not, Option, none, some, List, if◌then◌else◌, ok, or_raise-eq-ok,
  ok-injective, does_not_exist, arith, count, or_else,
}
use substra_backend.Models.{Db, Function}
use substra_backend.Store.{get?, save, exists}
use substra_backend.Store.Laws.{exists-save_self, get?-save_edited, save-save_self}
use substra_backend.Sync.Events.{
  Env, dict_get, FunctionData, DataManagerData, DataSampleData, ModelData, function, data_manager,
  data_sample, model,
}
use substra_backend.Sync.Assets.{
  function_key, data_manager_key, data_sample_key, model_key, task_key, create_function,
  update_function, create_datamanager, set_image, nonempty, update_datamanager, create_datasample,
  update_datasample, known_data_managers, create_model, disable_model, function_row,
  data_manager_row, data_sample_row, model_row,
}
use substra_backend.Sync.Replay.Saved.{insert-replay}

module _ (env : Env) where
  pub create_function-replay :
      (channel : String) (f : FunctionData) (db db' : Db)
      → create_function env channel f db ≡ ok db'
      → create_function env channel f db' ≡ ok db'
  unfolding create_function
  create_function-replay channel f db db' h =
      insert-replay (λ d. exists function_key f.key d.functions)
        (λ _. env.field_errors (function f))
        (λ b. record b { functions = save function_key (function_row channel f) b.functions }) db
        db' (exists-save_self function_key (function_row channel f) db.functions) (λ z. z) h

  pub create_datamanager-replay :
      (channel : String) (d : DataManagerData) (db db' : Db)
      → create_datamanager env channel d db ≡ ok db'
      → create_datamanager env channel d db' ≡ ok db'
  unfolding create_datamanager
  create_datamanager-replay channel d db db' h =
      insert-replay (λ b. exists data_manager_key d.key b.data_managers)
        (λ _. env.field_errors (data_manager d))
        (λ b. record b {
          data_managers = save data_manager_key (data_manager_row channel d) b.data_managers;
        })
        db db' (exists-save_self data_manager_key (data_manager_row channel d) db.data_managers)
        (λ z. z) h

  pub create_datasample-replay :
      (channel : String) (d : DataSampleData) (db db' : Db)
      → create_datasample env channel d db ≡ ok db'
      → create_datasample env channel d db' ≡ ok db'
  unfolding create_datasample
  create_datasample-replay channel d db db' h =
      insert-replay (λ b. exists data_sample_key d.key b.data_samples)
        (λ b.
          count (λ k. not (exists data_manager_key k b.data_managers)) d.data_manager_keys
          + env.field_errors (data_sample d))
        (λ b. record b {
          data_samples = save data_sample_key (data_sample_row channel d) b.data_samples;
        })
        db db' (exists-save_self data_sample_key (data_sample_row channel d) db.data_samples)
        (λ z. z) h

  pub create_model-replay :
      (channel : String) (m : ModelData) (db db' : Db)
      → create_model env channel m db ≡ ok db'
      → create_model env channel m db' ≡ ok db'
  unfolding create_model
  create_model-replay channel m db db' h =
      insert-replay (λ b. exists model_key m.key b.models)
        (λ b.
          (if exists task_key m.compute_task_key b.tasks then 0 else 1)
          + env.field_errors (model m))
        (λ b. record b { models = save model_key (model_row channel m) b.models }) db db'
        (exists-save_self model_key (model_row channel m) db.models) (λ z. z) h

  pub update_datamanager-replay :
      (key : ℕ) (d : DataManagerData) (db db' : Db)
      → update_datamanager env key d db ≡ ok db'
      → update_datamanager env key d db' ≡ ok db'
  unfolding update_datamanager
  update_datamanager-replay key d db db' h =
      let rows = db.data_managers in
      let (row, found, e) = or_raise-eq-ok does_not_exist (get? data_manager_key key rows) _ h in
      let edited = record row { name = d.name } in
      rw (← ok-injective _ _ e) (
        rw
          (
            get?-save_edited data_manager_key key row edited rows found refl,
            save-save_self data_manager_key edited rows,
          )
          refl)

  pub update_datasample-replay :
      (key : ℕ) (keys : List ℕ) (db db' : Db)
      → update_datasample env key keys db ≡ ok db'
      → update_datasample env key keys db' ≡ ok db'
  unfolding update_datasample known_data_managers
  update_datasample-replay key keys db db' h =
      let rows = db.data_samples in
      let (row, found, e) = or_raise-eq-ok does_not_exist (get? data_sample_key key rows) _ h in
      let edited = record row { data_managers = known_data_managers env keys db } in
      rw (← ok-injective _ _ e) (
        rw
          (
            get?-save_edited data_sample_key key row edited rows found refl,
            save-save_self data_sample_key edited rows,
          )
          refl)

  pub disable_model-replay :
      (key : ℕ) (db db' : Db)
      → disable_model env key db ≡ ok db'
      → disable_model env key db' ≡ ok db'
  unfolding disable_model
  disable_model-replay key db db' h =
      let rows = db.models in
      let (row, found, e) = or_raise-eq-ok does_not_exist (get? model_key key rows) _ h in
      let edited = record row { model_address = none } in
      rw (← ok-injective _ _ e) (
        rw
          (
            get?-save_edited model_key key row edited rows found refl,
            save-save_self model_key edited rows,
          )
          refl)

  -- The row that `update_function` saves.
  abbrev edited_function : FunctionData → Function → Function
  edited_function d f =
      set_image (nonempty (dict_get "storageAddress" d.image))
        (nonempty (dict_get "checksum" d.image))
        (record f { name = or_else (nonempty (some d.name)) f.name; status = d.status })

  set_image-key : (a c : Option String) (f : Function) → (set_image a c f).key ≡ f.key
  set_image-key none c f = refl
  set_image-key (some a) none f = refl
  set_image-key (some a) (some c) f = refl

  edited_function-key : (d : FunctionData) (f : Function) → (edited_function d f).key ≡ f.key
  edited_function-key d f = set_image-key (nonempty (dict_get "storageAddress" d.image)) _ _

  edited_function-edited_function :
      (d : FunctionData) (f : Function)
      → edited_function d (edited_function d f) ≡ edited_function d f
  edited_function-edited_function d f = ground arith

  pub update_function-replay :
      (key : ℕ) (d : FunctionData) (db db' : Db)
      → update_function env key d db ≡ ok db'
      → update_function env key d db' ≡ ok db'
  unfolding update_function
  update_function-replay key d db db' h =
      let rows = db.functions in
      let (row, found, e) = or_raise-eq-ok does_not_exist (get? function_key key rows) _ h in
      let edited = edited_function d row in
      rw (← ok-injective _ _ e) (
        rw
          (
            get?-save_edited function_key key row edited rows found (edited_function-key d row),
            edited_function-edited_function d row,
            save-save_self function_key edited rows,
          )
          refl)
