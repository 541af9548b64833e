-- ===== src/Sync/Duplicates.antt =====
-- The events for which a second delivery to `sync_on_event_message` of backend/api/events/sync.py is
-- not idempotent.
pub mod OutputAssets
use substra_backend.Prelude.{
  ℕ, zero, suc, String, ◌+◌, ◌≡◌, refl, sym, ◌∙◌, ap, Bool, true, false, not, ◌||◌, ◌&&◌, Option,
  none, some, List, [], ◌∷◌, ◌++◌, if◌then◌else◌, ◌==◌, Result, ok, err, Error, integrity_error,
  does_not_exist, ◌>>=◌, or_raise, arith, Bool-cases, inl, inr, any, filter, str_eq, str_eq_iff,
  ==_iff, bind-eq-ok, or_raise-eq-ok, ok-injective, ==_refl,
}
use substra_backend.Models.{
  Db, ComputeTaskInput, ComputeTaskOutput, ComputeTaskInputAsset, ComputeTaskOutputAsset,
  Performance, FunctionProfilingStep,
}
use substra_backend.Sync.Events.{
  Env, OutputAssetData, PerformanceData, ProfilingStepData, performance,
}
use substra_backend.Sync.Saving.{save_if_not_exists, unless_invalid}
use substra_backend.Sync.Assets.{create_profiling_step, same_step, step_row, function_key}
use substra_backend.Store.{exists}
use substra_backend.Sync.Inputs.{create_input_asset, find_output, same_input}
use substra_backend.Sync.Outputs.{
  create_input_assets, awaits, create_computetask_output_asset, create_performance,
  insert_performance, performance_row, output_asset_row, input_asset_row,
}

str_eq_refl : (s : String) → str_eq s s ≡ true
str_eq_refl s = (str_eq_iff s s).1 refl

pub any-append :
    {A : Type 0} (p : A → Bool) (xs ys : List A) → any p (xs ++ ys) ≡ (any p xs || any p ys)
any-append p [] ys = refl
any-append p (x ∷ xs) ys = ground (arith, any-append p xs ys)

pub same_input_self : (i : ComputeTaskInput) → same_input i i ≡ true
same_input_self i = rw (==_refl i.task, str_eq_refl i.identifier, ==_refl i.position) refl

pub or-true : (b : Bool) → (b || true) ≡ true
or-true true = refl
or-true false = refl

abbrev with_step : ℕ → ProfilingStepData → Db → Db
with_step key p db = record db { profiling_steps = db.profiling_steps ++ step_row key p ∷ [] }

-- A profiling step that is delivered again raises an IntegrityError.
pub create_profiling_step-replay :
    (env : Env) (key : ℕ) (p : ProfilingStepData) (db db' : Db)
    → create_profiling_step env key p db ≡ ok db'
    → create_profiling_step env key p db' ≡ err integrity_error
unfolding create_profiling_step
create_profiling_step-replay env key p db db' h =
    elim (Bool-cases
      (any (same_step key p) db.profiling_steps || not (exists function_key key db.functions))) [
        | inl taken ↦ let raised : err integrity_error ≡ ok db' = rw taken at h in cc raised
        | inr fresh ↦
            let e : ok (with_step key p db) ≡ ok db' = rw fresh at h in
            rw (← ok-injective _ _ e) (
              rw
                (
                  any-append (same_step key p) db.profiling_steps (step_row key p ∷ []),
                  ==_refl key,
                  str_eq_refl p.step,
                  or-true (any (same_step key p) db.profiling_steps),
                )
                refl)
      ]

valid-insertion :
    (env : Env) (channel : String) (p : PerformanceData) (db : Db)
    → env.field_errors (performance p) ≡ 0
    → create_performance env channel p db ≡ insert_performance channel p db
unfolding create_performance save_if_not_exists insert_performance
valid-insertion env channel p db clean = rw clean (ground arith)

-- A performance that is delivered again gets a second row, the same as the first. (The serializer
-- finds no error in the fields of the performance: otherwise nothing is written.)
pub create_performance-replay :
    (env : Env) (channel : String) (p : PerformanceData) (db db' : Db)
    → env.field_errors (performance p) ≡ 0
    → create_performance env channel p db ≡ ok db'
    → (output : ComputeTaskOutput) × (db'.performances
        ≡ db.performances ++ performance_row channel p output ∷ [])
      × (create_performance env channel p db'
          ≡ ok (record db' {
            performances = db'.performances ++ performance_row channel p output ∷ [];
          }))
unfolding insert_performance
create_performance-replay env channel p db db' clean h =
    let (output, found, e) =
      or_raise-eq-ok does_not_exist
        (find_output p.compute_task_key p.compute_task_output_identifier
          (filter (λ (o : ComputeTaskOutput). str_eq o.channel channel) db.task_outputs))
        _ (sym (valid-insertion env channel p db clean) ∙ h) in
    (
      output,
      ap (λ (b : Db). b.performances) (sym (ok-injective _ _ e)),
      valid-insertion env channel p db' clean ∙ rw (← ok-injective _ _ e) (rw found refl),
    )
