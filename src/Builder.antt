-- ===== src/Builder.antt =====
-- How the image of a function is built, and saved: backend/builder/tasks/tasks_build_image.py,
-- backend/builder/image_builder/image_builder.py and backend/substrapp/tasks/tasks_save_image.py.
pub mod Retries
pub mod Pods
pub mod Saving
mod Examples
use substra_backend.Prelude.{
  ℕ, Bool, true, false, ◌&&◌, not, zero, suc, leb, Option, none, some, List, [], ◌∷◌, if◌then◌else◌,
  all, any,
}
use substra_backend.Models.{
  PlanStatus, plan_canceled, plan_failed, FunctionStatus, function_canceled,
}
use substra_backend.Failures.{
  TaskException, build_error, build_retry_error, build_canceled_error, celery_no_retry_error,
  pod_timeout_error, other_exception,
}

-- What the loop meets at its n-th turn: whether the function may still be built (the answer of
-- check_function_is_runnable, which raises nothing here), and what the build
-- raises, if it does.
pub record Turns : Type 0 where
  pub check_function_is_runnable : ℕ → Bool
  pub build : ℕ → Option TaskException

-- How the loop ends: `out_of_fuel` is no end of the program, but of the fuel that is given here.
pub data Ending : Type 0 where
  finished : Ending
  raised : TaskException → Ending
  out_of_fuel : Ending

module _ (turns : Turns) (max_retries : ℕ) where
  -- The except clauses, at this turn: the builds that follow, and the ending.
  abbrev pub after_failure : ℕ → TaskException → List ℕ × Ending → List ℕ × Ending
  after_failure attempt (build_retry_error logs) (builds, ending) =
      if leb max_retries (suc attempt)
      then (attempt ∷ [], raised celery_no_retry_error)
      else (attempt ∷ builds, ending)
  after_failure attempt (build_error logs) rest = (attempt ∷ [], raised (build_error logs))
  after_failure attempt e rest = (attempt ∷ [], raised celery_no_retry_error)

  abbrev pub after_build : ℕ → Option TaskException → List ℕ × Ending → List ℕ × Ending
  after_build attempt none rest = (attempt ∷ [], finished)
  after_build attempt (some e) rest = after_failure attempt e rest

  -- The loop of `build_image`: the turns at which it builds, and how it ends.
  unfoldable pub build_from : ℕ → ℕ → List ℕ × Ending
  build_from zero attempt = ([], out_of_fuel)
  build_from (suc fuel) attempt =
      let rest = build_from fuel (suc attempt) in
      if leb attempt max_retries
      then (if not (turns.check_function_is_runnable attempt)
          then ([], raised build_canceled_error)
          else after_build attempt (turns.build attempt) rest)
      else ([], finished)

  -- One turn more than the condition of the loop lets pass.
  unfoldable pub build_image : List ℕ × Ending
  build_image = build_from (suc max_retries) zero

-- check_function_is_runnable: the statuses of the compute plans that use the function
abbrev pub is_stopped : PlanStatus → Bool
is_stopped plan_canceled = true
is_stopped plan_failed = true
is_stopped _ = false

abbrev pub is_runnable : List PlanStatus → Bool
is_runnable [] = true
is_runnable (s ∷ ss) = not (all is_stopped (s ∷ ss))

-- With the status of the function, which is canceled where it is not runnable.
unfoldable pub check_function_is_runnable : List PlanStatus → FunctionStatus → FunctionStatus × Bool
check_function_is_runnable statuses status =
    (if is_runnable statuses then status else function_canceled, is_runnable statuses)
