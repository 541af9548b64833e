-- ===== src/Builder/Saving.antt =====
-- `save_image` and `save_image_task` of backend/substrapp/tasks/tasks_save_image.py.
use substra_backend.Prelude.{
  ℕ, Bool, true, false, ◌≡◌, refl, Option, none, some, List, [], ◌∷◌, ◌==◌, if◌then◌else◌,
}
use substra_backend.Failures.{
  TaskException, execution_error, build_error, build_retry_error, build_canceled_error,
  invalid_context_error, celery_retry_error, celery_no_retry_error, soft_time_limit_exceeded,
  pod_timeout_error, other_exception, is_celery_retry,
}

-- What comes before the rows are written: the content of the zip that make_payload makes, the refusal of
-- the registry, or another exception.
pub data Payload : Type 0 where
  payload : ℕ → Payload
  precondition_failed : Payload
  payload_raises : TaskException → Payload

-- The rows: FunctionImage, and the image of a Function of the API, whose address is made of its key.
pub record ImageRow : Type 0 where
  pub function_id : ℕ
  pub file : ℕ

pub record FunctionRow : Type 0 where
  pub key : ℕ
  pub image_checksum : Option ℕ

pub record Rows : Type 0 where
  pub images : List ImageRow
  pub functions : List FunctionRow

abbrev pub set_image : ℕ → ℕ → List FunctionRow → Option (List FunctionRow)
set_image key checksum [] = none
set_image key checksum (f ∷ fs) =
    if f.key == key
    then some (record { key = key; image_checksum = some checksum } ∷ fs)
    else (elim (set_image key checksum fs) [ none ↦ none | some rest ↦ some (f ∷ rest) ])

-- What is returned, the checksum of the image, or raised.
pub data Saved : Type 0 where
  saved : ℕ → Saved
  raises : TaskException → Saved

module _ (checksum_of : ℕ → ℕ) (logs : ℕ) where
  abbrev pub with_function :
      ℕ → List ImageRow → List FunctionRow → Option (List FunctionRow) → Rows × Saved
  with_function checksum images before none =
      (record { images = images; functions = before }, raises (other_exception 404))
  with_function checksum images before (some functions) =
      (record { images = images; functions = functions }, saved checksum)

  -- The body of the try statement, up to the return.
  abbrev pub save_payload : ℕ → Payload → Rows → Rows × Saved
  save_payload key precondition_failed rows = (rows, raises (build_retry_error logs))
  save_payload key (payload_raises e) rows = (rows, raises e)
  save_payload key (payload content) rows =
      with_function (checksum_of content)
        (record { function_id = key; file = content } ∷ rows.images) rows.functions
        (set_image key (checksum_of content) rows.functions)

  -- except SoftTimeLimitExceeded
  abbrev pub convert_time_limit : Saved → Saved
  convert_time_limit (raises soft_time_limit_exceeded) = raises celery_retry_error
  convert_time_limit s = s

  unfoldable pub save_image : ℕ → Payload → Rows → Rows × Saved
  save_image key made rows =
      let (after, result) = save_payload key made rows in (after, convert_time_limit result)

  -- except BuildRetryError: raise; except Exception: CeleryNoRetryError
  abbrev pub convert_failure : TaskException → TaskException
  convert_failure (build_retry_error l) = build_retry_error l
  convert_failure _ = celery_no_retry_error

  abbrev pub convert_result : Saved → Saved
  convert_result (saved checksum) = saved checksum
  convert_result (raises e) = raises (convert_failure e)

  unfoldable pub save_image_task : ℕ → Payload → Rows → Rows × Saved
  save_image_task key made rows =
      let (after, result) = save_image key made rows in (after, convert_result result)

  abbrev pub is_retried : Saved → Bool
  is_retried (saved _) = false
  is_retried (raises e) = is_celery_retry e

  abbrev pub is_refused : Payload → Bool
  is_refused precondition_failed = true
  is_refused (payload_raises (build_retry_error _)) = true
  is_refused _ = false

  not_retried :
      (checksum : ℕ) (images : List ImageRow) (before : List FunctionRow)
      (o : Option (List FunctionRow))
      → is_retried (convert_result (convert_time_limit (with_function checksum images before o).1))
        ≡ false
  not_retried checksum images before none = refl
  not_retried checksum images before (some functions) = refl

  -- Celery retries `save_image_task` exactly where the registry refused the image, by the exception of
  -- make_payload or a BuildRetryError: in particular not where the soft time limit was exceeded, for which
  -- `save_image` raises a CeleryRetryError.
  pub save_image_task-retried :
      (key : ℕ) (made : Payload) (rows : Rows)
      → is_retried (save_image_task key made rows).1 ≡ is_refused made
  unfolding save_image_task save_image
  save_image_task-retried key precondition_failed rows = refl
  save_image_task-retried key (payload content) rows =
      not_retried (checksum_of content) (record { function_id = key; file = content } ∷ rows.images)
        rows.functions (set_image key (checksum_of content) rows.functions)
  save_image_task-retried key (payload_raises (build_error l)) rows = refl
  save_image_task-retried key (payload_raises (execution_error l)) rows = refl
  save_image_task-retried key (payload_raises (build_retry_error l)) rows = refl
  save_image_task-retried key (payload_raises build_canceled_error) rows = refl
  save_image_task-retried key (payload_raises invalid_context_error) rows = refl
  save_image_task-retried key (payload_raises celery_retry_error) rows = refl
  save_image_task-retried key (payload_raises celery_no_retry_error) rows = refl
  save_image_task-retried key (payload_raises soft_time_limit_exceeded) rows = refl
  save_image_task-retried key (payload_raises pod_timeout_error) rows = refl
  save_image_task-retried key (payload_raises (other_exception x)) rows = refl
