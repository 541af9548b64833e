-- ===== src/Builder/Examples.antt =====
-- The theorems about builds and failures at concrete runs.
use substra_backend.Prelude.{
  ℕ, true, zero, suc, ◌≤◌, ◌≡◌, refl, Option, none, some, List, [], ◌∷◌, length,
}
use substra_backend.Failures.{
  TaskException, build_error, build_retry_error, celery_no_retry_error, soft_time_limit_exceeded,
  logs_of, function_asset, FailureReport, Registration, store_asset_failure_report,
}
use substra_backend.Failures.Reports.{Reported, store_asset_failure_report-Reported}
use substra_backend.Builder.{Turns, finished, raised, build_from, build_image}
use substra_backend.Builder.Retries.{
  is_end, most_builds, Succeeded, build_image-bound, build_image-Succeeded,
}
use substra_backend.Builder.Saving.{
  Rows, payload_raises, is_retried, is_refused, save_image_task, save_image_task-retried,
}

-- The first build is to be tried again, and the second one succeeds.
abbrev builds : ℕ → Option TaskException
builds zero = some (build_retry_error 5)
builds (suc n) = none

abbrev turns : Turns
turns = record { check_function_is_runnable = λ n. true; build = builds }

build_image-bound_example :
    (is_end turns 7 (build_image turns 7).1 ≡ true)
    × (length (build_image turns 7).0 ≤ most_builds turns 7)
build_image-bound_example = build_image-bound turns 7

second_succeeds : (build_image turns 7).1 ≡ finished
unfolding build_image build_from
second_succeeds = refl

build_image-Succeeded_example : Succeeded turns 7 (build_image turns 7).0
build_image-Succeeded_example = build_image-Succeeded turns 7 second_succeeds

-- Where each build is to be tried again, three are made with three retries, and then the logs are lost:
-- the exception that is raised has none.
abbrev failing : Turns
failing = record { check_function_is_runnable = λ n. true; build = λ n. some (build_retry_error 5) }

exhausted : build_image failing 3 ≡ (0 ∷ 1 ∷ 2 ∷ [], raised celery_no_retry_error)
unfolding build_image build_from
exhausted = refl

logs_lost : logs_of celery_no_retry_error ≡ none
logs_lost = refl

abbrev hash : ℕ → ℕ
hash logs = logs

abbrev reports : List FailureReport
reports = []

store_asset_failure_report-Reported_example :
    (after : List FailureReport) × (told : Registration) × (store_asset_failure_report hash hash
        (build_error 5)
        1
        function_asset
        reports
      ≡ some (after, told))
    × (told.asset_key ≡ 1)
    × Reported hash hash 1 function_asset (some 5) reports after told
store_asset_failure_report-Reported_example =
    store_asset_failure_report-Reported hash hash 1 function_asset (build_error 5) reports

abbrev rows : Rows
rows = record { images = []; functions = [] }

save_image_task-retried_example :
    is_retried hash 5 (save_image_task hash 5 1 (payload_raises soft_time_limit_exceeded) rows).1
    ≡ is_refused hash 5 (payload_raises soft_time_limit_exceeded)
save_image_task-retried_example =
    save_image_task-retried hash 5 1 (payload_raises soft_time_limit_exceeded) rows
