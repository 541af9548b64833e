-- ===== src/Failures/Reports.antt =====
-- What is told of a failure, and what is stored of it.
use substra_backend.Prelude.{ℕ, true, ◌≡◌, refl, Option, none, some, List, [], ◌∷◌, arith, ==_refl}
use substra_backend.Failures.{
  TaskException, execution_error, build_error, build_retry_error, build_canceled_error,
  invalid_context_error, celery_retry_error, celery_no_retry_error, soft_time_limit_exceeded,
  pod_timeout_error, other_exception, type_build, type_execution, type_internal, stores_logs,
  logs_of, get_error_type, AssetKind, FailureReport, Registration, save_report, find_report,
  report_of, store_failure, register, store_asset_failure_report,
}

find-save :
    (r : FailureReport) (rows : List FailureReport)
    → find_report r.asset_key (save_report r rows) ≡ some r
find-save r [] = rw (==_refl r.asset_key) refl
find-save r (x ∷ xs) = ground (arith, ==_refl r.asset_key, find-save r xs)

module _ (get_hash : ℕ → ℕ) (address_of : ℕ → ℕ) (key : ℕ) (kind : AssetKind) where
  -- What a report of an exception with these logs, or with none, leaves and tells.
  abbrev pub Reported : Option ℕ → List FailureReport → List FailureReport → Registration → Type 0
  Reported none before after told =
      (after ≡ before) × (told.logs_address ≡ none) × (told.error_type ≡ type_internal)
  Reported (some logs) before after told =
      (find_report key after ≡ some (report_of get_hash address_of key kind logs))
      × (told.logs_address
          ≡ some (record { checksum = get_hash logs; storage_address = address_of key }))
      × (stores_logs told.error_type ≡ true)

  abbrev NoLogs : List FailureReport → Type 0
  NoLogs rows =
      (after : List FailureReport) × (told : Registration) × (register get_hash address_of key kind
          type_internal (some (rows, none))
        ≡ some (after, told))
      × (told.asset_key ≡ key)
      × Reported none rows after told

  no_logs : (rows : List FailureReport) → NoLogs rows
  no_logs rows = (
    rows,
    record { asset_key = key; error_type = type_internal; asset_type = kind; logs_address = none },
    refl,
    refl,
    (refl, refl, refl),
  )

  -- `store_asset_failure_report` never meets a missing attribute. For an exception that has logs, these
  -- stand in the row of the asset, and the orchestrator is told their checksum and their address, with an
  -- error of a build or of an execution; for one that has none, no row changes, and the orchestrator is
  -- told an internal error without an address.
  pub store_asset_failure_report-Reported :
      (e : TaskException) (rows : List FailureReport)
      → (after : List FailureReport) × (told : Registration) × (store_asset_failure_report get_hash
            address_of e key kind rows
          ≡ some (after, told))
        × (told.asset_key ≡ key)
        × Reported (logs_of e) rows after told
  unfolding store_asset_failure_report store_failure get_error_type
  store_asset_failure_report-Reported (execution_error logs) rows = (
    save_report (report_of get_hash address_of key kind logs) rows,
    record {
      asset_key = key;
      error_type = type_execution;
      asset_type = kind;
      logs_address = some (record { checksum = get_hash logs; storage_address = address_of key });
    },
    refl,
    refl,
    (find-save (report_of get_hash address_of key kind logs) rows, refl, refl),
  )
  store_asset_failure_report-Reported (build_error logs) rows = (
    save_report (report_of get_hash address_of key kind logs) rows,
    record {
      asset_key = key;
      error_type = type_build;
      asset_type = kind;
      logs_address = some (record { checksum = get_hash logs; storage_address = address_of key });
    },
    refl,
    refl,
    (find-save (report_of get_hash address_of key kind logs) rows, refl, refl),
  )
  store_asset_failure_report-Reported (build_retry_error logs) rows = (
    save_report (report_of get_hash address_of key kind logs) rows,
    record {
      asset_key = key;
      error_type = type_build;
      asset_type = kind;
      logs_address = some (record { checksum = get_hash logs; storage_address = address_of key });
    },
    refl,
    refl,
    (find-save (report_of get_hash address_of key kind logs) rows, refl, refl),
  )
  store_asset_failure_report-Reported build_canceled_error rows = no_logs rows
  store_asset_failure_report-Reported invalid_context_error rows = no_logs rows
  store_asset_failure_report-Reported celery_retry_error rows = no_logs rows
  store_asset_failure_report-Reported celery_no_retry_error rows = no_logs rows
  store_asset_failure_report-Reported soft_time_limit_exceeded rows = no_logs rows
  store_asset_failure_report-Reported pod_timeout_error rows = no_logs rows
  store_asset_failure_report-Reported (other_exception x) rows = no_logs rows
