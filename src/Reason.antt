-- ===== src/Reason.antt =====
-- The reasons of conditions and events (api/v1alpha1/reason.go).
use atlas_operator.Prelude.{Bool, String, ◌||◌, not, str_eq}

abbrev pub reason_reconciling : String
reason_reconciling = "Reconciling"

abbrev pub reason_getting_dev_db : String
reason_getting_dev_db = "GettingDevDB"

abbrev pub reason_who_am_i : String
reason_who_am_i = "WhoAmI"

abbrev pub reason_applied : String
reason_applied = "Applied"

abbrev pub reason_approval_pending : String
reason_approval_pending = "ApprovalPending"

abbrev pub reason_creating_working_dir : String
reason_creating_working_dir = "CreatingWorkingDir"

abbrev pub reason_creating_atlas_client : String
reason_creating_atlas_client = "CreatingAtlasClient"

abbrev pub reason_login : String
reason_login = "Login"

abbrev pub reason_reading_migration_data : String
reason_reading_migration_data = "ReadingMigrationData"

abbrev pub reason_migrating : String
reason_migrating = "Migrating"

abbrev pub reason_storing_dir_state : String
reason_storing_dir_state = "StoringDirState"

abbrev pub reason_drift_detected : String
reason_drift_detected = "DriftDetected"

abbrev pub reason_checked : String
reason_checked = "Checked"

abbrev pub reason_no_drift : String
reason_no_drift = "NoDrift"

abbrev pub reason_check_failed : String
reason_check_failed = "CheckFailed"

abbrev pub reason_target_not_found : String
reason_target_not_found = "TargetNotFound"

abbrev pub reason_target_not_ready : String
reason_target_not_ready = "TargetNotReady"

abbrev pub reason_suspended : String
reason_suspended = "Suspended"

abbrev pub reason_no_migration_history : String
reason_no_migration_history = "NoMigrationHistory"

abbrev pub reason_scanning : String
reason_scanning = "Scanning"

abbrev pub reason_scanned : String
reason_scanned = "Scanned"

abbrev pub reason_retrying : String
reason_retrying = "Retrying"

abbrev pub reason_backoff_limit_exceeded : String
reason_backoff_limit_exceeded = "BackoffLimitExceeded"

abbrev pub reason_not_scanned : String
reason_not_scanned = "NotScanned"

abbrev pub reason_no_threshold : String
reason_no_threshold = "NoThreshold"

abbrev pub reason_within_policy : String
reason_within_policy = "WithinPolicy"

abbrev pub reason_policy_violated : String
reason_policy_violated = "PolicyViolated"

abbrev pub reason_report_stale : String
reason_report_stale = "ReportStale"

-- isFailedReason
unfoldable pub is_failed_reason : String → Bool
is_failed_reason reason = not (
    str_eq reason reason_reconciling
    || (str_eq reason reason_getting_dev_db || str_eq reason reason_approval_pending))
