-- ===== src/DriftCheck/Classify.antt =====
-- The classification of a failed check (internal/controller/atlasdriftcheck_controller.go).
use atlas_operator.Prelude.{
  Bool, false, ◌||◌, String, List, [], ◌∷◌, Option, none, some, str_eq, concat, contains,
  trim_space, or_text, if◌then◌else◌,
}
use atlas_operator.Reason.{reason_check_failed, reason_no_migration_history}
use atlas_operator.Errors.{
  GoError, plain, permanent_error, err_locked, error_text, as_migrate_drift, is_require_login,
  is_deadline_exceeded,
}

-- The first error of the results of a failed check, or else the text.
abbrev pub first_error : List String → String → String
first_error [] msg = msg
first_error (e ∷ es) msg = if str_eq e "" then first_error es msg else e

drift_text : GoError → Option (String × List String) → String
unfolding error_text
drift_text e none = error_text e
drift_text e (some (stderr, results)) = first_error results (or_text stderr (error_text e))

-- The message of classifyError.
unfoldable pub error_message : GoError → String
unfolding drift_text as_migrate_drift trim_space
error_message e =
    or_text (trim_space (drift_text e (as_migrate_drift e)))
      "the drift check could not be completed"

abbrev pub contains_any : String → List String → Bool
contains_any msg [] = false
contains_any msg (p ∷ ps) = contains msg p || contains_any msg ps

-- The errors that will not change by retrying.
abbrev pub lasting_errors : List String
lasting_errors =
    "no state found for version" ∷ "has no hash to resolve" ∷ "parsing expected state"
    ∷ "is available only to Atlas Pro users" ∷ []

-- classifyError, by its message and whether the context is done.
unfoldable pub classify_error : Bool → GoError → GoError
unfolding error_message is_deadline_exceeded is_require_login
classify_error context_done e =
    let msg = error_message e in
    if context_done || is_deadline_exceeded e
    then plain (concat ("the drift check timed out: " ∷ msg ∷ []))
    else if contains msg "acquiring database lock"
    then err_locked
    else if is_require_login e
    then permanent_error reason_check_failed (plain msg)
    else if contains msg "no migration history found"
    then permanent_error reason_no_migration_history (plain msg)
    else if contains_any msg lasting_errors
    then permanent_error reason_check_failed (plain msg)
    else plain msg
