-- ===== src/DriftCheck/Events.antt =====
-- The events of a reconciliation (internal/controller/atlasdriftcheck_controller.go).
use atlas_operator.Prelude.{
  Bool, false, not, ◌&&◌, ◌||◌, String, List, [], ◌∷◌, ◌++◌, Option, none, some, str_eq,
  if◌then◌else◌,
}
use atlas_operator.Conditions.{
  ConditionApi, Condition, is_cond_true, is_cond_false, ready_cond, drifted_cond,
}
use atlas_operator.Reason.{reason_check_failed, reason_drift_detected}
use atlas_operator.Recorder.{RecordedEvent, event, warning_event, normal_event}
use atlas_operator.DriftStatus.{AtlasDriftCheckStatus}

abbrev pub is_true : Option Condition → Bool
is_true none = false
is_true (some c) = is_cond_true c.status

abbrev pub message_of : Option Condition → String
message_of none = ""
message_of (some c) = c.message

-- The first switch of recordTransitions, on the conditions Drifted before and now.
unfoldable pub drift_events : Option Condition → Option Condition → Bool → List RecordedEvent
drift_events was now fingerprint_changed =
    if not (is_true was) && is_true now
    then event warning_event reason_drift_detected (message_of now) ∷ []
    else if is_true was && (is_true now && fingerprint_changed)
    then event warning_event "DriftChanged" (message_of now) ∷ []
    else elim now [
      | none ↦ []
      | some c ↦
          if is_true was && is_cond_false c.status
          then event normal_event "DriftResolved" c.message ∷ []
          else []
    ]

-- Whether the failure of the condition Ready was already reported.
abbrev pub same_failure : Option Condition → Condition → Bool
same_failure none now = false
same_failure (some was) now =
    is_cond_false was.status && (str_eq was.reason now.reason && str_eq was.message now.message)

-- The rest of recordTransitions, on the conditions Ready before and now.
unfoldable pub ready_events : Option Condition → Option Condition → List RecordedEvent
ready_events was none = []
ready_events was (some now) =
    if not (is_cond_false now.status) || str_eq now.reason reason_drift_detected
    then []
    else if same_failure was now
    then []
    else event warning_event reason_check_failed now.message ∷ []

module _ (api : ConditionApi) where
  -- recordTransitions
  unfoldable pub record_transitions :
      AtlasDriftCheckStatus → AtlasDriftCheckStatus → List RecordedEvent
  unfolding drift_events ready_events
  record_transitions prev res =
      drift_events (api.find_status_condition prev.conditions drifted_cond)
        (api.find_status_condition res.conditions drifted_cond)
        (not (str_eq prev.fingerprint res.fingerprint))
      ++ ready_events (api.find_status_condition prev.conditions ready_cond)
          (api.find_status_condition res.conditions ready_cond)
