-- ===== src/ScanStatus/Resource.antt =====
-- The data of an AtlasSecurityScan (api/v1alpha1/atlassecurityscan_types.go). An instant is a
-- number of nanoseconds.
use atlas_operator.Prelude.{ℕ, Bool, String, List, Option, ℤ}
use atlas_operator.Conditions.{Condition}

-- SecurityLevel; a level that is none of the four is kept as its text.
pub data SecurityLevel : Type 0 where
  normal elevated high critical : SecurityLevel
  other_level : String → SecurityLevel

-- ScanTriggerKind
pub data ScanTriggerKind : Type 0 where
  schema_kind migration_kind : ScanTriggerKind
  other_kind : String → ScanTriggerKind

-- ScanTrigger; `no_trigger` is the empty text.
pub data ScanTrigger : Type 0 where
  trigger_spec trigger_manual trigger_apply trigger_schedule trigger_policy no_trigger : ScanTrigger

-- ScanResult; `no_result` is the empty text.
pub data ScanResult : Type 0 where
  scan_succeeded scan_failed no_result : ScanResult

-- ScanTriggerRef
pub record ScanTriggerRef : Type 0 where
  pub kind : ScanTriggerKind
  pub name : String

-- IgnoredVulnerability, with the fields of its Waiver.
pub record IgnoredVulnerability : Type 0 where
  pub id : String
  pub waiver_reason : String
  pub expiration_time : Option ℕ

-- ScanPolicy; no minimum severity is the empty text.
pub record ScanPolicy : Type 0 where
  pub min_severity : Option SecurityLevel
  pub fail_on : Option SecurityLevel
  pub ignore : List IgnoredVulnerability

-- ScanAttempt
pub record ScanAttempt : Type 0 where
  pub trigger : ScanTrigger
  pub triggered_by : String
  pub start_time : ℕ
  pub completion_time : Option ℕ
  pub attempt_result : ScanResult
  pub message : String
  pub inputs_hash : String

-- ObservedTrigger
pub record ObservedTrigger : Type 0 where
  pub kind : ScanTriggerKind
  pub name : String
  pub uid : String
  pub revision : String

-- LevelCount
pub record LevelCount : Type 0 where
  pub level : SecurityLevel
  pub level_count : ℕ

-- ScanSummary
pub record ScanSummary : Type 0 where
  pub driver : String
  pub extensions : ℕ
  pub total : ℕ
  pub waived : ℕ
  pub highest_level : Option SecurityLevel
  pub levels : List LevelCount

-- AtlasSecurityScanSpec, less the target, the project configuration and the cloud.
pub record ScanSpec : Type 0 where
  pub schedule : String
  pub time_zone : String
  pub triggers : List ScanTriggerRef
  pub suspend : Option Bool
  pub policy : Option ScanPolicy
  pub backoff_limit : Option ℕ

-- AtlasSecurityScanStatus
pub record ScanStatus : Type 0 where
  pub observed_generation : ℤ
  pub conditions : List Condition
  pub last_scan : Option ScanAttempt
  pub last_successful_time : Option ℕ
  pub last_schedule_time : Option ℕ
  pub next_schedule_time : Option ℕ
  pub last_handled_scan_request : String
  pub triggers : List ObservedTrigger
  pub active_waivers : List String
  pub summary : Option ScanSummary
  pub report_ref : Option String
  pub failed : ℕ

-- AtlasSecurityScan; the creation timestamp is none where it is the zero time.
pub record AtlasSecurityScan : Type 0 where
  pub name : String
  pub namespace : String
  pub generation : ℤ
  pub creation_timestamp : Option ℕ
  pub scan_requested_at : String
  pub spec : ScanSpec
  pub status : ScanStatus
