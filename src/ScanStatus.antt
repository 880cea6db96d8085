-- ===== src/ScanStatus.antt =====
-- The kind AtlasSecurityScan and the methods that read and write its status
-- (api/v1alpha1/atlassecurityscan_types.go). An instant is a number of nanoseconds.
pub mod Resource
use atlas_operator.Prelude.{
  ℕ, Bool, true, false, ◌&&◌, ◌||◌, String, List, [], ◌∷◌, Option, none, some, ℤ, str_eq,
  if◌then◌else◌,
}
use atlas_operator.Conditions.{
  ConditionApi, Condition, ConditionStatus, condition, cond_true, cond_false, cond_unknown,
  is_cond_true, ready_cond, reconciling_cond, stalled_cond, compliant_cond, set_condition,
}
use atlas_operator.Reason.{
  reason_reconciling, reason_scanning, reason_scanned, reason_retrying, reason_suspended,
  reason_not_scanned,
}
unfoldable pub use Resource.*

-- IsSuspended
unfoldable pub is_suspended : AtlasSecurityScan → Bool
is_suspended s = elim s.spec.suspend [ none ↦ false | some b ↦ b ]

-- The minimum severity of a policy.
min_severity_of : Option ScanPolicy → SecurityLevel
min_severity_of none = normal
min_severity_of (some p) = elim p.min_severity [ none ↦ normal | some l ↦ l ]

-- MinSeverity
unfoldable pub min_severity : AtlasSecurityScan → SecurityLevel
unfolding min_severity_of
min_severity s = min_severity_of s.spec.policy

-- BackoffLimit
unfoldable pub backoff_limit : AtlasSecurityScan → ℕ
backoff_limit s = elim s.spec.backoff_limit [ none ↦ 20 | some l ↦ l ]

-- SecurityLevels
abbrev pub security_levels : List SecurityLevel
security_levels = normal ∷ elevated ∷ high ∷ critical ∷ []

-- LevelIndex plus one, so that an unknown level, -1 in the source, is 0. The empty level of a
-- summary is unknown too.
unfoldable pub level_rank : SecurityLevel → ℕ
level_rank normal = 1
level_rank elevated = 2
level_rank high = 3
level_rank critical = 4
level_rank (other_level s) = 0

abbrev observe : AtlasSecurityScan → AtlasSecurityScan
observe s = record s { status = record s.status { observed_generation = s.generation } }

module _ (api : ConditionApi) where
  -- IsReady
  unfoldable pub is_ready : AtlasSecurityScan → Bool
  is_ready s = api.is_status_condition_true s.status.conditions ready_cond

  -- IsStalled
  unfoldable pub is_stalled : AtlasSecurityScan → String → Bool
  is_stalled s reason = elim (api.find_status_condition s.status.conditions stalled_cond) [
    | none ↦ false
    | some c ↦ is_cond_true c.status && (str_eq reason "" || str_eq c.reason reason)
  ]

  -- WasSuspended
  unfoldable pub was_suspended : AtlasSecurityScan → Bool
  was_suspended s = elim (api.find_status_condition s.status.conditions reconciling_cond) [
    | none ↦ false
    | some c ↦ str_eq c.reason reason_suspended
  ]

  -- setCondition
  abbrev set_cond : AtlasSecurityScan → Condition → AtlasSecurityScan
  set_cond s cond = record s {
    status = record s.status {
      conditions = set_condition api s.generation s.status.conditions cond;
    };
  }

  -- setConditions
  set_conditions : AtlasSecurityScan → ConditionStatus → String → String → Bool → AtlasSecurityScan
  set_conditions s ready reason message reconciling =
      let a = set_cond s (condition ready_cond ready reason message) in
      let recon : ConditionStatus = if reconciling then cond_true else cond_false in
      let b = set_cond a (condition reconciling_cond recon reason message) in
      set_cond b (condition stalled_cond cond_false reason "")

  -- SetCompliant
  unfoldable pub set_compliant :
      AtlasSecurityScan → ConditionStatus → String → String → AtlasSecurityScan
  set_compliant s status reason message =
      set_cond s (condition compliant_cond status reason message)

  -- SetFirstVisit
  unfoldable pub set_first_visit : AtlasSecurityScan → AtlasSecurityScan
  unfolding set_conditions set_compliant
  set_first_visit s =
      let a = set_conditions s cond_unknown reason_reconciling "Reconciling" true in
      set_compliant a cond_unknown reason_not_scanned "no successful scan yet"

  -- SetScanning
  unfoldable pub set_scanning : AtlasSecurityScan → AtlasSecurityScan
  set_scanning s =
      let a = elim s.status.last_successful_time as (λ t. AtlasSecurityScan) [
        | none ↦
            set_cond s
              (condition ready_cond cond_unknown reason_scanning "the first scan is running")
        | some t ↦ s
      ] in
      let b =
        set_cond a (condition reconciling_cond cond_true reason_scanning "a scan is running") in
      set_cond b (condition stalled_cond cond_false reason_scanning "")

  -- SetScanned
  unfoldable pub set_scanned : AtlasSecurityScan → String → AtlasSecurityScan
  unfolding set_conditions
  set_scanned s message =
      let a = set_conditions (observe s) cond_true reason_scanned message false in
      record a { status = record a.status { failed = 0 } }

  -- The message that SetIdle keeps.
  idle_message : Option Condition → String
  idle_message none = "no scan is due"
  idle_message (some c) = if is_cond_true c.status then c.message else "no scan is due"

  -- SetIdle
  unfoldable pub set_idle : AtlasSecurityScan → AtlasSecurityScan
  unfolding idle_message set_scanned
  set_idle s =
      set_scanned s (idle_message (api.find_status_condition s.status.conditions ready_cond))

  -- SetRetrying
  unfoldable pub set_retrying : AtlasSecurityScan → String → String → AtlasSecurityScan
  set_retrying s reason message =
      let a = set_cond s (condition ready_cond cond_false reason message) in
      let b = set_cond a (condition reconciling_cond cond_true reason_retrying message) in
      set_cond b (condition stalled_cond cond_false reason_retrying "")

  -- SetStalled
  unfoldable pub set_stalled : AtlasSecurityScan → String → String → AtlasSecurityScan
  set_stalled s reason message =
      let a = set_cond s (condition ready_cond cond_false reason message) in
      let b = set_cond a (condition reconciling_cond cond_false reason message) in
      observe (set_cond b (condition stalled_cond cond_true reason message))

  -- SetSuspended
  unfoldable pub set_suspended : AtlasSecurityScan → AtlasSecurityScan
  set_suspended s =
      let a =
        elim (api.find_status_condition s.status.conditions ready_cond)
          as (λ c. AtlasSecurityScan) [
            | none ↦
                set_cond s
                  (condition ready_cond cond_unknown reason_suspended "scanning is suspended")
            | some c ↦ s
          ] in
      let b =
        set_cond a
          (condition reconciling_cond cond_false reason_suspended "scanning is suspended") in
      observe (set_cond b (condition stalled_cond cond_false reason_suspended ""))
