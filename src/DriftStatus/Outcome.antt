-- ===== src/DriftStatus/Outcome.antt =====
-- What the setters of an AtlasDriftCheck show and keep (api/v1alpha1/atlasdriftcheck_types.go).
use atlas_operator.Prelude.{
  ◌≡◌, refl, Bool, false, not, String, Option, none, some, ℕ, arith, str_eq,
}
use atlas_operator.Conditions.{
  ConditionApi, Condition, ConditionStatus, cond_true, cond_false, cond_unknown, ready_cond,
  reconciling_cond, stalled_cond, drifted_cond, find-set_condition,
}
use atlas_operator.Reason.{
  reason_checked, reason_no_drift, reason_drift_detected, reason_target_not_ready, reason_suspended,
}
use atlas_operator.DriftStatus.{
  AtlasDriftCheck, AtlasDriftCheckStatus, MigrateDrift, DriftAction, fail, report, bool_condition,
  set_checked, set_drifted, set_check_failed, set_target_not_ready, set_suspended,
}

-- The status and the reason of a condition, if there is one.
pub view : Option Condition → Option (ConditionStatus × String)
view none = none
view (some d) = some (d.status, d.reason)

abbrev pub shown : ConditionApi → AtlasDriftCheck → String → Option (ConditionStatus × String)
shown api c type = view (api.find_status_condition c.status.conditions type)

-- Two statuses hold the same result of a completed check.
pub record SameResult (a b : AtlasDriftCheckStatus) : Type 0 where
  pub same_version : a.version ≡ b.version
  pub same_fingerprint : a.fingerprint ≡ b.fingerprint
  pub same_mode : a.mode ≡ b.mode
  pub same_summary : a.summary ≡ b.summary
  pub same_last_check_time : a.last_check_time ≡ b.last_check_time

module _ (api : ConditionApi) where
  -- A check that could not be completed is not ready, is either stalled (when the failure is
  -- permanent) or reconciling (when it is not) and never both, reports drift as unknown, all for
  -- the given reason, and keeps the result of the last completed check.
  pub set_check_failed-shown :
      (c : AtlasDriftCheck) (reason message : String) (permanent : Bool)
      → (shown api (set_check_failed api c reason message permanent) ready_cond
          ≡ some (cond_false, reason))
        × (shown api (set_check_failed api c reason message permanent) reconciling_cond
            ≡ some (bool_condition (not permanent), reason))
        × (shown api (set_check_failed api c reason message permanent) stalled_cond
            ≡ some (bool_condition permanent, reason))
        × (shown api (set_check_failed api c reason message permanent) drifted_cond
            ≡ some (cond_unknown, reason))
        × SameResult (set_check_failed api c reason message permanent).status c.status
  unfolding set_check_failed view
  set_check_failed-shown c reason message permanent = (
    simp (find-set_condition, view),
    simp (find-set_condition, view),
    simp (find-set_condition, view),
    simp (find-set_condition, view),
    record {
      same_version = refl;
      same_fingerprint = refl;
      same_mode = refl;
      same_summary = refl;
      same_last_check_time = refl;
    },
  )

  -- A check that is skipped because its target is applying, or because it is suspended, changes no
  -- condition but Reconciling and keeps the result of the last completed check.
  skipped-shown :
      (c : AtlasDriftCheck) (message type : String)
      → str_eq reconciling_cond type ≡ false
      → (shown api (set_target_not_ready api c message) type ≡ shown api c type)
        × (shown api (set_suspended api c) type ≡ shown api c type)
        × (shown api (set_target_not_ready api c message) reconciling_cond
            ≡ some (cond_true, reason_target_not_ready))
        × (shown api (set_suspended api c) reconciling_cond ≡ some (cond_false, reason_suspended))
        × SameResult (set_target_not_ready api c message).status c.status
        × SameResult (set_suspended api c).status c.status
  unfolding set_target_not_ready set_suspended view
  skipped-shown c message type h = (
    simp (find-set_condition, h, view),
    simp (find-set_condition, h, view),
    simp (find-set_condition, view),
    simp (find-set_condition, view),
    ground arith,
    ground arith,
  )

  -- A completed check without drift.
  pub set_checked-shown :
      (now : ℕ) (c : AtlasDriftCheck) (rep : MigrateDrift)
      → (shown api (set_checked api now c rep) ready_cond ≡ some (cond_true, reason_checked))
        × (shown api (set_checked api now c rep) reconciling_cond
            ≡ some (cond_false, reason_checked))
        × (shown api (set_checked api now c rep) stalled_cond ≡ some (cond_false, reason_checked))
        × (shown api (set_checked api now c rep) drifted_cond ≡ some (cond_false, reason_no_drift))
  unfolding set_checked view
  set_checked-shown now c rep = (
    simp (find-set_condition, view),
    simp (find-set_condition, view),
    simp (find-set_condition, view),
    simp (find-set_condition, view),
  )

  -- A completed check with drift, under either action.
  pub set_drifted-shown :
      (now : ℕ) (c : AtlasDriftCheck) (rep : MigrateDrift) (action : DriftAction)
      → (shown api (set_drifted api now c rep action) ready_cond ≡ elim action [
        | fail ↦ some (cond_false, reason_drift_detected)
        | report ↦ some (cond_true, reason_checked)
      ])
        × (shown api (set_drifted api now c rep action) reconciling_cond ≡ elim action [
          | fail ↦ some (cond_false, reason_drift_detected)
          | report ↦ some (cond_false, reason_checked)
        ])
        × (shown api (set_drifted api now c rep action) stalled_cond ≡ elim action [
          | fail ↦ some (cond_true, reason_drift_detected)
          | report ↦ some (cond_false, reason_checked)
        ])
        × (shown api (set_drifted api now c rep action) drifted_cond
            ≡ some (cond_true, reason_drift_detected))
  unfolding set_drifted view
  set_drifted-shown now c rep fail = (
    simp (find-set_condition, view),
    simp (find-set_condition, view),
    simp (find-set_condition, view),
    simp (find-set_condition, view),
  )
  set_drifted-shown now c rep report = (
    simp (find-set_condition, view),
    simp (find-set_condition, view),
    simp (find-set_condition, view),
    simp (find-set_condition, view),
  )
