-- ===== src/DriftCheck/Transitions.antt =====
-- The events of a drift check (internal/controller/atlasdriftcheck_controller.go).
use atlas_operator.Prelude.{◌≡◌, refl, false, ◌&&◌, [], Option, none, some, arith, eq_refl}
use atlas_operator.Conditions.{
  ConditionApi, Condition, ConditionStatus, cond_true, cond_false, cond_unknown, is_cond_true,
  is_cond_false, ready_cond, drifted_cond,
}
use atlas_operator.DriftStatus.{AtlasDriftCheckStatus}
use atlas_operator.DriftCheck.{drift_events, ready_events, record_transitions}

true_not_false : (s : ConditionStatus) → is_cond_true s && is_cond_false s ≡ false
true_not_false cond_true = refl
true_not_false cond_false = refl
true_not_false cond_unknown = refl

drift_events-same : (c : Option Condition) → drift_events c c false ≡ []
unfolding drift_events
drift_events-same none = refl
drift_events-same (some c) = let h = true_not_false c.status in ground arith

ready_events-same : (c : Option Condition) → ready_events c c ≡ []
unfolding ready_events
ready_events-same none = refl
ready_events-same (some c) = let r = eq_refl c.reason in let m = eq_refl c.message in ground arith

module _ (api : ConditionApi) where
  -- A reconciliation that leaves the status as it was records no event, whatever the status is.
  pub record_transitions-same : (s : AtlasDriftCheckStatus) → record_transitions api s s ≡ []
  unfolding record_transitions
  record_transitions-same s = rw (
    eq_refl s.fingerprint,
    drift_events-same (api.find_status_condition s.conditions drifted_cond),
    ready_events-same (api.find_status_condition s.conditions ready_cond),
  )
