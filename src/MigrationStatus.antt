-- ===== src/MigrationStatus.antt =====
-- The kind AtlasMigration and the methods that read and write its status
-- (api/v1alpha1/atlasmigration_types.go). `Failed` counts from 0 and never wraps at the 64 bits of
-- Go's int.
pub mod Machine
use atlas_operator.Prelude.{
  ℕ, suc, Bool, not, String, List, [], Option, none, some, ℤ, pos, negsuc, lt_nat, int_eq, str_eq,
  ◌∷◌, ◌&&◌, if◌then◌else◌, false,
}
use atlas_operator.Conditions.{
  ConditionApi, Condition, condition, cond_true, cond_false, ready_cond, reconciling_cond,
  stalled_cond, set_condition,
}
use atlas_operator.Reason.{reason_reconciling, reason_applied, is_failed_reason}

-- AtlasMigrationStatus
pub record AtlasMigrationStatus : Type 0 where
  pub observed_generation : ℤ
  pub conditions : List Condition
  pub last_applied_version : String
  pub last_deployment_url : String
  pub approval_url : String
  pub observed_hash : String
  pub last_applied : ℕ
  pub failed : ℕ

-- AtlasMigration, with the fields of the spec that these methods read.
pub record AtlasMigration : Type 0 where
  pub name : String
  pub namespace : String
  pub generation : ℤ
  pub prewarm_dev_db : Option Bool
  pub backoff_limit : ℤ
  pub status : AtlasMigrationStatus

-- NamespacedName: the namespace and the name.
unfoldable pub namespaced_name : AtlasMigration → String × String
namespaced_name m = (m.namespace, m.name)

-- IncrementFailed
unfoldable pub increment_failed : AtlasMigration → AtlasMigration
increment_failed m = record m { status = record m.status { failed = suc m.status.failed } }

-- ResetFailed
unfoldable pub reset_failed : AtlasMigration → AtlasMigration
reset_failed m = record m { status = record m.status { failed = 0 } }

-- IsExceedBackoffLimit: only 0 is no limit.
unfoldable pub is_exceed_backoff_limit : AtlasMigration → Bool
is_exceed_backoff_limit m =
    if int_eq m.backoff_limit (pos 0) then false else lt_nat m.backoff_limit m.status.failed

-- IsHashModified
unfoldable pub is_hash_modified : AtlasMigration → String → Bool
is_hash_modified m hash = not (str_eq hash m.status.observed_hash)

-- The assignment of `Status.ObservedGeneration` that begins each setter.
abbrev observe : AtlasMigration → AtlasMigration
observe m = record m { status = record m.status { observed_generation = m.generation } }

module _ (api : ConditionApi) where
  -- IsReady
  unfoldable pub is_ready : AtlasMigration → Bool
  is_ready m = api.is_status_condition_true m.status.conditions ready_cond

  -- IsReconciling
  unfoldable pub is_reconciling : AtlasMigration → Bool
  is_reconciling m = api.is_status_condition_true m.status.conditions reconciling_cond

  -- setCondition
  abbrev set_cond : AtlasMigration → Condition → AtlasMigration
  set_cond m cond = record m {
    status = record m.status {
      conditions = set_condition api m.generation m.status.conditions cond;
    };
  }

  -- SetReconciling
  unfoldable pub set_reconciling : AtlasMigration → String → AtlasMigration
  unfolding reset_failed
  set_reconciling m message =
      let a = set_cond (observe m) (condition ready_cond cond_false reason_reconciling message) in
      let b = set_cond a (condition reconciling_cond cond_true reason_reconciling message) in
      let c = set_cond b (condition stalled_cond cond_false reason_reconciling "") in reset_failed c

  -- SetReady: the status is replaced, then the conditions are set on it.
  unfoldable pub set_ready : AtlasMigration → AtlasMigrationStatus → AtlasMigration
  unfolding reset_failed
  set_ready m status =
      let s = record status { observed_generation = m.generation } in
      let a = record m { status = s } in
      let b = set_cond a (condition ready_cond cond_true reason_applied "") in
      let c = set_cond b (condition reconciling_cond cond_false reason_applied "") in
      let d = set_cond c (condition stalled_cond cond_false reason_applied "") in reset_failed d

  -- The part of `SetNotReady` behind the condition Ready, on either branch of its test.
  failed_conditions : AtlasMigration → String → String → AtlasMigration
  unfolding increment_failed
  failed_conditions m reason message =
      let a = set_cond m (condition reconciling_cond cond_false reason message) in
      let b = set_cond a (condition stalled_cond cond_true reason message) in increment_failed b

  pending_conditions : AtlasMigration → String → String → AtlasMigration
  pending_conditions m reason message =
      let a = set_cond m (condition reconciling_cond cond_true reason message) in
      set_cond a (condition stalled_cond cond_false reason "")

  -- SetNotReady
  unfoldable pub set_not_ready : AtlasMigration → String → String → AtlasMigration
  unfolding failed_conditions pending_conditions
  set_not_ready m reason message =
      let a = set_cond (observe m) (condition ready_cond cond_false reason message) in
      if is_failed_reason reason
      then failed_conditions a reason message
      else pending_conditions a reason message
