-- ===== src/SchemaStatus.antt =====
-- The kind AtlasSchema and the methods that read and write its status
-- (api/v1alpha1/atlasschema_types.go). A method with a pointer receiver returns the new object.
-- `Failed` counts from 0 and never wraps at the 64 bits of Go's int.
pub mod Machine
use atlas_operator.Prelude.{
  ℕ, suc, Bool, not, String, List, [], Option, none, some, ℤ, pos, negsuc, lt_nat, le_zero, str_eq,
  concat, ◌∷◌, ◌&&◌, if◌then◌else◌,
}
use atlas_operator.Conditions.{
  ConditionApi, Condition, condition, cond_true, cond_false, ready_cond, reconciling_cond,
  stalled_cond, set_condition,
}
use atlas_operator.Reason.{reason_reconciling, reason_applied, is_failed_reason}

-- AtlasSchemaStatus
pub record AtlasSchemaStatus : Type 0 where
  pub observed_generation : ℤ
  pub conditions : List Condition
  pub observed_hash : String
  pub last_applied : ℕ
  pub plan_url : String
  pub plan_link : String
  pub failed : ℕ

-- AtlasSchema, with the fields of the spec that these methods read.
pub record AtlasSchema : Type 0 where
  pub name : String
  pub namespace : String
  pub generation : ℤ
  pub prewarm_dev_db : Option Bool
  pub backoff_limit : ℤ
  pub status : AtlasSchemaStatus

-- NamespacedName: the namespace and the name.
unfoldable pub namespaced_name : AtlasSchema → String × String
namespaced_name s = (s.namespace, s.name)

-- What `json.Marshal` makes of the report of an apply: its text, or the text of its error.
pub data Marshalled : Type 0 where
  marshalled marshal_failed : String → Marshalled

-- The message of `SetReady`.
unfoldable pub ready_message : Option Marshalled → String
ready_message none = "The schema has been applied successfully."
ready_message (some (marshalled j)) =
    concat ("The schema has been applied successfully. Apply response: " ∷ j ∷ [])
ready_message (some (marshal_failed e)) = concat ("Error marshalling apply response: " ∷ e ∷ [])

-- IncrementFailed
unfoldable pub increment_failed : AtlasSchema → AtlasSchema
increment_failed sc = record sc { status = record sc.status { failed = suc sc.status.failed } }

-- ResetFailed
unfoldable pub reset_failed : AtlasSchema → AtlasSchema
reset_failed sc = record sc { status = record sc.status { failed = 0 } }

-- IsExceedBackoffLimit: a limit of 0 or less is no limit.
unfoldable pub is_exceed_backoff_limit : AtlasSchema → Bool
is_exceed_backoff_limit sc =
    not (le_zero sc.backoff_limit) && lt_nat sc.backoff_limit sc.status.failed

-- IsHashModified
unfoldable pub is_hash_modified : AtlasSchema → String → Bool
is_hash_modified sc hash = not (str_eq hash sc.status.observed_hash)

-- The assignment of `Status.ObservedGeneration` that begins each setter.
abbrev observe : AtlasSchema → AtlasSchema
observe sc = record sc { status = record sc.status { observed_generation = sc.generation } }

module _ (api : ConditionApi) where
  -- IsReady
  unfoldable pub is_ready : AtlasSchema → Bool
  is_ready m = api.is_status_condition_true m.status.conditions ready_cond

  -- setCondition
  abbrev set_cond : AtlasSchema → Condition → AtlasSchema
  set_cond sc cond = record sc {
    status = record sc.status {
      conditions = set_condition api sc.generation sc.status.conditions cond;
    };
  }

  -- SetReconciling
  unfoldable pub set_reconciling : AtlasSchema → String → AtlasSchema
  unfolding reset_failed
  set_reconciling sc message =
      let a = set_cond (observe sc) (condition ready_cond cond_false reason_reconciling message) in
      let b = set_cond a (condition reconciling_cond cond_true reason_reconciling message) in
      let c = set_cond b (condition stalled_cond cond_false reason_reconciling "") in reset_failed c

  -- SetReady: the status is replaced, then the conditions are set on it.
  unfoldable pub set_ready : AtlasSchema → AtlasSchemaStatus → Option Marshalled → AtlasSchema
  unfolding reset_failed
  set_ready sc status report =
      let s = record status { observed_generation = sc.generation } in
      let a = record sc { status = s } in
      let b = set_cond a (condition ready_cond cond_true reason_applied (ready_message report)) in
      let c = set_cond b (condition reconciling_cond cond_false reason_applied "") in
      let d = set_cond c (condition stalled_cond cond_false reason_applied "") in reset_failed d

  -- The part of `SetNotReady` behind the condition Ready, on either branch of its test.
  failed_conditions : AtlasSchema → String → String → AtlasSchema
  unfolding increment_failed
  failed_conditions sc reason msg =
      let a = set_cond sc (condition reconciling_cond cond_false reason msg) in
      let b = set_cond a (condition stalled_cond cond_true reason msg) in increment_failed b

  pending_conditions : AtlasSchema → String → String → AtlasSchema
  pending_conditions sc reason msg =
      let a = set_cond sc (condition reconciling_cond cond_true reason msg) in
      set_cond a (condition stalled_cond cond_false reason "")

  -- SetNotReady
  unfoldable pub set_not_ready : AtlasSchema → String → String → AtlasSchema
  unfolding failed_conditions pending_conditions
  set_not_ready sc reason msg =
      let a = set_cond (observe sc) (condition ready_cond cond_false reason msg) in
      if is_failed_reason reason
      then failed_conditions a reason msg
      else pending_conditions a reason msg
