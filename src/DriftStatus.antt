-- ===== src/DriftStatus.antt =====
-- The kind AtlasDriftCheck and the methods that write its status
-- (api/v1alpha1/atlasdriftcheck_types.go). The instant of `metav1.Now` is an argument. A report is
-- the struct of the Atlas SDK, with the fields that these methods read; its map of types is an
-- association list without two entries of one key.
pub mod Outcome
use atlas_operator.Prelude.{
  ℕ, Bool, true, false, not, ◌||◌, String, List, [], ◌∷◌, ◌++◌, Option, none, some, ℤ, ltb, ◌==◌,
  str_eq, concat, join, decimal, sort_text, map, is_empty, if◌then◌else◌,
}
use atlas_operator.Conditions.{
  ConditionApi, Condition, ConditionStatus, condition, cond_true, cond_false, cond_unknown,
  ready_cond, reconciling_cond, stalled_cond, drifted_cond, set_condition,
}
use atlas_operator.Reason.{
  reason_checked, reason_no_drift, reason_drift_detected, reason_target_not_ready, reason_suspended,
}

-- DriftSummary, of the kind and of the SDK.
pub record DriftSummary : Type 0 where
  pub total : ℕ
  pub extra : ℕ
  pub missing : ℕ
  pub modified : ℕ
  pub types : List (String × ℕ)

-- atlasexec.MigrateDrift
pub record MigrateDrift : Type 0 where
  pub drifted : Bool
  pub version : String
  pub mode : String
  pub fingerprint : String
  pub drift_summary : Option DriftSummary

-- AtlasDriftCheckStatus
pub record AtlasDriftCheckStatus : Type 0 where
  pub observed_generation : ℤ
  pub conditions : List Condition
  pub version : String
  pub fingerprint : String
  pub mode : String
  pub summary : Option DriftSummary
  pub last_check_time : Option ℕ

-- AtlasDriftCheck, with the fields that these methods read.
pub record AtlasDriftCheck : Type 0 where
  pub generation : ℤ
  pub status : AtlasDriftCheckStatus

-- DriftAction
pub data DriftAction : Type 0 where
  report fail : DriftAction

-- boolCondition
unfoldable pub bool_condition : Bool → ConditionStatus
bool_condition true = cond_true
bool_condition false = cond_false

-- atVersion
unfoldable pub at_version : MigrateDrift → String
at_version rep = if str_eq rep.version "" then "" else concat (" at version " ∷ rep.version ∷ [])

abbrev kind_count : String → ℕ → List String
kind_count name n = if ltb 0 n then concat (name ∷ " " ∷ decimal n ∷ []) ∷ [] else []

-- m[t] on a map of counts.
lookup_count : List (String × ℕ) → String → ℕ
lookup_count [] t = 0
lookup_count ((s, n) ∷ rest) t = if str_eq s t then n else lookup_count rest t

keys : List (String × ℕ) → List String
keys [] = []
keys ((s, n) ∷ rest) = s ∷ keys rest

-- The message on a summary with drifted objects.
summary_message : MigrateDrift → DriftSummary → String
unfolding at_version lookup_count keys
summary_message rep s =
    let kinds =
      kind_count "extra" s.extra
      ++ (kind_count "missing" s.missing ++ kind_count "modified" s.modified) in
    let word : String = if s.total == 1 then "drifted object" else "drifted objects" in
    let head = concat (decimal s.total ∷ " " ∷ word ∷ []) in
    let with_kinds =
      if is_empty kinds then head else concat (head ∷ " (" ∷ join kinds ", " ∷ ")" ∷ []) in
    let msg = concat (with_kinds ∷ at_version rep ∷ []) in
    let types =
      map (λ t. concat (t ∷ " " ∷ decimal (lookup_count s.types t) ∷ []))
        (sort_text (keys s.types)) in
    if is_empty s.types then msg else concat (msg ∷ ": " ∷ join types ", " ∷ [])

-- driftMessage
unfoldable pub drift_message : MigrateDrift → String
unfolding summary_message at_version
drift_message rep = elim rep.drift_summary [
  | none ↦ concat ("drift detected" ∷ at_version rep ∷ [])
  | some s ↦
      if s.total == 0
      then concat ("drift detected" ∷ at_version rep ∷ [])
      else summary_message rep s
]

-- The assignment of `Status.ObservedGeneration`.
abbrev observe : AtlasDriftCheck → AtlasDriftCheck
observe c = record c { status = record c.status { observed_generation = c.generation } }

-- applyReport
unfoldable pub apply_report : ℕ → AtlasDriftCheck → MigrateDrift → AtlasDriftCheck
apply_report now c rep = record c {
  status = record c.status {
    observed_generation = c.generation;
    version = rep.version;
    mode = rep.mode;
    last_check_time = some now;
    fingerprint = if rep.drifted then rep.fingerprint else "";
    summary = if rep.drifted then rep.drift_summary else none;
  };
}

module _ (api : ConditionApi) where
  -- setCondition
  abbrev set_cond : AtlasDriftCheck → Condition → AtlasDriftCheck
  set_cond c cond = record c {
    status = record c.status {
      conditions = set_condition api c.generation c.status.conditions cond;
    };
  }

  -- setOutcome
  set_outcome : AtlasDriftCheck → String → String → Bool → AtlasDriftCheck
  unfolding bool_condition
  set_outcome c reason msg stalled =
      let a = set_cond c (condition ready_cond (bool_condition (not stalled)) reason msg) in
      let b = set_cond a (condition reconciling_cond cond_false reason msg) in
      set_cond b (condition stalled_cond (bool_condition stalled) reason msg)

  -- SetChecked
  unfoldable pub set_checked : ℕ → AtlasDriftCheck → MigrateDrift → AtlasDriftCheck
  unfolding apply_report set_outcome at_version
  set_checked now c rep =
      let a = apply_report now c rep in
      let msg = concat ("no drift detected" ∷ at_version rep ∷ []) in
      let b = set_outcome a reason_checked msg false in
      set_cond b (condition drifted_cond cond_false reason_no_drift msg)

  -- SetDrifted
  unfoldable pub set_drifted : ℕ → AtlasDriftCheck → MigrateDrift → DriftAction → AtlasDriftCheck
  unfolding apply_report set_outcome
  set_drifted now c rep action =
      let a = apply_report now c rep in
      let msg = drift_message rep in
      let b = set_cond a (condition drifted_cond cond_true reason_drift_detected msg) in
      elim action [
        | fail ↦ set_outcome b reason_drift_detected msg true
        | report ↦ set_outcome b reason_checked msg false
      ]

  -- SetCheckFailed
  unfoldable pub set_check_failed : AtlasDriftCheck → String → String → Bool → AtlasDriftCheck
  unfolding bool_condition
  set_check_failed c reason message permanent =
      let a = set_cond (observe c) (condition ready_cond cond_false reason message) in
      let b =
        set_cond a (condition reconciling_cond (bool_condition (not permanent)) reason message) in
      let d = set_cond b (condition stalled_cond (bool_condition permanent) reason message) in
      set_cond d (condition drifted_cond cond_unknown reason message)

  -- SetTargetNotReady
  unfoldable pub set_target_not_ready : AtlasDriftCheck → String → AtlasDriftCheck
  set_target_not_ready c message =
      set_cond (observe c) (condition reconciling_cond cond_true reason_target_not_ready message)

  -- SetSuspended
  unfoldable pub set_suspended : AtlasDriftCheck → AtlasDriftCheck
  set_suspended c =
      set_cond (observe c)
        (condition reconciling_cond cond_false reason_suspended "checks are suspended")
