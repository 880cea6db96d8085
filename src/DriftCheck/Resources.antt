-- ===== src/DriftCheck/Resources.antt =====
-- The resources, the CLI and the delays of drift checks
-- (internal/controller/atlasdriftcheck_controller.go and api/v1alpha1/atlasdriftcheck_types.go).
use atlas_operator.Prelude.{
  ℕ, Bool, String, List, [], Option, none, some, ◌*◌, ltb, ◌==◌, is_empty, if◌then◌else◌,
}
use atlas_operator.Errors.{Result, second, minute}
use atlas_operator.ProjectConfig.{VarValue}
use atlas_operator.MigrationStatus.{AtlasMigration}
use atlas_operator.MigrationData.{MigrationSpec, DriftPolicy}
use atlas_operator.DriftStatus.{AtlasDriftCheck, MigrateDrift, DriftAction}

-- defaultDriftInterval, defaultDriftTimeout, transientDriftRetry and busyDriftRetry
abbrev pub default_drift_interval : ℕ
default_drift_interval = 5 * minute

abbrev pub default_drift_timeout : ℕ
default_drift_timeout = 5 * minute

abbrev pub transient_drift_retry : ℕ
transient_drift_retry = minute

abbrev pub busy_drift_retry : ℕ
busy_drift_retry = 30 * second

-- AtlasDriftCheckSpec
pub record DriftCheckSpec : Type 0 where
  pub target_name : String
  pub interval : ℕ
  pub timeout : ℕ
  pub on_drift : Option DriftAction
  pub exclude : List String
  pub suspend : Bool

-- An AtlasDriftCheck with its names and its spec.
pub record DriftResource : Type 0 where
  pub check_name : String
  pub check_namespace : String
  pub check_spec : DriftCheckSpec
  pub check : AtlasDriftCheck

-- The AtlasMigration that is checked: its status, and its spec.
pub record TargetMigration : Type 0 where
  pub migration : AtlasMigration
  pub migration_spec : MigrationSpec

-- atlasexec.MigrateDriftParams, with the timeout of its context.
pub record DriftParams : Type 0 where
  pub env : String
  pub vars : List (String × VarValue)
  pub params_dev_url : String
  pub params_exclude : List String
  pub context_timeout : ℕ

-- What a run of `atlas migrate drift` comes to: whether its context is done, and its reports.
pub record DriftRunResult : Type 0 where
  pub context_done : Bool
  pub reports : Result (List MigrateDrift)

-- AtlasExec, with the calls of this controller.
pub record DriftCli : Type 0 where
  pub login : String → Result (Unit {0})
  pub who_am_i : List (String × VarValue) → Result (Unit {0})
  pub migrate_drift_slice : DriftParams → DriftRunResult

-- cmp.Or on durations.
abbrev pub or_duration : ℕ → ℕ → ℕ
or_duration a b = if a == 0 then b else a

abbrev pub min_duration : ℕ → ℕ → ℕ
min_duration a b = if ltb a b then a else b

-- exclude, by the policy of the target.
unfoldable pub exclude_of : List String → Option DriftPolicy → List String
exclude_of spec policy =
    if is_empty spec then elim policy [ none ↦ [] | some p ↦ p.exclude ] else spec
