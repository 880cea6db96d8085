-- ===== src/DriftCheck.antt =====
-- The controller of AtlasDriftCheck (internal/controller/atlasdriftcheck_controller.go). The client
-- of the API server, the Atlas CLI, the working directory and the jitter are parameters; log lines
-- are left out, and so is the update of the stored status behind the reconciliation, whose failure
-- is only logged. A duration is a number of nanoseconds, 0 where it is unset.
pub mod Resources
pub mod Classify
pub mod Events
pub mod Transitions
pub mod Runs
use atlas_operator.Prelude.{
  ℕ, Bool, true, false, not, ◌&&◌, ◌||◌, String, List, [], ◌∷◌, ◌++◌, Option, none, some, ◌*◌, ltb,
  ◌==◌, length, decimal, str_eq, concat, contains, trim_space, or_text, is_empty, if◌then◌else◌,
}
use atlas_operator.Conditions.{
  ConditionApi, Condition, cond_false, is_cond_true, is_cond_false, ready_cond, drifted_cond,
}
use atlas_operator.Reason.{
  reason_check_failed, reason_drift_detected, reason_no_migration_history, reason_target_not_found,
}
use atlas_operator.Errors.{
  Result, ok, err, GoError, plain, permanent_error, err_target_busy, err_locked, error_text,
  is_transient, as_permanent, as_migrate_drift, is_require_login, is_deadline_exceeded,
  is_target_busy, is_locked, is_not_found, CtrlResult, no_requeue, after, second, minute, ◌>>=◌,
  ◌>>◌,
}
use atlas_operator.Recorder.{RecordedEvent}
use atlas_operator.Cluster.{Reader}
use atlas_operator.ProjectConfig.{VarValue}
use atlas_operator.Hcl.{has_config_repo, has_dev_url}
use atlas_operator.MigrationStatus.{AtlasMigration, is_reconciling}
use atlas_operator.MigrationData.{
  Packages, MigrationSpec, MigrationData, DriftPolicy, Cloud, has_remote_dir,
  extract_migration_data, guard,
}
use atlas_operator.DriftStatus.{
  AtlasDriftCheck, AtlasDriftCheckStatus, MigrateDrift, DriftAction, report, set_checked,
  set_drifted, set_check_failed, set_target_not_ready, set_suspended,
}
unfoldable pub use Resources.*
unfoldable pub use Classify.*
unfoldable pub use Events.*

-- What the controller calls, and its settings.
pub record DriftServices (pkg : Packages) : Type 0 where
  pub reader : Reader
  pub get_migration : String → String → Result TargetMigration
  pub new_working_dir : MigrationData pkg → Result String
  pub atlas_client : String → Option Cloud → String → Result DriftCli
  pub jitter : ℕ → ℕ
  pub allow_custom_config : Bool

module _ (api : ConditionApi) (pkg : Packages) (srv : DriftServices pkg) where
  target_found : String → String → Result TargetMigration → Result TargetMigration
  unfolding is_reconciling is_not_found
  target_found ns name (err e) =
      if is_not_found e
      then err (
          permanent_error reason_target_not_found (
            plain (
              concat (
                "AtlasMigration \"" ∷ name ∷ "\" not found in namespace \"" ∷ ns
                ∷ "\"; note that an operator installed with --label-selector only sees the targets carrying those labels"
                ∷ []))))
      else err e
  target_found ns name (ok target) =
      if is_reconciling api target.migration then err err_target_busy else ok target

  -- loadTarget
  unfoldable pub load_target : DriftResource → Result TargetMigration
  unfolding target_found
  load_target res =
      target_found res.check_namespace res.check_spec.target_name
        (srv.get_migration res.check_namespace res.check_spec.target_name)

  -- The check of the extracted data.
  data_found : String → Result (MigrationData pkg) → Result (MigrationData pkg)
  unfolding is_transient has_remote_dir
  data_found name (err e) =
      if is_transient e then err e else err (permanent_error reason_check_failed e)
  data_found name (ok d) =
      if not (has_remote_dir pkg d)
        && (not (has_config_repo pkg.hcl d.data_config d.env_name)
            && not (has_dev_url pkg.hcl d.data_dev_url d.data_config d.env_name))
      then err (
          permanent_error reason_check_failed (
            plain (
              concat (
                "local migration directory requires a dev database to replay: set spec.devURL or spec.devURLFrom on AtlasMigration/"
                ∷ name ∷ ", or push the directory to the Atlas Registry" ∷ []))))
      else ok d

  -- extractData
  unfoldable pub extract_data : TargetMigration → Result (MigrationData pkg)
  unfolding data_found
  extract_data t = data_found t.migration.name (
      extract_migration_data pkg srv.reader t.migration.namespace t.migration.name t.migration_spec
        srv.allow_custom_config)

  -- login
  log_in : DriftCli → Option Cloud → Result (Unit {0})
  log_in cli none = ok tt
  log_in cli (some c) = if str_eq c.token "" then ok tt else cli.login c.token

  -- whoAmI, by the result of the command.
  logged_in : String → Result (Unit {0}) → Result (Unit {0})
  unfolding is_require_login
  logged_in name (ok u) = ok u
  logged_in name (err e) =
      if is_require_login e
      then err (
          permanent_error reason_check_failed (
            plain (
              concat (
                "drift checks require Atlas Cloud: set spec.cloud.tokenFrom on AtlasMigration/"
                ∷ name ∷ []))))
      else err e

  -- The status that a single report leaves.
  record_report : ℕ → DriftResource → List MigrateDrift → Result AtlasDriftCheck
  unfolding set_drifted set_checked
  record_report now res (rep ∷ []) = ok (
      if rep.drifted
      then set_drifted api now res.check rep
          (elim res.check_spec.on_drift [ none ↦ report | some a ↦ a ])
      else set_checked api now res.check rep)
  record_report now res reports = err (
      permanent_error reason_check_failed (
        plain (
          concat (
            "unexpected number of reports: "
            ∷ decimal (length reports)
            ∷ "; for_each targets are not supported"
            ∷ []))))

  classified : Bool → Result (List MigrateDrift) → Result (List MigrateDrift)
  unfolding classify_error
  classified done (ok reports) = ok reports
  classified done (err e) = err (classify_error done e)

  -- check
  unfoldable pub check_drift :
      ℕ → DriftResource → TargetMigration → MigrationData pkg → DriftCli → Result AtlasDriftCheck
  unfolding classified record_report exclude_of
  check_drift now res target d cli =
      let run = cli.migrate_drift_slice (record {
        env = d.env_name;
        vars = d.data_vars;
        params_dev_url = d.data_dev_url;
        params_exclude = exclude_of res.check_spec.exclude target.migration_spec.drift;
        context_timeout = or_duration res.check_spec.timeout default_drift_timeout;
      }) in
      do reports ← classified run.context_done run.reports; record_report now res reports

  -- run
  unfoldable pub run : ℕ → DriftResource → Result AtlasDriftCheck
  unfolding load_target extract_data log_in logged_in check_drift
  run now res = do
    target ← load_target res
    d ← extract_data target
    path ← srv.new_working_dir d
    cli ←
        srv.atlas_client path d.data_cloud
          (concat (res.check_namespace ∷ "/" ∷ res.check_name ∷ []))
    log_in cli d.data_cloud
    logged_in target.migration.name (cli.who_am_i d.data_vars)
    check_drift now res target d cli

  -- The switch of reconcile.
  unfoldable pub settle : DriftResource → Result AtlasDriftCheck → AtlasDriftCheck × CtrlResult
  unfolding is_target_busy is_locked as_permanent
  settle res (ok c) =
      (c, after (srv.jitter (or_duration res.check_spec.interval default_drift_interval)))
  settle res (err e) =
      let interval = or_duration res.check_spec.interval default_drift_interval in
      if is_target_busy e
      then (set_target_not_ready api res.check (error_text e), after (srv.jitter busy_drift_retry))
      else if is_locked e
      then (res.check, after (srv.jitter busy_drift_retry))
      else elim (as_permanent e) [
        | none ↦ (
          set_check_failed api res.check reason_check_failed (error_text e) false,
          after (srv.jitter (min_duration interval transient_drift_retry)),
        )
        | some p ↦ (set_check_failed api res.check (p.0) (p.1) true, after (srv.jitter interval))
      ]

  -- reconcile
  unfoldable pub reconcile_check : ℕ → DriftResource → AtlasDriftCheck × CtrlResult
  unfolding run settle
  reconcile_check now res =
      if res.check_spec.suspend
      then (set_suspended api res.check, no_requeue)
      else settle res (run now res)

  -- What Reconcile leaves: the status to store, if there is a resource, the events and the result.
  pub record DriftOutcome : Type 0 where
    pub stored : Option AtlasDriftCheck
    pub events : List RecordedEvent
    pub returned : Result CtrlResult

  -- Reconcile, by the result of reading the resource.
  unfoldable pub reconcile : ℕ → Result DriftResource → DriftOutcome
  unfolding reconcile_check record_transitions is_not_found
  reconcile now (err e) = record {
    stored = none;
    events = [];
    returned = if is_not_found e then ok no_requeue else err e;
  }
  reconcile now (ok res) =
      let (c, result) = reconcile_check now res in
      record {
        stored = some c;
        events = record_transitions api res.check.status c.status;
        returned = ok result;
      }
