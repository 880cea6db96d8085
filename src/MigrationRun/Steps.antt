-- ===== src/MigrationRun/Steps.antt =====
-- The steps of a run of a migration (internal/controller/atlasmigration_controller.go). Log lines
-- are left out, and so is the context of a deployment, which only tells the CLI who runs it.
use atlas_operator.Prelude.{
  ℕ, Bool, true, false, not, ◌&&◌, ◌||◌, String, List, [], ◌∷◌, Option, none, some, ltb, pos,
  length, decimal, str_eq, concat, contains, trim_space, trim_prefix, lines, find_func, is_empty,
  if◌then◌else◌,
}
use atlas_operator.Conditions.{ConditionApi}
use atlas_operator.Reason.{reason_getting_dev_db, reason_approval_pending, reason_drift_detected}
use atlas_operator.Recorder.{event, warning_event, normal_event}
use atlas_operator.Errors.{
  Result, ok, err, GoError, plain, reasoned_error, pending_error, err_requeue, error_text,
  is_require_login, is_already_exists, map_err,
}
use atlas_operator.Cluster.{put}
use atlas_operator.Target.{Url}
use atlas_operator.Hcl.{has_dev_url, is_some}
use atlas_operator.MigrationStatus.{
  AtlasMigration, AtlasMigrationStatus, is_ready, is_hash_modified, set_reconciling, set_ready,
}
use atlas_operator.MigrationData.{
  Packages, MigrationData, Cloud, Remote, extract_migration_data, protected_flow_error, guard,
}
use atlas_operator.MigrationRun.Resources.{
  state_pending, state_approved, state_aborted, state_applied, MigrateStatus, DownParams, DownRun,
  ApplyReport, MigrationCli, DirSecret, MigrationServices, MigrationResource, make_working_dir,
  make_client, who_am_i_command, migrate_status_command, login_command, dev_url_command,
  copy_command, create_file_command, migrate_down_command, migrate_apply_command,
  create_secret_command, update_secret_command, new_secret_object,
}
use atlas_operator.MigrationRun.Actions.{
  Step, ◌>>=◌, ◌>>◌, return, panic, lift, issue, change, record_all,
}

-- The last of a list.
abbrev pub last {ℓ} : {A : Type ℓ} → List A → Option A
last [] = none
last (a ∷ []) = some a
last (a ∷ b ∷ rest) = last (b ∷ rest)

-- The index of the last element, which panics for an empty slice.
abbrev pub or_panic {ℓ} : {A : Type ℓ} → Option A → Step GoError A
or_panic none = panic
or_panic (some a) = return a

-- The moment of a revision, 0 without one.
abbrev pub or_zero : Option ℕ → ℕ
or_zero none = 0
or_zero (some t) = t

-- asDriftError
unfoldable pub as_drift_error : GoError → GoError
as_drift_error e =
    elim (find_func
      (λ line. contains line "database state does not match expected state at version")
      (lines (error_text e))) [
        | none ↦ e
        | some line ↦
            reasoned_error (plain (trim_prefix (trim_space line) "Error: ")) reason_drift_detected
      ]

-- recordApplied
abbrev pub record_applied : String → Step GoError (Unit {0})
record_applied ver =
    record_all (event normal_event "Applied" (concat ("Version " ∷ ver ∷ " applied" ∷ [])) ∷ [])

-- A status literal with the fields that the program sets.
abbrev pub ready_status : String → String → ℕ → String → String → AtlasMigrationStatus
ready_status hash approval applied version deployment = record {
  observed_generation = pos 0;
  conditions = [];
  last_applied_version = version;
  last_deployment_url = deployment;
  approval_url = approval;
  observed_hash = hash;
  last_applied = applied;
  failed = 0;
}

-- The assignment to `Status.ApprovalURL`.
abbrev pub set_approval_url : String → AtlasMigration → AtlasMigration
set_approval_url url m = record m { status = record m.status { approval_url = url } }

-- Whether the database is ahead of the directory.
abbrev pub is_ahead : MigrateStatus → Bool
is_ahead st =
    is_empty st.pending
    && (not (is_empty st.applied) && ltb (length st.available) (length st.applied))

module _ (api : ConditionApi) (pkg : Packages) (srv : MigrationServices pkg) where
  -- The end of extractData.
  unfoldable pub accept_data : MigrationData pkg → Bool → Step GoError (MigrationData pkg)
  accept_data d true = do
    change (λ m. set_reconciling api m "Current migration data has changed")
    lift (err err_requeue)
  accept_data d false = return d

  -- extractData: a resource that is ready and has new data is first shown to reconcile.
  unfoldable pub extract_data : MigrationResource pkg srv → Step GoError (MigrationData pkg)
  unfolding accept_data is_hash_modified
  extract_data res = do
    d ← lift (
        extract_migration_data pkg srv.reader res.stored.namespace res.stored.name res.spec
          srv.allow_custom_config)
    accept_data d (is_ready api res.stored && is_hash_modified res.stored d.observed_hash)

  -- workingDir
  unfoldable pub working_dir : MigrationData pkg → Step GoError String
  working_dir d = issue make_working_dir (srv.new_working_dir d)

  -- atlasClient
  unfoldable pub atlas_client :
      MigrationResource pkg srv → String → MigrationData pkg → Step GoError MigrationCli
  atlas_client res path d = issue make_client (
      srv.atlas_client path d.data_cloud
        (concat (res.stored.namespace ∷ "/" ∷ res.stored.name ∷ [])))

  -- login
  unfoldable pub log_in : MigrationCli → Option Cloud → Step GoError (Unit {0})
  log_in cli none = return tt
  log_in cli (some c) =
      if str_eq c.token "" then return tt else issue (login_command c.token) (cli.login c.token)

  -- The error of whoAmI: only a custom configuration requires a login.
  unfoldable pub known_user : Bool → Result (Unit {0}) → Result (Unit {0})
  unfolding is_require_login
  known_user has_config (ok u) = ok u
  known_user has_config (err e) =
      if is_require_login e
      then (if has_config
          then err (plain "login is required to use custom atlas.hcl config")
          else ok tt)
      else err e

  -- whoAmI
  unfoldable pub who_am_i : MigrationCli → MigrationData pkg → Step GoError (Unit {0})
  unfolding known_user
  who_am_i cli d =
      issue who_am_i_command (known_user (is_some d.data_config) (cli.who_am_i d.data_vars))

  -- migrateStatus
  unfoldable pub migrate_status : MigrationCli → MigrationData pkg → Step GoError MigrateStatus
  migrate_status cli d = issue migrate_status_command (cli.migrate_status d.env_name d.data_vars)

  -- Whether devDB spins up a database for a target URL.
  abbrev pub needs_dev_db : MigrationResource pkg srv → MigrationData pkg → Bool
  needs_dev_db res d =
      elim res.dev_db_config [ none ↦ false | some c ↦ srv.dev_db.has_pod_spec c ]
      || not (has_dev_url pkg.hcl d.data_dev_url d.data_config d.env_name)

  unfoldable pub spin_up :
      MigrationResource pkg srv → MigrationData pkg → Url → Step GoError (MigrationData pkg)
  spin_up res d url = do
    let (events, found) = srv.dev_db.dev_url res.stored url res.dev_db_config d.data_dev_url
    record_all events
    dev ←
        issue (dev_url_command d.data_dev_url)
          (map_err (λ e. pending_error reason_getting_dev_db (error_text e)) found)
    return (record d { data_dev_url = dev })

  -- The switch of devDB, on the target URL and on whether a database is needed for it.
  unfoldable pub dev_db_for :
      MigrationResource pkg srv
      → MigrationData pkg
      → Option Url
      → Bool
      → Step GoError (MigrationData pkg)
  unfolding spin_up
  dev_db_for res d none needed = return d
  dev_db_for res d (some url) true = spin_up res d url
  dev_db_for res d (some url) false = return d

  -- devDB
  unfoldable pub dev_db :
      MigrationResource pkg srv → MigrationData pkg → Step GoError (MigrationData pkg)
  unfolding dev_db_for
  dev_db res d = dev_db_for res d d.url (needs_dev_db res d)

  -- prepareDevDB
  unfoldable pub prepare_dev_db :
      MigrationResource pkg srv → MigrationData pkg → Step GoError (MigrationData pkg)
  unfolding dev_db
  prepare_dev_db res d = do
    d' ← dev_db res d
    issue create_file_command (srv.create_config_file d')
    return d'

  -- The directory with all versions, for a downgrade.
  unfoldable pub down_dir :
      MigrationData pkg
      → MigrateStatus
      → Option Cloud
      → Option Remote
      → Option pkg.Dir
      → Step GoError String
  down_dir d st (some c) (some r) latest = return (concat ("atlas://" ∷ r.remote_name ∷ []))
  down_dir d st cloud remote (some latest) = do
    let current = concat ("migrations-" ∷ st.current ∷ [])
    issue (copy_command current)
        (map_err (λ e. reasoned_error e "CopyingDirState") (srv.copy_fs current latest))
    return (concat ("file://" ∷ current ∷ []))
  down_dir d st cloud remote none = lift (err (plain "unable to downgrade, no dir-state found"))

  -- The switch on the status of a downgrade.
  unfoldable pub settle_down : MigrationData pkg → DownRun → Step GoError (Unit {0})
  unfolding set_ready
  settle_down d run =
      if str_eq run.run_status state_pending
      then (do
        change (set_approval_url run.run_url)
        lift (
            err (
              pending_error reason_approval_pending
                (concat ("plan approval pending, review here: " ∷ run.run_url ∷ [])))))
      else if str_eq run.run_status state_aborted
      then (do
        change (set_approval_url run.run_url)
        lift (
            err (
              reasoned_error (plain (concat ("plan rejected, review here: " ∷ run.run_url ∷ [])))
                "PlanRejected")))
      else if str_eq run.run_status state_applied || str_eq run.run_status state_approved
      then (do
        change (λ m.
            set_ready api m
              (ready_status d.observed_hash run.run_url run.run_start run.run_target run.run_url))
        record_applied run.run_target)
      else return tt

  -- The rest of migrateDown, where it is allowed.
  unfoldable pub downgrade_to :
      MigrationCli → MigrationData pkg → MigrateStatus → String → Step GoError (Unit {0})
  unfolding down_dir settle_down
  downgrade_to cli d st version = do
    dir ← down_dir d st d.data_cloud d.remote_dir d.dir_latest
    let params : DownParams = record {
      down_env = d.env_name;
      to_version = version;
      dir_url = dir;
      down_vars = d.data_vars;
    }
    run ← issue (migrate_down_command params) (cli.migrate_down params)
    settle_down d run

  -- migrateDown
  unfoldable pub migrate_down :
      MigrationCli → MigrationData pkg → MigrateStatus → Step GoError (Unit {0})
  unfolding downgrade_to
  migrate_down cli d st = do
    lift (
        guard d.data_migrate_down (
          protected_flow_error
            "migrate down is not allowed, set `migrateDown.allow` to true to allow downgrade"))
    version ← or_panic (last st.available)
    downgrade_to cli d st version

  -- noPendingChanges
  unfoldable pub no_pending_changes : MigrationData pkg → MigrateStatus → Step GoError (Unit {0})
  unfolding set_ready
  no_pending_changes d st = do
    change (λ m.
        set_ready api m (ready_status d.observed_hash "" (or_zero (last st.applied)) st.current ""))
    record_applied st.current

  -- The reports of migrateApply.
  unfoldable pub settle_apply :
      MigrationData pkg → String → List ApplyReport → Step GoError (Unit {0})
  unfolding set_ready
  settle_apply d msg (rep ∷ []) = do
    record_all (if str_eq msg "" then [] else event warning_event "Migrating" msg ∷ [])
    change
        (λ m. set_ready api m (ready_status d.observed_hash "" rep.report_end rep.report_target ""))
    record_applied rep.report_target
  settle_apply d msg reports =
      lift (err (plain (concat ("unexpected number of reports: " ∷ decimal (length reports) ∷ []))))

  -- migrateApply
  unfoldable pub migrate_apply : MigrationCli → MigrationData pkg → Step GoError (Unit {0})
  unfolding settle_apply as_drift_error trim_space
  migrate_apply cli d = do
    let run = cli.migrate_apply_slice d.env_name d.data_vars
    reports ← issue (migrate_apply_command d.env_name) (map_err as_drift_error run.reports)
    settle_apply d (trim_space run.stderr) reports

  -- applyChanges
  unfoldable pub apply_changes :
      MigrationResource pkg srv
      → MigrationCli
      → MigrationData pkg
      → MigrateStatus
      → Step GoError (Unit {0})
  unfolding prepare_dev_db migrate_down no_pending_changes migrate_apply
  apply_changes res cli d st =
      if is_ahead st
      then (do d' ← prepare_dev_db res d; migrate_down cli d' st)
      else if is_empty st.pending
      then no_pending_changes d st
      else (do d' ← prepare_dev_db res d; migrate_apply cli d')

  -- The switch on the error of Create.
  unfoldable pub created : DirSecret → Result (Unit {0}) → Step GoError (Unit {0})
  unfolding is_already_exists
  created secret (ok u) = return tt
  created secret (err e) =
      if is_already_exists e
      then issue (update_secret_command secret) (srv.update_secret secret)
      else lift (err e)

  -- storeDirState of the reconciler.
  unfoldable pub store_dir : MigrationResource pkg srv → pkg.Dir → Step GoError (Unit {0})
  unfolding created new_secret_object put
  store_dir res dir = do
    tarball ← lift (srv.archive_dir dir)
    let secret =
        new_secret_object res.stored tarball (put res.resource_labels "name" res.stored.name)
    result ← issue (create_secret_command secret) (ok (srv.create_secret secret))
    created secret result

  unfoldable pub store_dir_of : MigrationResource pkg srv → Option pkg.Dir → Step GoError (Unit {0})
  unfolding store_dir
  store_dir_of res none = return tt
  store_dir_of res (some dir) = store_dir res dir

  -- storeDirState
  unfoldable pub store_dir_state :
      MigrationResource pkg srv → MigrationData pkg → Step GoError (Unit {0})
  unfolding store_dir_of
  store_dir_state res d = store_dir_of res d.data_dir
