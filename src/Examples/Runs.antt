-- ===== src/Examples/Runs.antt =====
-- The runs of a migration.
use atlas_operator.Prelude.{
  ◌≤◌, ◌≡◌, refl, [], ◌∷◌, none, some, pos, true, false, str_eq, if◌then◌else◌,
}
use atlas_operator.Reason.{is_failed_reason}
use atlas_operator.Phase.{stalled, InPhase}
use atlas_operator.Conditions.{set_condition}
use atlas_operator.Errors.{
  ok, err, not_found, plain, after, backoff_delay_at, as_reasoner, as_pending,
}
use atlas_operator.Cluster.{Reader, get}
use atlas_operator.Target.{database_url}
use atlas_operator.ProjectConfig.{get_config, get_vars}
use atlas_operator.Hcl.{has_dev_url}
use atlas_operator.NameMap.{Name}
use atlas_operator.Watch.{handle, update_event}
use atlas_operator.Watch.Requests.{count}
use atlas_operator.MigrationStatus.{AtlasMigration, is_ready, is_hash_modified, set_ready}
use atlas_operator.MigrationData.{
  MigrationSpec, MigrationData, read_dir_state, extract_migration_data, hash_migration_data,
  choose_dir, stored_dir, extract_dir_from_secret, archived,
}
use atlas_operator.MigrationData.Extract.{implies}
use atlas_operator.MigrationRun.{
  MigrationServices, MigrationResource, MigrationCli, MigrateStatus, reconcile, run, run_with,
  behind_client, settle, result_err, migrate_down, new_secret_object, start, extract_data,
  accept_data, working_dir, atlas_client, log_in, who_am_i, known_user, migrate_status,
  apply_changes, prepare_dev_db, dev_db, dev_db_for, downgrade_to, down_dir, settle_down,
  store_dir_state, store_dir_of, store_dir, created,
}
use atlas_operator.MigrationRun.Protocol.{deployments, downgraded}
use atlas_operator.MigrationRun.Deployments.{Follows, data_of, reconcile-Follows}
use atlas_operator.MigrationRun.Safety.{reconcile-deployments, may_downgrade}
use atlas_operator.MigrationRun.Readiness.{IsDone, reconcile-IsDone}
use atlas_operator.MigrationRun.Results.{result_err-InPhase}
use atlas_operator.MigrationRun.Panics.{is_panic, migrate_down-is_panic}
use atlas_operator.MigrationRun.DirState.{read_dir_state-new_secret_object}
use atlas_operator.MigrationRun.Dependents.{watch_each, no_watchers, watch_refs-handle}
use atlas_operator.Examples.Samples.{plain_api, plain_packages}

-- A cluster with the directory state of the migration `app`.
abbrev state_reader : Reader
state_reader = record {
  get_secret = λ ns name.
      if str_eq name "io.atlasgo.db.v1.app.latest"
      then ok (record {
        secret_type = "atlasgo.io/db.v1";
        secret_entries = ("migrations.tar.gz", "archive") ∷ [];
      })
      else err (not_found "no secret");
  get_config_map_data = λ ns name. ok [];
}

-- A database that is one version ahead of its directory.
abbrev ahead : MigrateStatus
ahead = record { available = "1" ∷ []; pending = []; applied = 5 ∷ 6 ∷ []; current = "2" }

abbrev cli : MigrationCli
cli = record {
  login = λ token. ok tt;
  who_am_i = λ vars. ok tt;
  migrate_status = λ env vars. ok ahead;
  migrate_down = λ p.
      ok
        (record { run_status = "APPLIED"; run_url = ""; run_start = 7; run_target = p.to_version });
  migrate_apply_slice = λ env vars. record { stderr = ""; reports = ok [] };
}

abbrev services : MigrationServices plain_packages
services = record {
  reader = state_reader;
  new_working_dir = λ d. ok "/tmp";
  create_config_file = λ d. ok tt;
  copy_fs = λ name dir. ok tt;
  atlas_client = λ path cloud home. ok cli;
  archive_dir = λ dir. ok "archive";
  create_secret = λ s. ok tt;
  update_secret = λ s. ok tt;
  dev_db = record {
    DevDbConfig = Unit {0};
    has_pod_spec = λ c. false;
    dev_url = λ owner url config dev. ([], ok "sqlite://db");
    clean_up = λ owner. [];
  };
  allow_custom_config = false;
}

abbrev spec : MigrationSpec
spec = record {
  target = record {
    url = "mysql://db";
    url_from = none;
    credentials = record {
      scheme = "";
      user = "";
      user_from = none;
      password = "";
      password_from = some (record { ref_name = "db"; key = "password" });
      host = "";
      host_from = none;
      port = pos 0;
      database = "";
      parameters = [];
    };
  };
  project_config = record { config = ""; config_from = none; env_name = ""; vars = [] };
  spec_env_name = "";
  cloud = record { spec_url = ""; token_from = none; project = "" };
  dir = record {
    config_map_ref = none;
    remote = record { remote_name = ""; tag = "" };
    local = some (("1.sql", "create") ∷ []);
  };
  dev_url = "sqlite://dev";
  dev_url_from = none;
  revisions_schema = "";
  baseline = "";
  exec_order = "";
  migrate_down = some (record { allow = true; auto_approve = true });
  drift = none;
}

abbrev migration : AtlasMigration
migration = record {
  name = "app";
  namespace = "prod";
  generation = pos 1;
  prewarm_dev_db = none;
  backoff_limit = pos 1;
  status = record {
    observed_generation = pos 1;
    conditions = [];
    last_applied_version = "";
    last_deployment_url = "";
    approval_url = "";
    observed_hash = "";
    last_applied = 0;
    failed = 0;
  };
}

abbrev resource : MigrationResource plain_packages services
resource = record { stored = migration; resource_labels = []; spec = spec; dev_db_config = none }

abbrev run_data : MigrationData plain_packages
run_data = record {
  env_name = "kubernetes";
  url = some (record { scheme = "mysql://db"; user = none; host = ""; path = ""; raw_query = "" });
  data_dev_url = "sqlite://dev";
  data_dir = some (("1.sql", "create") ∷ []);
  dir_latest = some [];
  data_cloud = none;
  data_revisions_schema = "";
  data_baseline = "";
  data_exec_order = "";
  data_migrate_down = true;
  observed_hash = "mysql://dbsum";
  remote_dir = none;
  policy = none;
  data_config = none;
  data_vars = [];
}

run_data_lem : data_of plain_api plain_packages services resource ≡ ok run_data
unfolding extract_migration_data hash_migration_data choose_dir read_dir_state stored_dir
    extract_dir_from_secret archived get database_url get_config get_vars
run_data_lem = refl

reconcile-Follows_example :
    Follows plain_packages services resource
      (data_of plain_api plain_packages services resource)
      (reconcile plain_api plain_packages services resource).0.commands
reconcile-Follows_example = reconcile-Follows plain_api plain_packages services resource

runs_down : downgraded (reconcile plain_api plain_packages services resource).0.commands ≡ true
unfolding reconcile run extract_data accept_data run_with working_dir atlas_client behind_client
    log_in who_am_i known_user migrate_status apply_changes prepare_dev_db dev_db dev_db_for
    migrate_down downgrade_to down_dir settle_down store_dir_state store_dir_of store_dir created
    settle has_dev_url is_hash_modified is_ready set_ready set_condition as_pending
    extract_migration_data hash_migration_data choose_dir read_dir_state stored_dir
    extract_dir_from_secret archived get database_url get_config get_vars
runs_down = refl

reconcile-deployments_example :
    (deployments (reconcile plain_api plain_packages services resource).0.commands ≤ 1)
    × (implies (downgraded (reconcile plain_api plain_packages services resource).0.commands) (
          may_downgrade plain_api plain_packages services
            (data_of plain_api plain_packages services resource))
        ≡ true)
reconcile-deployments_example = reconcile-deployments plain_api plain_packages services resource

becomes_ready :
    is_ready plain_api (reconcile plain_api plain_packages services resource).0.resource ≡ true
unfolding reconcile run extract_data accept_data run_with working_dir atlas_client behind_client
    log_in who_am_i known_user migrate_status apply_changes prepare_dev_db dev_db dev_db_for
    migrate_down downgrade_to down_dir settle_down store_dir_state store_dir_of store_dir created
    settle has_dev_url is_hash_modified is_ready set_ready set_condition as_pending
    extract_migration_data hash_migration_data choose_dir read_dir_state stored_dir
    extract_dir_from_secret archived get database_url get_config get_vars
becomes_ready = refl

reconcile-IsDone_example :
    ((reconcile plain_api plain_packages services resource).0.resource.status.observed_hash
      ≡ "mysql://dbsum")
    × IsDone plain_api plain_packages services resource run_data
        (reconcile plain_api plain_packages services resource).0.commands
reconcile-IsDone_example =
    reconcile-IsDone plain_api plain_packages services resource run_data run_data_lem becomes_ready

result_err-InPhase_example :
    InPhase plain_api
      (result_err plain_api
        (start plain_api plain_packages services resource)
        (plain "down")
        "Login").0.resource.status.conditions
      stalled
      "Login"
      (pos 1)
    × ((result_err plain_api
          (start plain_api plain_packages services resource)
          (plain "down")
          "Login").0.resource.status.failed
        ≡ 1)
    × ((result_err plain_api
          (start plain_api plain_packages services resource)
          (plain "down")
          "Login").1
        ≡ after (backoff_delay_at 1))
unfolding as_reasoner is_failed_reason
result_err-InPhase_example =
    result_err-InPhase plain_api (start plain_api plain_packages services resource) (plain "down")
      "Login" refl

migrate_down-is_panic_example :
    is_panic
      (migrate_down plain_api plain_packages services cli run_data
        (record ahead { available = [] })
        (start plain_api plain_packages services resource)).1
    ≡ true
migrate_down-is_panic_example =
    migrate_down-is_panic plain_api plain_packages services cli run_data
      (record ahead { available = [] }) (start plain_api plain_packages services resource)

read_dir_state-new_secret_object_example :
    read_dir_state plain_packages state_reader "prod" "app" ≡ ok (some [])
unfolding new_secret_object
read_dir_state-new_secret_object_example =
    read_dir_state-new_secret_object plain_packages state_reader migration "archive" [] [] refl refl

abbrev db_secret : Name
db_secret = record { namespace = "prod"; name = "db" }

abbrev app : Name
app = record { namespace = "prod"; name = "app" }

watch_refs-handle_example :
    (count app (
        handle
          (watch_each plain_api plain_packages services
            (no_watchers plain_api plain_packages services)
            (resource ∷ resource ∷ [])).secrets
          (update_event db_secret db_secret))
      ≡ 1)
    × (count app (
          handle
            (watch_each plain_api plain_packages services
              (no_watchers plain_api plain_packages services)
              (resource ∷ resource ∷ [])).config_maps
            (update_event db_secret db_secret))
        ≡ 0)
watch_refs-handle_example =
    watch_refs-handle plain_api plain_packages services (resource ∷ resource ∷ [])
      (update_event db_secret db_secret) app
