-- ===== src/MigrationRun/Resources.antt =====
-- What a run of a migration reads and calls: the resource, the Atlas CLI and the other services
-- (internal/controller/atlasmigration_controller.go). A moment is a number of seconds since 1970.
use atlas_operator.Prelude.{ℕ, Bool, String, List, [], ◌∷◌, Option}
use atlas_operator.Recorder.{RecordedEvent}
use atlas_operator.Errors.{Result}
use atlas_operator.Cluster.{Reader, TextMap, put}
use atlas_operator.Target.{Url}
use atlas_operator.ProjectConfig.{VarValue}
use atlas_operator.MigrationStatus.{AtlasMigration}
use atlas_operator.MigrationData.{Packages, MigrationSpec, MigrationData, Cloud, make_key_latest}

-- StatePending, StateApproved, StateAborted and StateApplied
abbrev pub state_pending : String
state_pending = "PENDING_USER"

abbrev pub state_approved : String
state_approved = "APPROVED"

abbrev pub state_aborted : String
state_aborted = "ABORTED"

abbrev pub state_applied : String
state_applied = "APPLIED"

-- atlasexec.MigrateStatus: the versions available and pending, the moments at which the applied
-- ones were executed, and the current version.
pub record MigrateStatus : Type 0 where
  pub available : List String
  pub pending : List String
  pub applied : List ℕ
  pub current : String

-- atlasexec.MigrateDownParams
pub record DownParams : Type 0 where
  pub down_env : String
  pub to_version : String
  pub dir_url : String
  pub down_vars : List (String × VarValue)

-- atlasexec.MigrateDown, the report of a downgrade.
pub record DownRun : Type 0 where
  pub run_status : String
  pub run_url : String
  pub run_start : ℕ
  pub run_target : String

-- atlasexec.MigrateApply, the report of an upgrade.
pub record ApplyReport : Type 0 where
  pub report_end : ℕ
  pub report_target : String

-- What `atlas migrate apply` comes to: what it writes to stderr, and its reports.
pub record ApplyRun : Type 0 where
  pub stderr : String
  pub reports : Result (List ApplyReport)

-- AtlasExec, with the calls of this controller.
pub record MigrationCli : Type 0 where
  pub login : String → Result (Unit {0})
  pub who_am_i : List (String × VarValue) → Result (Unit {0})
  pub migrate_status : String → List (String × VarValue) → Result MigrateStatus
  pub migrate_down : DownParams → Result DownRun
  pub migrate_apply_slice : String → List (String × VarValue) → ApplyRun

-- The interface of the reconciler of dev databases, for owners of a type: devURL with the events
-- that it records, and the events of cleanUp.
pub record DevDbApi (Owner : Type 0) : Type 1 where
  pub DevDbConfig : Type 0
  -- Whether the configuration has a pod spec.
  pub has_pod_spec : DevDbConfig → Bool
  pub dev_url : Owner → Url → Option DevDbConfig → String → List RecordedEvent × Result String
  pub clean_up : Owner → List RecordedEvent

-- The Secret that newSecretObject makes, with the name of its owner.
pub record DirSecret : Type 0 where
  pub secret_name : String
  pub secret_namespace : String
  pub secret_labels : TextMap
  pub secret_owner : String
  pub dir_secret_type : String
  pub dir_secret_entries : TextMap

-- What the controller calls, and its settings. The working directory is made of the data, with the
-- configuration that `render` writes.
pub record MigrationServices (pkg : Packages) : Type 1 where
  pub reader : Reader
  pub new_working_dir : MigrationData pkg → Result String
  pub create_config_file : MigrationData pkg → Result (Unit {0})
  pub copy_fs : String → pkg.Dir → Result (Unit {0})
  pub atlas_client : String → Option Cloud → String → Result MigrationCli
  pub archive_dir : pkg.Dir → Result String
  pub create_secret : DirSecret → Result (Unit {0})
  pub update_secret : DirSecret → Result (Unit {0})
  pub dev_db : DevDbApi AtlasMigration
  pub allow_custom_config : Bool

-- An AtlasMigration with its labels and its spec.
pub record MigrationResource (pkg : Packages) (srv : MigrationServices pkg) : Type 0 where
  pub stored : AtlasMigration
  pub resource_labels : TextMap
  pub spec : MigrationSpec
  pub dev_db_config : Option srv.dev_db.DevDbConfig

-- The calls by which a run acts on something else than the resource.
pub data Command : Type 0 where
  make_working_dir make_client who_am_i_command migrate_status_command : Command
  login_command dev_url_command copy_command : String → Command
  create_file_command : Command
  migrate_down_command : DownParams → Command
  migrate_apply_command : String → Command
  create_secret_command update_secret_command : DirSecret → Command

-- newSecretObject, of the archive and the labels.
unfoldable pub new_secret_object : AtlasMigration → String → TextMap → DirSecret
unfolding put
new_secret_object obj tarball labels = record {
  secret_name = make_key_latest obj.name;
  secret_namespace = obj.namespace;
  secret_labels = put labels "owner" "atlasgo.io";
  secret_owner = obj.name;
  dir_secret_type = "atlasgo.io/db.v1";
  dir_secret_entries = ("migrations.tar.gz", tarball) ∷ [];
}
