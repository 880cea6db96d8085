-- ===== src/MigrationData.antt =====
-- The inputs of a migration (internal/controller/atlasmigration_controller.go): reading them from
-- the cluster, hashing them, and the checks on them. The functions of other packages are a
-- parameter: the parser of the HCL library, net/url, SHA-256 (of the text that is
-- written to it piece by piece), and the directories of the Atlas SDK with their checksum and their
-- compressed archive.
pub mod Spec
pub mod Extract
pub mod Hash
use atlas_operator.Prelude.{
  Bool, true, false, not, ◌&&◌, ◌||◌, String, List, [], ◌∷◌, ◌++◌, Option, none, some, str_eq,
  concat, join, or_text, if◌then◌else◌,
}
use atlas_operator.Errors.{
  Result, ok, err, GoError, plain, transient_error, reasoned_error, map_err, is_not_found, ◌>>=◌,
  ◌>>◌,
}
use atlas_operator.Cluster.{KeyRef, Secret, Reader, TextMap, get, get_secret_value, get_config_map}
use atlas_operator.Target.{TargetSpec, Url, UrlApi, database_url}
use atlas_operator.ProjectConfig.{ProjectConfigSpec, VarValue, get_config, get_vars}
use atlas_operator.Hcl.{Hcl, has_config_repo, has_dev_url, is_some}
unfoldable pub use Spec.*

-- makeKeyLatest
abbrev pub make_key_latest : String → String
make_key_latest res_name = concat ("io.atlasgo.db.v1" ∷ "." ∷ res_name ∷ ".latest" ∷ [])

-- The error of a flow that the resource may not take.
abbrev pub protected_flow_error : String → GoError
protected_flow_error s = reasoned_error (plain s) "ProtectedFlowError"

abbrev pub no_registry : String
no_registry =
    "spec.policy.drift requires a migration directory on the Atlas Registry: set spec.dir.remote, or declare migration.repo.name in spec.config; the pre-apply drift check compares the database against the expected state stored in the registry"

-- A guard of the program: without the condition the function returns the error.
abbrev pub guard : Bool → GoError → Result (Unit {0})
guard true e = ok tt
guard false e = err e

module _ (pkg : Packages) where
  open pkg use {
    hcl, parse_config, config_text, net, sha256_hex, Dir, dir_of_files, checksum, unarchive_dir,
  }

  -- migrationData
  pub record MigrationData : Type 0 where
    pub env_name : String
    pub url : Option Url
    pub data_dev_url : String
    pub data_dir : Option Dir
    pub dir_latest : Option Dir
    pub data_cloud : Option Cloud
    pub data_revisions_schema : String
    pub data_baseline : String
    pub data_exec_order : String
    pub data_migrate_down : Bool
    pub observed_hash : String
    pub remote_dir : Option Remote
    pub policy : Option DriftPolicy
    pub data_config : Option (hcl.Body)
    pub data_vars : List (String × VarValue)

  -- hasRemoteDir
  unfoldable pub has_remote_dir : MigrationData → Bool
  has_remote_dir d = elim d.remote_dir [ none ↦ false | some r ↦ not (str_eq r.remote_name "") ]

  -- DirURL, of a remote that hasRemoteDir accepts, or else.
  unfoldable pub dir_url : MigrationData → String
  dir_url d = elim d.remote_dir [
    | none ↦ "file://migrations"
    | some r ↦
        if not (str_eq r.remote_name "")
        then concat ("atlas://" ∷ r.remote_name ∷ "?tag=" ∷ r.tag ∷ [])
        else "file://migrations"
  ]

  abbrev url_writes : Option Url → List String
  url_writes none = []
  url_writes (some u) = net.to_string u ∷ []

  abbrev config_writes : Option (hcl.Body) → List String
  config_writes none = []
  config_writes (some c) = config_text c ∷ []

  abbrev cloud_writes : Option Cloud → List String
  cloud_writes none = []
  cloud_writes (some c) = c.token ∷ c.cloud_url ∷ c.repo ∷ []

  abbrev policy_writes : Option DriftPolicy → List String
  policy_writes none = []
  policy_writes (some p) = on_error_text p.on_error ∷ join p.exclude "," ∷ []

  local_writes : Option Dir → Result (List String)
  local_writes none = err (plain "migration data is empty")
  local_writes (some dir) = do sum ← checksum dir; ok (sum ∷ [])

  -- What the last switch of hashMigrationData writes.
  dir_writes : Option Remote → Option Dir → Result (List String)
  unfolding local_writes
  dir_writes none dir = local_writes dir
  dir_writes (some r) dir =
      if not (str_eq r.remote_name "") then ok (r.remote_name ∷ r.tag ∷ []) else local_writes dir

  -- hashMigrationData
  unfoldable pub hash_migration_data : MigrationData → Result String
  unfolding dir_writes
  hash_migration_data d = do
    dir ← dir_writes d.remote_dir d.data_dir
    ok (
        sha256_hex (
          concat (
            url_writes d.url
            ++ (config_writes d.data_config
                ++ (cloud_writes d.data_cloud ++ (policy_writes d.policy ++ dir))))))

  -- extractDirFromSecret
  unfoldable pub archived : Option String → Result Dir
  archived none = err (plain "migrations.tar.gz not found")
  archived (some tarball) = unarchive_dir tarball

  unfoldable pub extract_dir_from_secret : Secret → Result Dir
  unfolding archived get
  extract_dir_from_secret sec =
      if str_eq sec.secret_type "atlasgo.io/db.v1"
      then archived (get sec.secret_entries "migrations.tar.gz")
      else err (plain (concat ("invalid secret type, got \"" ∷ sec.secret_type ∷ "\"" ∷ [])))

  unfoldable pub stored_dir : Result Secret → Result (Option Dir)
  unfolding extract_dir_from_secret
  stored_dir (err e) = if is_not_found e then ok none else err e
  stored_dir (ok secret) = do dir ← extract_dir_from_secret secret; ok (some dir)

  -- readDirState: no saved directory is no error.
  unfoldable pub read_dir_state : Reader → String → String → Result (Option Dir)
  unfolding stored_dir
  read_dir_state r ns name = stored_dir (r.get_secret ns (make_key_latest name))

  -- What the switch on the directory decides.
  pub record DirChoice : Type 0 where
    pub chosen_remote : Option Remote
    pub chosen_dir : Option Dir
    pub chosen_latest : Option Dir
    pub chosen_migrate_down : Bool

  remote_flow : Option DeploymentFlow → Result Bool
  remote_flow none = ok false
  remote_flow (some f) =
      if f.allow && f.auto_approve
      then err (protected_flow_error "autoApprove is not allowed for a remote directory")
      else ok f.allow

  local_flow : Option DeploymentFlow → Result Bool
  local_flow none = ok false
  local_flow (some f) =
      if f.allow && not f.auto_approve
      then err (
          protected_flow_error
            "allow cannot be true without autoApprove for local migration directory")
      else ok (f.allow && f.auto_approve)

  remote_choice : Remote → Option DeploymentFlow → Bool → Result DirChoice
  unfolding remote_flow
  remote_choice remote flow has_credentials = do
    guard has_credentials (plain "cannot use remote directory without Atlas Cloud token")
    down ← remote_flow flow
    ok (record {
      chosen_remote = some remote;
      chosen_dir = none;
      chosen_latest = none;
      chosen_migrate_down = down;
    })

  choose_remote : MigrationSpec → Bool → Result DirChoice
  unfolding remote_choice
  choose_remote s has_config =
      remote_choice s.dir.remote s.migrate_down
        (not (not (is_some s.cloud.token_from) && not has_config))

  local_choice :
      Option DeploymentFlow → Bool → Result TextMap → Result (Option Dir) → Result DirChoice
  unfolding local_flow
  local_choice flow one_source files latest = do
    guard one_source (plain "cannot use both configmaps and local directory")
    down ← local_flow flow
    files' ← files
    dir ← dir_of_files files'
    latest' ← latest
    ok (record {
      chosen_remote = none;
      chosen_dir = some dir;
      chosen_latest = latest';
      chosen_migrate_down = down;
    })

  choose_local : Reader → String → String → MigrationSpec → Result TextMap → Result DirChoice
  unfolding local_choice read_dir_state
  choose_local r ns name s files =
      local_choice s.migrate_down (not (is_some s.dir.local && is_some s.dir.config_map_ref)) files
        (read_dir_state r ns name)

  -- The files of a local directory or, without one, of the ConfigMap.
  choose_files :
      Reader → String → String → MigrationSpec → Option TextMap → Option String → Result DirChoice
  unfolding choose_local get_config_map
  choose_files r ns name s (some files) ref = choose_local r ns name s (ok files)
  choose_files r ns name s none (some ref) = choose_local r ns name s (get_config_map r ns ref)
  choose_files r ns name s none none = err (plain "no directory specified")

  -- The switch on the directory of extractMigrationData.
  unfoldable pub choose_dir : Reader → String → String → MigrationSpec → Bool → Result DirChoice
  unfolding choose_remote choose_files
  choose_dir r ns name s has_config =
      if not (str_eq s.dir.remote.remote_name "")
      then choose_remote s has_config
      else choose_files r ns name s s.dir.local s.dir.config_map_ref

  cloud_token : Reader → String → Option KeyRef → Result (Option Cloud)
  unfolding get_secret_value
  cloud_token r ns none = ok none
  cloud_token r ns (some ref) = do
    token ← get_secret_value r ns ref
    ok (some (record { token = token; repo = ""; cloud_url = "" }))

  -- The cloud of the data: that of the token, with the project and the URL if one of them is set.
  merge_cloud : CloudSpec → Option Cloud → Option Cloud
  merge_cloud c cloud =
      if not (str_eq c.project "") || not (str_eq c.spec_url "")
      then some (record {
        token = elim cloud [ none ↦ "" | some t ↦ t.token ];
        repo = c.project;
        cloud_url = c.spec_url;
      })
      else cloud

  check_config : MigrationSpec → Bool → Bool → Result (Unit {0})
  check_config s has_config allow_custom_config = do
    guard (not has_config || allow_custom_config) (
        plain
          "install the operator with \"--set allowCustomConfig=true\" to use custom atlas.hcl config")
    guard (not has_config || not (str_eq s.spec_env_name ""))
        (plain "env name must be set when using custom atlas.hcl config")

  dev_url_value : Reader → String → Option KeyRef → String → Result String
  unfolding get_secret_value
  dev_url_value r ns none url = ok url
  dev_url_value r ns (some ref) url = get_secret_value r ns ref

  -- The name of the environment.
  abbrev env_name_of : MigrationSpec → String
  env_name_of s = or_text s.spec_env_name "kubernetes"

  -- extractMigrationData, for the resource of the namespace and the name.
  unfoldable pub extract_migration_data :
      Reader → String → String → MigrationSpec → Bool → Result MigrationData
  unfolding check_config cloud_token merge_cloud dev_url_value
  extract_migration_data r ns name s allow_custom_config = do
    config ← map_err transient_error (get_config parse_config r ns s.project_config)
    let has_config = is_some config
    check_config s has_config allow_custom_config
    let env = env_name_of s
    guard
        (not (
          is_some s.drift
          && (str_eq s.dir.remote.remote_name "" && not (has_config_repo hcl config env))))
        (plain no_registry)
    url ← map_err transient_error (database_url net r ns s.target)
    guard (has_config || is_some url) (transient_error (plain "no target database defined"))
    token_cloud ← cloud_token r ns s.cloud.token_from
    dir ← choose_dir r ns name s has_config
    dev ← dev_url_value r ns s.dev_url_from s.dev_url
    let d : MigrationData = record {
      env_name = env;
      url = url;
      data_dev_url = dev;
      data_dir = dir.chosen_dir;
      dir_latest = dir.chosen_latest;
      data_cloud = merge_cloud s.cloud token_cloud;
      data_revisions_schema = s.revisions_schema;
      data_baseline = s.baseline;
      data_exec_order = s.exec_order;
      data_migrate_down = dir.chosen_migrate_down;
      observed_hash = "";
      remote_dir = dir.chosen_remote;
      policy = s.drift;
      data_config = config;
      data_vars = [];
    }
    hash ← hash_migration_data d
    vars ← map_err transient_error (get_vars r ns s.project_config.vars)
    ok (record d { observed_hash = hash; data_vars = vars })
