-- ===== src/MigrationData/Spec.antt =====
-- The specification of a migration (api/v1alpha1/atlasmigration_types.go), and what the packages of
-- others provide.
use atlas_operator.Prelude.{Bool, String, List, Option}
use atlas_operator.Errors.{Result}
use atlas_operator.Cluster.{KeyRef, TextMap}
use atlas_operator.Target.{TargetSpec, UrlApi}
use atlas_operator.ProjectConfig.{ProjectConfigSpec}
use atlas_operator.Hcl.{Hcl}

-- What other packages provide.
pub record Packages : Type 1 where
  pub hcl : Hcl
  pub parse_config : String → Result (hcl.Body)
  pub config_text : hcl.Body → String
  pub net : UrlApi
  pub sha256_hex : String → String
  -- migrate.Dir: made of files, its checksum, and the archive that a Secret stores
  pub Dir : Type 0
  pub dir_of_files : TextMap → Result Dir
  pub checksum : Dir → Result String
  pub unarchive_dir : String → Result Dir

-- Cloud, of a controller.
pub record Cloud : Type 0 where
  pub token : String
  pub repo : String
  pub cloud_url : String

-- CloudV0
pub record CloudSpec : Type 0 where
  pub spec_url : String
  pub token_from : Option KeyRef
  pub project : String

-- Remote
pub record Remote : Type 0 where
  pub remote_name : String
  pub tag : String

-- Dir, of the specification.
pub record DirSpec : Type 0 where
  pub config_map_ref : Option String
  pub remote : Remote
  pub local : Option TextMap

-- DeploymentFlow
pub record DeploymentFlow : Type 0 where
  pub allow : Bool
  pub auto_approve : Bool

-- DriftOnError
pub data DriftOnError : Type 0 where
  on_error_unset on_error_fail on_error_continue : DriftOnError

abbrev pub on_error_text : DriftOnError → String
on_error_text on_error_unset = ""
on_error_text on_error_fail = "FAIL"
on_error_text on_error_continue = "CONTINUE"

-- DriftPolicy
pub record DriftPolicy : Type 0 where
  pub on_error : DriftOnError
  pub exclude : List String

-- AtlasMigrationSpec, with the flow of ProtectFlows and the drift policy of MigrationPolicy, which
-- are the only fields of these.
pub record MigrationSpec : Type 0 where
  pub target : TargetSpec
  pub project_config : ProjectConfigSpec
  pub spec_env_name : String
  pub cloud : CloudSpec
  pub dir : DirSpec
  pub dev_url : String
  pub dev_url_from : Option KeyRef
  pub revisions_schema : String
  pub baseline : String
  pub exec_order : String
  pub migrate_down : Option DeploymentFlow
  pub drift : Option DriftPolicy
