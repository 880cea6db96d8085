-- ===== src/SchemaRun/Resources.antt =====
-- What a reconciliation of a schema reads and calls (internal/controller/atlasschema_controller.go
-- and api/v1alpha1/atlasschema_types.go).
use atlas_operator.Prelude.{
  ℕ, ◌+◌, ◌-◌, Bool, ◌||◌, String, List, [], ◌∷◌, Option, none, some, concat, decimal, leb, ltb,
  str_eq, to_lower, not, if◌then◌else◌,
}
use Prim.Native.String.{len, slice}
use text.Mathlib.Text.{find?}
use atlas_operator.Errors.{Result, ok, err, plain, ◌>>=◌}
use atlas_operator.Cluster.{Reader, KeyRef, get}
use atlas_operator.Target.{TargetSpec, Url, UrlApi}
use atlas_operator.ProjectConfig.{ProjectConfigSpec, VarValue}
use atlas_operator.SchemaStatus.{AtlasSchema, Marshalled}
use atlas_operator.Pending.{PendingTracker}
use atlas_operator.MigrationData.{Packages, Cloud}
use atlas_operator.MigrationRun.{DevDbApi}
use atlas_operator.SchemaRun.Policies.{Policy}

-- Schema, the desired state of the specification.
pub record SchemaSource : Type 0 where
  pub sql : String
  pub hcl_text : String
  pub schema_url : String
  pub config_map_key_ref : Option KeyRef

-- The Cloud of the specification.
pub record SchemaCloud : Type 0 where
  pub repo_name : String
  pub token_from : Option KeyRef

-- AtlasSchemaSpec
pub record SchemaSpec : Type 0 where
  pub target : TargetSpec
  pub project_config : ProjectConfigSpec
  pub spec_env_name : String
  pub source : SchemaSource
  pub spec_cloud : SchemaCloud
  pub dev_url : String
  pub dev_url_from : Option KeyRef
  pub spec_exclude : List String
  pub spec_schemas : List String
  pub spec_tx_mode : String
  pub spec_policy : Option Policy

-- managedData
-- The configuration is a value: that rendering relabels its env blocks in place is left out.
pub record ManagedData (pkg : Packages) : Type 0 where
  pub env_name : String
  pub url : Option Url
  pub data_dev_url : String
  pub schemas : List String
  pub exclude : List String
  pub policy : Option Policy
  pub tx_mode : String
  pub desired : Option Url
  pub data_cloud : Option Cloud
  pub data_config : Option (pkg.hcl.Body)
  pub data_vars : List (String × VarValue)
  pub schema_text : String

-- atlasexec.SchemaApplyParams
pub record ApplyParams : Type 0 where
  pub apply_env : String
  pub apply_to : String
  pub apply_tx_mode : String
  pub apply_plan_url : String
  pub auto_approve : Bool
  pub dry_run : Bool
  pub apply_vars : List (String × VarValue)

-- The file of an atlasexec.SchemaPlan, and the status of one that is listed.
pub record PlanFile : Type 0 where
  pub file_url : String
  pub file_link : String
  pub file_status : String

-- atlasexec.SchemaApply: the statements applied and pending, and the plan.
pub record SchemaReport : Type 0 where
  pub applied_changes : List String
  pub pending_changes : List String
  pub report_plan : Option PlanFile

-- What `atlas schema apply` comes to: what it writes to stderr, and its reports.
pub record SchemaApplyRun : Type 0 where
  pub apply_stderr : String
  pub apply_reports : Result (List SchemaReport)

-- AtlasExec, with the calls of this controller. The texts are the environment, the URL of the
-- desired state, and the format, the name, the tag or the repository.
pub record SchemaCli : Type 0 where
  pub login : String → Result (Unit {0})
  pub who_am_i : List (String × VarValue) → Result (Unit {0})
  pub schema_inspect : String → String → String → List (String × VarValue) → Result String
  pub schema_apply_slice : ApplyParams → SchemaApplyRun
  pub schema_push : String → String → String → String → List (String × VarValue) → Result String
  pub schema_plan : String → String → String → List (String × VarValue) → Result PlanFile
  pub schema_plan_list :
      String → String → String → List (String × VarValue) → Result (List PlanFile)

-- What the controller calls, and its settings. The working directory and its configuration are
-- made of the data. `ext` is filepath.Ext, `join_path` is path.Join, `first_eight` the verb %.8s.
pub record SchemaServices (pkg : Packages) : Type 1 where
  pub reader : Reader
  pub new_working_dir : ManagedData pkg → Result String
  pub write_config : ManagedData pkg → Result (Unit {0})
  pub atlas_client : String → Option Cloud → String → Result SchemaCli
  pub dev_db : DevDbApi AtlasSchema
  pub marshal : SchemaReport → Marshalled
  pub parse_bool : String → Option Bool
  pub ext : String → String
  pub join_path : String → String → String
  pub first_eight : String → String
  pub allow_custom_config : Bool

-- An AtlasSchema with its spec.
pub record SchemaResource (pkg : Packages) (srv : SchemaServices pkg) : Type 0 where
  pub stored : AtlasSchema
  pub spec : SchemaSpec
  pub dev_db_config : Option srv.dev_db.DevDbConfig

-- The resource in a reconciliation, with the tracker that the reconciliations share.
pub record Tracked : Type 0 where
  pub schema : AtlasSchema
  pub pending : PendingTracker

-- The calls by which a reconciliation acts on something else than the resource.
pub data SchemaCommand : Type 0 where
  dev_url_command login_command : String → SchemaCommand
  make_working_dir make_client inspect_command who_am_i_command write_config_command : SchemaCommand
  plan_list_command push_command plan_command : SchemaCommand
  apply_command : ApplyParams → SchemaCommand

abbrev file_source : String → Url
file_source path = record { scheme = "file"; user = none; host = ""; path = path; raw_query = "" }

-- The entry of a ConfigMap: its key names the format.
found_in : (String → String) → String → KeyRef → Option String → Result (Option Url × String)
unfolding to_lower
found_in ext ns ref none = err (
    plain (
      concat (
        "configmaps " ∷ ns ∷ "/" ∷ ref.ref_name ∷ " does not contain key \"" ∷ ref.key ∷ "\""
        ∷ [])))
found_in ext ns ref (some text) =
    let format = to_lower (ext ref.key) in
    if str_eq format ".hcl" || str_eq format ".sql"
    then ok (some (file_source (concat ("schema" ∷ format ∷ []))), text)
    else err (
        plain (
          concat (
            "configmaps key \"" ∷ ref.key ∷ "\" must be ending with .sql or .hcl, received \""
            ∷ format ∷ "\"" ∷ [])))

-- The URL of an atlas registry.
registry_url : Result Url → Result (Option Url × String)
registry_url (err e) = err e
registry_url (ok u) =
    if str_eq u.scheme "atlas"
    then ok (some u, "")
    else err (plain (concat ("unsupported URL schema \"" ∷ u.scheme ∷ "\"" ∷ [])))

-- DesiredState: the URL and the text of the desired state.
unfoldable pub desired_state :
    UrlApi → (String → String) → Reader → String → SchemaSource → Result (Option Url × String)
unfolding found_in registry_url get
desired_state net ext r ns s = elim s.config_map_key_ref [
  | some ref ↦
      r.get_config_map_data ns ref.ref_name >>= λ entries. found_in ext ns ref (get entries ref.key)
  | none ↦
      if not (str_eq s.hcl_text "")
      then ok (some (file_source "schema.hcl"), s.hcl_text)
      else if not (str_eq s.sql "")
      then ok (some (file_source "schema.sql"), s.sql)
      else if not (str_eq s.schema_url "")
      then registry_url (net.parse s.schema_url)
      else ok (none, "")
]

-- sqlLimitSize
abbrev pub sql_limit_size : ℕ
sql_limit_size = 1024

abbrev pub total_len : List String → ℕ
total_len [] = 0
total_len (s ∷ rest) = len s + total_len rest

abbrev pub truncated_note : ℕ → String
truncated_note n = concat ("-- truncated " ∷ decimal n ∷ " bytes..." ∷ [])

-- The switch of truncateSQL on the first statement, of a list of that many bytes.
unfoldable pub cut_first : String → ℕ → ℕ → Option ℕ → List String
cut_first s total size line =
    if leb (len s) size then s ∷ truncated_note (total - len s) ∷ [] else elim line [
      | none ↦ truncated_note total ∷ []
      | some idx ↦
          if leb idx size
          then concat (slice s 0 idx ∷ "\n" ∷ truncated_note (total - (idx + 1)) ∷ []) ∷ []
          else truncated_note total ∷ []
    ]

-- truncateSQL: the empty list, which has no first statement, is never too long.
unfoldable pub truncate_sql : List String → ℕ → List String
unfolding cut_first
truncate_sql [] size = []
truncate_sql (s ∷ rest) size =
    if ltb size (total_len (s ∷ rest))
    then cut_first s (total_len (s ∷ rest)) size (find? s "\n")
    else s ∷ rest
