-- ===== src/SchemaRun/Inputs.antt =====
-- The data of a reconciliation of a schema (internal/controller/atlasschema_controller.go).
use atlas_operator.Prelude.{
  Bool, true, false, not, ◌||◌, String, Option, none, some, str_eq, or_text, if◌then◌else◌,
}
use atlas_operator.Errors.{Result, ok, plain, transient_error, map_err, ◌>>=◌, ◌>>◌}
use atlas_operator.Cluster.{KeyRef, Reader, get_secret_value}
use atlas_operator.Target.{Url, database_url}
use atlas_operator.ProjectConfig.{get_config, get_vars}
use atlas_operator.Hcl.{is_some}
use atlas_operator.MigrationData.{Packages, Cloud, guard}
use atlas_operator.SchemaRun.Policies.{
  enable_destructive, set_lint_review, review_error, lint_of, Lint,
}
use atlas_operator.SchemaRun.Resources.{SchemaSpec, SchemaServices, ManagedData, desired_state}

module _ (pkg : Packages) where
  open pkg use {hcl, parse_config, net}

  token_value : Reader → String → Option KeyRef → Result (Option Cloud)
  unfolding get_secret_value
  token_value r ns none = ok none
  token_value r ns (some ref) = do
    token ← get_secret_value r ns ref
    ok (some (record { token = token; repo = ""; cloud_url = "" }))

  -- The repository of the specification.
  with_repo : String → Option Cloud → Option Cloud
  with_repo repo cloud =
      if str_eq repo ""
      then cloud
      else some (record {
        token = elim cloud [ none ↦ "" | some c ↦ c.token ];
        repo = repo;
        cloud_url = "";
      })

  secret_or : Reader → String → Option KeyRef → String → Result String
  unfolding get_secret_value
  secret_or r ns none url = ok url
  secret_or r ns (some ref) url = get_secret_value r ns ref

  -- extractData, for the resource of the namespace.
  unfoldable pub extract_data : SchemaServices pkg → String → SchemaSpec → Result (ManagedData pkg)
  unfolding token_value with_repo secret_or
  extract_data srv ns s = do
    config ← map_err transient_error (get_config parse_config srv.reader ns s.project_config)
    guard (not (is_some config) || srv.allow_custom_config) (
        plain
          "install the operator with \"--set allowCustomConfig=true\" to use custom atlas.hcl config")
    guard (not (is_some config) || not (str_eq s.spec_env_name ""))
        (plain "env name must be set when using custom atlas.hcl config")
    token ← token_value srv.reader ns s.spec_cloud.token_from
    url ← map_err transient_error (database_url net srv.reader ns s.target)
    guard (is_some config || is_some url) (transient_error (plain "no target database defined"))
    desired ← map_err transient_error (desired_state net srv.ext srv.reader ns s.source)
    dev ← secret_or srv.reader ns s.dev_url_from s.dev_url
    vars ← map_err transient_error (get_vars srv.reader ns s.project_config.vars)
    ok (record {
      env_name = or_text s.spec_env_name "kubernetes";
      url = url;
      data_dev_url = dev;
      schemas = s.spec_schemas;
      exclude = s.spec_exclude;
      policy = s.spec_policy;
      tx_mode = s.spec_tx_mode;
      desired = desired.0;
      data_cloud = with_repo s.spec_cloud.repo_name token;
      data_config = config;
      data_vars = vars;
      schema_text = desired.1;
    })

  abbrev is_scheme : String → Option Url → Bool
  is_scheme scheme none = false
  is_scheme scheme (some u) = str_eq u.scheme scheme

  abbrev cloud_repo : Option Cloud → String
  cloud_repo none = ""
  cloud_repo (some c) = c.repo

  -- repoURL
  unfoldable pub repo_url : ManagedData pkg → Option Url
  repo_url d =
      if not (str_eq (cloud_repo d.data_cloud) "")
      then some (record {
        scheme = "atlas";
        user = none;
        host = cloud_repo d.data_cloud;
        path = "";
        raw_query = "";
      })
      else elim d.desired [
        | none ↦ none
        | some u ↦ if str_eq u.scheme "atlas" then some (record u { raw_query = "" }) else none
      ]

  -- The desired state is a file.
  abbrev pub is_file : ManagedData pkg → Bool
  is_file d = is_scheme "file" d.desired

  -- The edit for a resource that is connected to Atlas Cloud.
  abbrev pub review_edit : ManagedData pkg → ManagedData pkg
  review_edit d = record d {
    policy =
        set_lint_review hcl review_error false d.data_config d.env_name
          (enable_destructive hcl false d.data_config d.env_name d.policy);
  }

  -- The edit before the first run, and the one behind it: the value that was there is not restored.
  abbrev pub first_run_edit : ManagedData pkg → ManagedData pkg
  first_run_edit d = record d {
    policy = enable_destructive hcl true d.data_config d.env_name d.policy;
  }

  abbrev allowing : Option Lint → Option Lint
  allowing none = none
  allowing (some l) = some (record l { destructive = some false })

  abbrev pub first_run_revert : ManagedData pkg → ManagedData pkg
  first_run_revert d = record d { policy = some (record { lint = allowing (lint_of d.policy) }) }
