-- ===== src/Examples/Schemas.antt =====
-- The reconciliations of a schema.
use atlas_operator.Prelude.{◌≡◌, refl, ap, [], ◌∷◌, Option, none, some, pos, true, false}
use atlas_operator.Conditions.{condition, cond_true, ready_cond}
use atlas_operator.Errors.{Result, ok, err, plain}
use atlas_operator.NameMap.{Name}
use atlas_operator.Target.{Url}
use atlas_operator.Hcl.{Hcl, search_block}
use atlas_operator.SchemaStatus.{AtlasSchema, marshalled}
use atlas_operator.MigrationData.{Packages}
use atlas_operator.Actions.{panics}
use atlas_operator.SchemaRun.{
  SchemaServices, SchemaResource, SchemaCli, SchemaReport, ManagedData, SchemaSpec, start, apply_by,
  by_plans, review_edit, reconcile_request, drops, has_lint, has_lint_destructive, has_lint_review,
  policy_has_lint, policy_has_lint_destructive, policy_has_lint_review,
}
use atlas_operator.SchemaRun.Destructive.{applies, FindsDrops, apply_by-applies}
use atlas_operator.SchemaRun.Connection.{always_reviewed_policy, Forgets, reconcile_request-Forgets}
use atlas_operator.Pending.{PendingTracker}
use atlas_operator.Watch.{new}
use atlas_operator.SchemaRun.Reviews.{by_plans-panics}
use atlas_operator.Examples.Samples.{
  plain_api, plain_packages, plain_reader, SampleBlock, sample_block,
}

-- A report of a pending statement that drops a table.
abbrev dropping : SchemaReport
dropping = record {
  applied_changes = [];
  pending_changes = "DROP TABLE t" ∷ [];
  report_plan = none;
}

abbrev cli : SchemaCli
cli = record {
  login = λ token. ok tt;
  who_am_i = λ vars. err (plain "the server is down");
  schema_inspect = λ env url format vars. ok "hash";
  schema_apply_slice = λ p. record { apply_stderr = ""; apply_reports = ok (dropping ∷ []) };
  schema_push = λ env name tag url vars. ok url;
  schema_plan = λ env repo to vars. err (plain "no plan");
  schema_plan_list = λ env repo to vars. ok [];
}

abbrev services_of : (pkg : Packages) → SchemaServices pkg
services_of pkg = record {
  reader = plain_reader;
  new_working_dir = λ d. ok "/tmp";
  write_config = λ d. ok tt;
  atlas_client = λ path cloud home. ok cli;
  dev_db = record {
    DevDbConfig = Unit {0};
    has_pod_spec = λ c. false;
    dev_url = λ owner url config dev. ([], ok "sqlite://db");
    clean_up = λ owner. [];
  };
  marshal = λ r. marshalled "";
  parse_bool = λ s. none;
  ext = λ s. "";
  join_path = λ a b. a;
  first_eight = λ s. s;
  allow_custom_config = false;
}

abbrev schema : AtlasSchema
schema = record {
  name = "app";
  namespace = "prod";
  generation = pos 1;
  prewarm_dev_db = none;
  backoff_limit = pos 1;
  status = record {
    observed_generation = pos 1;
    conditions = condition ready_cond cond_true "Applied" "" ∷ [];
    observed_hash = "";
    last_applied = 5;
    plan_url = "";
    plan_link = "";
    failed = 0;
  };
}

abbrev spec : SchemaSpec
spec = record {
  target = record {
    url = "mysql://db";
    url_from = none;
    credentials = record {
      scheme = "";
      user = "";
      user_from = none;
      password = "";
      password_from = none;
      host = "";
      host_from = none;
      port = pos 0;
      database = "";
      parameters = [];
    };
  };
  project_config = record { config = ""; config_from = none; env_name = ""; vars = [] };
  spec_env_name = "";
  source = record { sql = ""; hcl_text = ""; schema_url = ""; config_map_key_ref = none };
  spec_cloud = record { repo_name = ""; token_from = none };
  dev_url = "";
  dev_url_from = none;
  spec_exclude = [];
  spec_schemas = [];
  spec_tx_mode = "";
  spec_policy = none;
}

abbrev resource_of : (pkg : Packages) → SchemaResource pkg (services_of pkg)
resource_of pkg = record { stored = schema; spec = spec; dev_db_config = none }

abbrev data_with : (pkg : Packages) → Option pkg.hcl.Body → ManagedData pkg
data_with pkg config = record {
  env_name = "kubernetes";
  url = none;
  data_dev_url = "";
  schemas = [];
  exclude = [];
  policy = none;
  tx_mode = "";
  desired = none;
  data_cloud = none;
  data_config = config;
  data_vars = [];
  schema_text = "";
}

abbrev client_or : Result SchemaCli → SchemaCli
client_or (ok c) = c
client_or (err e) = cli

-- Every client is `cli`, whose reports drop a table.
always_drops :
    FindsDrops plain_api plain_packages (services_of plain_packages) (data_with plain_packages none)
unfolding drops
always_drops other path home vars e =
    let q : cli ≡ other = ap (λ r. client_or r) e in rw (← q) (dropping, refl, refl)

apply_by-applies_example :
    applies
      (apply_by plain_api plain_packages
        (services_of plain_packages)
        7
        (resource_of plain_packages)
        "/tmp"
        cli
        (data_with plain_packages none)
        "hash"
        false
        true
        false
        (start plain_api plain_packages
          (services_of plain_packages)
          7
          (resource_of plain_packages)
          [])).0.commands
    ≡ 0
apply_by-applies_example =
    apply_by-applies plain_api plain_packages (services_of plain_packages) 7
      (resource_of plain_packages) "/tmp" cli (data_with plain_packages none) "hash" true false
      (start plain_api plain_packages (services_of plain_packages) 7 (resource_of plain_packages)
        [])
      always_drops refl

abbrev reviewed_data : ManagedData plain_packages
reviewed_data = record (data_with plain_packages none) { policy = some always_reviewed_policy }

-- The tracker has an entry for the resource, whose reconciliation fails where its data are read.
abbrev app : Name
app = record { namespace = "prod"; name = "app" }

abbrev pending : PendingTracker
pending = (app, record { key = "plan"; since = 3 }) ∷ []

reconcile_request-Forgets_example :
    Forgets plain_api plain_packages
      (services_of plain_packages)
      7
      app
      (ok (resource_of plain_packages))
      pending
      (reconcile_request plain_api plain_packages
        (services_of plain_packages)
        7
        app
        (ok (resource_of plain_packages))
        pending
        (record { config_maps = new; secrets = new }))
reconcile_request-Forgets_example =
    reconcile_request-Forgets plain_api plain_packages (services_of plain_packages) 7 app
      (ok (resource_of plain_packages)) pending (record { config_maps = new; secrets = new })

-- Bodies with every block and every attribute.
abbrev full_hcl : Hcl
full_hcl = record {
  Body = Unit {0};
  Block = SampleBlock;
  blocks = λ b. sample_block "env" [] ∷ sample_block "lint" [] ∷ sample_block "destructive" [] ∷ [];
  block_type = λ b. elim b [ sample_block t ls ↦ t ];
  labels = λ b. elim b [ sample_block t ls ↦ ls ];
  block_body = λ b. tt;
  attribute = λ b name. some "true";
}

abbrev full_packages : Packages
full_packages = record {
  hcl = full_hcl;
  parse_config = λ text. ok tt;
  config_text = λ body. "";
  net = plain_packages.net;
  sha256_hex = λ text. text;
  Dir = plain_packages.Dir;
  dir_of_files = plain_packages.dir_of_files;
  checksum = plain_packages.checksum;
  unarchive_dir = plain_packages.unarchive_dir;
}

abbrev repo : Url
repo = record { scheme = "atlas"; user = none; host = "app"; path = ""; raw_query = "" }

by_plans-panics_example :
    by_plans plain_api full_packages
      (services_of full_packages)
      7
      cli
      (review_edit full_packages (data_with full_packages (some tt)))
      repo
      "env://src"
      "hash"
      []
      (start plain_api full_packages (services_of full_packages) 7 (resource_of full_packages) [])
    ≡ (
      start plain_api full_packages (services_of full_packages) 7 (resource_of full_packages) [],
      panics,
    )
unfolding has_lint has_lint_destructive has_lint_review policy_has_lint policy_has_lint_destructive
    policy_has_lint_review search_block
by_plans-panics_example =
    by_plans-panics plain_api full_packages (services_of full_packages) 7 cli
      (data_with full_packages (some tt)) repo "env://src" "hash"
      (start plain_api full_packages (services_of full_packages) 7 (resource_of full_packages) [])
      refl refl
