-- ===== src/Examples/Inputs.antt =====
-- The inputs: targets, Secrets, configurations, variables and directories.
use atlas_operator.Prelude.{
  ◌≡◌, refl, List, [], ◌∷◌, none, some, pos, true, false, arith, decimal, to_lower, before,
}
use Prim.Native.String.{◌++◌ as text_append}
use atlas_operator.Errors.{ok}
use atlas_operator.Cluster.{KeyRef, get, put}
use atlas_operator.Target.{
  my_sql, sql_server, driver_by_schema, driver_string, Credentials, TargetSpec, database_url,
  credentials_url, is_sql_server, Url,
}
use atlas_operator.Target.Drivers.{driver_by_schema-driver_string}
use atlas_operator.Target.Source.{
  NoTarget, QueryRoundTrip, database_url-NoTarget, credentials_url-database,
}
use atlas_operator.Hcl.{search_block}
use atlas_operator.Hcl.Search.{Found, search_block-fits}
use atlas_operator.ProjectConfig.{Variable, one, get_vars, variable_value}
use atlas_operator.ProjectConfig.Vars.{get_vars-last_declared}
use atlas_operator.MigrationData.Hash.{remote_named, hash_migration_data-remote_named}
use atlas_operator.MigrationData.{MigrationData, hash_migration_data, MigrationSpec, choose_dir}
use atlas_operator.MigrationData.Extract.{on_ok, choice_valid, choose_dir-on_ok}
use atlas_operator.Examples.Samples.{
  SampleBlock, sample_block, plain_hcl, plain_net, plain_packages, plain_reader,
}

-- Credentials of a SQL Server with a database.
abbrev credentials : Credentials
credentials = record {
  scheme = "sqlserver";
  user = "sa";
  user_from = none;
  password = "p";
  password_from = none;
  host = "db";
  host_from = none;
  port = pos 1433;
  database = "app";
  parameters = [];
}

database_round_trip : QueryRoundTrip plain_net (put [] "database" "app")
unfolding put get
database_round_trip k = ground arith

abbrev sql_server_url : Url
sql_server_url = record {
  scheme = "sqlserver";
  user = some (record { username = "sa"; password = some "p" });
  host = "db:1433";
  path = "";
  raw_query = "app";
}

sql_server_url_lem : credentials_url plain_net credentials ≡ ok sql_server_url
unfolding credentials_url put get decimal to_lower before
sql_server_url_lem = refl

sql_server_scheme : driver_by_schema "sqlserver" ≡ ok sql_server
unfolding driver_by_schema to_lower before
sql_server_scheme = refl

credentials_url-database_example :
    (sql_server_url.scheme ≡ credentials.scheme)
    × ((sql_server_url.path ≡ "") × (plain_net.query_get "app" "database" ≡ "app"))
unfolding is_sql_server
credentials_url-database_example =
    credentials_url-database plain_net credentials sql_server sql_server_url database_round_trip
      sql_server_scheme refl sql_server_url_lem

abbrev no_target : TargetSpec
no_target = record { url = ""; url_from = none; credentials = record credentials { host = "" } }

no_target_lem : database_url plain_net plain_reader "prod" no_target ≡ ok none
unfolding database_url
no_target_lem = refl

database_url-NoTarget_example : NoTarget plain_reader "prod" no_target
database_url-NoTarget_example =
    database_url-NoTarget plain_net plain_reader "prod" no_target no_target_lem

driver_by_schema-driver_string_example :
    (driver_by_schema (driver_string my_sql) ≡ ok my_sql)
    × (driver_by_schema (text_append (driver_string my_sql) (text_append "+" "rds")) ≡ ok my_sql)
driver_by_schema-driver_string_example = driver_by_schema-driver_string my_sql "rds"

abbrev password_ref : KeyRef
password_ref = record { ref_name = "db"; key = "password" }

abbrev blocks : List SampleBlock
blocks = sample_block "env" [] ∷ sample_block "env" ("prod" ∷ []) ∷ []

search_block-fits_example :
    Found plain_hcl blocks "env" ("dev" ∷ []) (search_block plain_hcl blocks "env" ("dev" ∷ []))
search_block-fits_example = search_block-fits plain_hcl blocks "env" ("dev" ∷ [])

abbrev vars : List Variable
vars =
    record { variable_key = "k"; value = "1"; secret_key_ref = none; config_map_key_ref = none }
    ∷ record { variable_key = "k"; value = "2"; secret_key_ref = none; config_map_key_ref = none }
    ∷ []

two_values : get_vars plain_reader "prod" vars ≡ ok (("k", one "2") ∷ [])
unfolding get_vars put
two_values = refl

get_vars-last_declared_example : get (("k", one "2") ∷ []) "k" ≡ some (one "2")
unfolding variable_value
get_vars-last_declared_example =
    get_vars-last_declared plain_reader "prod" vars (("k", one "2") ∷ []) "k" two_values

abbrev spec : MigrationSpec
spec = record {
  target = no_target;
  project_config = record { config = ""; config_from = none; env_name = ""; vars = [] };
  spec_env_name = "";
  cloud = record { spec_url = ""; token_from = none; project = "" };
  dir = record {
    config_map_ref = some "files";
    remote = record { remote_name = ""; tag = "" };
    local = none;
  };
  dev_url = "";
  dev_url_from = none;
  revisions_schema = "";
  baseline = "";
  exec_order = "";
  migrate_down = some (record { allow = true; auto_approve = true });
  drift = none;
}

choose_dir-on_ok_example :
    on_ok
      (choice_valid plain_packages spec.migrate_down)
      (choose_dir plain_packages plain_reader "prod" "app" spec false)
    ≡ true
choose_dir-on_ok_example = choose_dir-on_ok plain_packages plain_reader "prod" "app" spec false

abbrev migration_data : MigrationData plain_packages
migration_data = record {
  env_name = "kubernetes";
  url = none;
  data_dev_url = "";
  data_dir = none;
  dir_latest = none;
  data_cloud = none;
  data_revisions_schema = "";
  data_baseline = "";
  data_exec_order = "";
  data_migrate_down = false;
  observed_hash = "";
  remote_dir = none;
  policy = none;
  data_config = none;
  data_vars = [];
}

hash_migration_data-remote_named_example :
    hash_migration_data plain_packages (remote_named plain_packages migration_data "app" "v1")
    ≡ hash_migration_data plain_packages (remote_named plain_packages migration_data "appv" "1")
hash_migration_data-remote_named_example =
    hash_migration_data-remote_named plain_packages migration_data "app" "v" "1" refl refl
