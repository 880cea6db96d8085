-- ===== src/DevDb/Automatic.antt =====
-- The dev databases that the operator makes by itself (internal/controller/devdb.go): the container
-- and the connection template for a driver. What all containers have in common is left out: the
-- intervals of the startup probe, the restrictions of the security context, the name of the container
-- and of its port, which is the driver's, and one empty volume for each mount.
use atlas_operator.Prelude.{
  ℕ, Bool, true, false, not, ◌&&◌, String, List, [], ◌∷◌, Option, none, some, str_eq, concat,
  decimal, if◌then◌else◌,
}
use atlas_operator.Errors.{Result, ok, err, plain, ◌>>=◌}
use atlas_operator.Cluster.{TextMap}
use atlas_operator.Target.{
  Driver, Url, UrlApi, Userinfo, driver_string, postgres, ysql, sql_server, my_sql, maria_db,
  click_house, cockroach_db, redshift, databricks, dsql, oracle, snowflake, spanner, sqlite,
}

-- What AutomaticDevDBSpec sets for a driver: the parts of the URL, then those of the container.
pub record AutoSpec : Type 0 where
  pub user : String
  pub pass : String
  pub path : String
  pub query : TextMap
  pub image : String
  pub container_port : ℕ
  pub probe : List String
  pub env : TextMap
  pub command : List String
  pub args : List String
  pub run_as_user : ℕ
  pub run_as_non_root : Bool
  pub added_capabilities : List String
  pub volume_mounts : TextMap

-- A container with the settings that most drivers leave.
abbrev pub container : String → String → String → String → ℕ → List String → ℕ → AutoSpec
container user pass path image port probe run_as = record {
  user = user;
  pass = pass;
  path = path;
  query = [];
  image = image;
  container_port = port;
  probe = probe;
  env = [];
  command = [];
  args = [];
  run_as_user = run_as;
  run_as_non_root = true;
  added_capabilities = [];
  volume_mounts = [];
}

-- The query of the drivers with a search path.
abbrev search_query : Bool → TextMap
search_query true = ("sslmode", "disable") ∷ ("search_path", "public") ∷ []
search_query false = ("sslmode", "disable") ∷ []

-- The database of a schema-bound URL, and the variable that creates it.
abbrev dev_path : Bool → String
dev_path true = "dev"
dev_path false = ""

abbrev dev_variable : Bool → String → TextMap
dev_variable true name = (name, "dev") ∷ []
dev_variable false name = []

abbrev client_probe : String → List String
client_probe client =
    client ∷ "-h" ∷ "127.0.0.1" ∷ "-e" ∷ "SELECT 1" ∷ "-u" ∷ "root" ∷ "-ppass" ∷ []

abbrev unsupported : Driver → Result AutoSpec
unsupported drv = err (
    plain (
      concat (
        "devdb: unsupported driver \""
        ∷ driver_string drv
        ∷ "\". You need to provide the devURL on the resource: https://atlasgo.io/integrations/kubernetes/operator#devurl"
        ∷ [])))

-- The switch of AutomaticDevDBSpec, in an environment of the operator.
unfoldable pub auto_spec : (String → String) → Driver → Bool → Result AutoSpec
auto_spec getenv postgres bound =
    ok
      (record (container "postgres" "pass" "postgres" "postgres:latest" 5432 ("pg_isready" ∷ [])
        999) {
          query = search_query bound;
          env =
              ("POSTGRES_DB", "postgres")
              ∷ ("POSTGRES_USER", "postgres")
              ∷ ("POSTGRES_PASSWORD", "pass")
              ∷ [];
        })
auto_spec getenv ysql bound =
    ok
      (record (container "yugabyte" "" "yugabyte" "yugabytedb/yugabyte:latest" 5433
        ("sh" ∷ "-ec" ∷ "bin/ysqlsh -h \"$(hostname)\" -U yugabyte -d yugabyte -c 'SELECT 1'" ∷ [])
        0) {
          query = search_query bound;
          env = ("HOME", "/tmp") ∷ [];
          command = "bin/yugabyted" ∷ "start" ∷ "--background=false" ∷ [];
          run_as_non_root = false;
        })
auto_spec getenv sql_server bound =
    ok
      (record (container "sa" "P@ssw0rd0995" "" "mcr.microsoft.com/mssql/server:2022-latest" 1433
        ("/opt/mssql-tools18/bin/sqlcmd" ∷ "-C" ∷ "-Q" ∷ "SELECT 1" ∷ "-U" ∷ "sa" ∷ "-P"
          ∷ "P@ssw0rd0995" ∷ [])
        10001) {
          query =
              if bound
              then ("database", "master") ∷ []
              else ("database", "master") ∷ ("mode", "DATABASE") ∷ [];
          env =
              ("MSSQL_SA_PASSWORD", "P@ssw0rd0995")
              ∷ ("MSSQL_PID", getenv "MSSQL_PID")
              ∷ ("ACCEPT_EULA", getenv "MSSQL_ACCEPT_EULA")
              ∷ [];
          added_capabilities = "NET_BIND_SERVICE" ∷ "SYS_PTRACE" ∷ [];
        })
auto_spec getenv my_sql bound =
    ok
      (record (container "root" "pass" (dev_path bound) "mysql:latest" 3306 (client_probe "mysql")
        1000) { env = ("MYSQL_ROOT_PASSWORD", "pass") ∷ dev_variable bound "MYSQL_DATABASE" })
auto_spec getenv maria_db bound =
    ok
      (record (container "root" "pass" (dev_path bound) "mariadb:latest" 3306
        (client_probe "mariadb") 999) {
          env = ("MARIADB_ROOT_PASSWORD", "pass") ∷ dev_variable bound "MARIADB_DATABASE";
        })
auto_spec getenv click_house bound =
    ok
      (record (container "root" "pass" (dev_path bound) "clickhouse/clickhouse-server:latest" 9000
        ("clickhouse-client" ∷ "-q" ∷ "SELECT 1" ∷ []) 101) {
          env =
              ("CLICKHOUSE_USER", "root")
              ∷ ("CLICKHOUSE_PASSWORD", "pass")
              ∷ dev_variable bound "CLICKHOUSE_DB";
          added_capabilities = "SYS_NICE" ∷ "NET_ADMIN" ∷ "IPC_LOCK" ∷ [];
        })
auto_spec getenv cockroach_db bound =
    ok
      (record (container "root" "" "defaultdb" "cockroachdb/cockroach:latest" 26257
        ("cockroach" ∷ "sql" ∷ "--insecure" ∷ "-e" ∷ "SELECT 1" ∷ []) 1000) {
          query = search_query bound;
          args =
              "start-single-node" ∷ "--insecure" ∷ "--certs-dir=/cockroach/cockroach-data"
              ∷ "--store=/cockroach/cockroach-data" ∷ [];
          volume_mounts = ("data", "/cockroach/cockroach-data") ∷ [];
        })
auto_spec getenv redshift bound = unsupported redshift
auto_spec getenv databricks bound = unsupported databricks
auto_spec getenv dsql bound = unsupported dsql
auto_spec getenv oracle bound = unsupported oracle
auto_spec getenv snowflake bound = unsupported snowflake
auto_spec getenv spanner bound = unsupported spanner
auto_spec getenv sqlite bound = unsupported sqlite

-- The user of the URL.
userinfo : AutoSpec → Option Userinfo
userinfo s =
    if not (str_eq s.user "") && not (str_eq s.pass "")
    then some (record { username = s.user; password = some s.pass })
    else if not (str_eq s.user "")
    then some (record { username = s.user; password = none })
    else none

-- The connection template: the name of the port is that of the driver.
unfoldable pub conn_url : UrlApi → Driver → AutoSpec → Url
unfolding userinfo
conn_url net drv s = record {
  scheme = driver_string drv;
  user = userinfo s;
  host = concat ("localhost:" ∷ decimal s.container_port ∷ []);
  path = s.path;
  raw_query = net.encode s.query;
}

-- AutomaticDevDBSpec: the container, and the text of the connection template.
unfoldable pub automatic_dev_db_spec :
    UrlApi → (String → String) → Driver → Bool → Result (AutoSpec × String)
unfolding auto_spec conn_url
automatic_dev_db_spec net getenv drv bound = do
  s ← auto_spec getenv drv bound
  ok (s, net.to_string (conn_url net drv s))
