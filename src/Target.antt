-- ===== src/Target.antt =====
-- The target database of a resource (api/v1alpha1/target.go): the driver of a URL, the URL of
-- credentials, and where a URL comes from. Parsing, printing and encoding a URL is the work of Go's
-- net/url, which is an interface here.
pub mod Drivers
pub mod Source
use atlas_operator.Prelude.{
  ℕ, Bool, true, false, not, ◌||◌, ◌&&◌, String, List, [], ◌∷◌, Option, none, some, ℤ, pos, negsuc,
  str_eq, concat, decimal, ◌==◌, to_lower, before, occurrences, le_zero, is_empty, if◌then◌else◌,
}
use atlas_operator.Errors.{Result, ok, err, plain, ◌>>=◌}
use atlas_operator.Cluster.{TextMap, KeyRef, Reader, put, get_secret_value_or_empty}

-- url.Userinfo: a user, and a password if one is set.
pub record Userinfo : Type 0 where
  pub username : String
  pub password : Option String

-- url.URL, with the fields that the program sets or reads.
pub record Url : Type 0 where
  pub scheme : String
  pub user : Option Userinfo
  pub host : String
  pub path : String
  pub raw_query : String

-- net/url: Parse, URL.String, Values.Encode, and URL.Query().Get on the raw query.
pub record UrlApi : Type 0 where
  pub parse : String → Result Url
  pub to_string : Url → String
  pub encode : TextMap → String
  pub query_get : String → String → String

-- Driver
pub data Driver : Type 0 where
  click_house cockroach_db databricks dsql maria_db my_sql oracle postgres redshift : Driver
  snowflake spanner sqlite sql_server ysql : Driver

-- Driver.String
unfoldable pub driver_string : Driver → String
driver_string click_house = "clickhouse"
driver_string cockroach_db = "crdb"
driver_string databricks = "databricks"
driver_string dsql = "dsql"
driver_string maria_db = "mariadb"
driver_string my_sql = "mysql"
driver_string oracle = "oracle"
driver_string postgres = "postgres"
driver_string redshift = "redshift"
driver_string snowflake = "snowflake"
driver_string spanner = "spanner"
driver_string sqlite = "sqlite"
driver_string sql_server = "sqlserver"
driver_string ysql = "ysql"

-- The switch of DriverBySchema, as a table in its order.
abbrev pub driver_names : List (String × Driver)
driver_names =
    ("sqlite", sqlite)
    ∷ ("libsql", sqlite)
    ∷ ("mysql", my_sql)
    ∷ ("mariadb", maria_db)
    ∷ ("maria", maria_db)
    ∷ ("postgres", postgres)
    ∷ ("postgresql", postgres)
    ∷ ("ysql", ysql)
    ∷ ("sqlserver", sql_server)
    ∷ ("azuresql", sql_server)
    ∷ ("mssql", sql_server)
    ∷ ("clickhouse", click_house)
    ∷ ("redshift", redshift)
    ∷ ("databricks", databricks)
    ∷ ("snowflake", snowflake)
    ∷ ("spanner", spanner)
    ∷ ("crdb", cockroach_db)
    ∷ ("dsql", dsql)
    ∷ ("oracle", oracle)
    ∷ []

find_driver : List (String × Driver) → String → Option Driver
find_driver [] drv = none
find_driver ((name, d) ∷ rest) drv = if str_eq drv name then some d else find_driver rest drv

or_unknown : String → Option Driver → Result Driver
or_unknown schema none = err (plain (concat ("unknown driver for schema \"" ∷ schema ∷ "\"" ∷ [])))
or_unknown schema (some d) = ok d

-- DriverBySchema: what stands before the first `+`, in any case of letters.
unfoldable pub driver_by_schema : String → Result Driver
unfolding find_driver or_unknown
driver_by_schema schema =
    or_unknown schema (find_driver driver_names (to_lower (before b'+' schema)))

-- SchemaBound
unfoldable pub schema_bound : UrlApi → Driver → Url → Result Bool
schema_bound net sqlite u = ok true
schema_bound net postgres u = ok (not (str_eq (net.query_get u.raw_query "search_path") ""))
schema_bound net redshift u = ok (not (str_eq (net.query_get u.raw_query "search_path") ""))
schema_bound net cockroach_db u = ok (not (str_eq (net.query_get u.raw_query "search_path") ""))
schema_bound net dsql u = ok (not (str_eq (net.query_get u.raw_query "search_path") ""))
schema_bound net ysql u = ok (not (str_eq (net.query_get u.raw_query "search_path") ""))
schema_bound net my_sql u = ok (not (str_eq u.path ""))
schema_bound net maria_db u = ok (not (str_eq u.path ""))
schema_bound net click_house u = ok (not (str_eq u.path ""))
schema_bound net sql_server u =
    let m = net.query_get u.raw_query "mode" in ok (str_eq m "" || str_eq (to_lower m) "schema")
schema_bound net oracle u =
    let m = net.query_get u.raw_query "mode" in ok (str_eq m "" || str_eq (to_lower m) "schema")
schema_bound net snowflake u = ok (occurrences b'/' u.path == 1)
schema_bound net databricks u = ok (not (str_eq (net.query_get u.raw_query "schema") ""))
schema_bound net spanner u =
    err (plain (concat ("unsupported driver \"" ∷ driver_string spanner ∷ "\"" ∷ [])))

-- Credentials
pub record Credentials : Type 0 where
  pub scheme : String
  pub user : String
  pub user_from : Option KeyRef
  pub password : String
  pub password_from : Option KeyRef
  pub host : String
  pub host_from : Option KeyRef
  pub port : ℤ
  pub database : String
  pub parameters : TextMap

-- The database is a parameter of SQL Server and the path of any other driver.
unfoldable pub is_sql_server : Driver → Bool
is_sql_server sql_server = true
is_sql_server _ = false

-- The parameters behind the first switch of Credentials.URL. The source writes to the map of the
-- credentials, which the resource shares.
unfoldable pub url_parameters : Driver → Credentials → TextMap
unfolding put is_sql_server
url_parameters drv c =
    if is_sql_server drv && not (str_eq c.database "")
    then put c.parameters "database" c.database
    else c.parameters

url_user : Credentials → Option Userinfo
url_user c =
    if not (str_eq c.user "") && not (str_eq c.password "")
    then some (record { username = c.user; password = some c.password })
    else if not (str_eq c.user "")
    then some (record { username = c.user; password = none })
    else none

url_host : Credentials → String
url_host c = elim c.port [
  | pos n ↦ if n == 0 then c.host else concat (c.host ∷ ":" ∷ decimal n ∷ [])
  | negsuc n ↦ c.host
]

-- Credentials.URL
unfoldable pub credentials_url : UrlApi → Credentials → Result Url
unfolding driver_by_schema url_parameters url_user url_host
credentials_url net c = do
  drv ← driver_by_schema c.scheme
  let parameters = url_parameters drv c
  ok (record {
    scheme = c.scheme;
    user = url_user c;
    host = url_host c;
    path = if is_sql_server drv then "" else c.database;
    raw_query = if is_empty parameters then "" else net.encode parameters;
  })

-- TargetSpec
pub record TargetSpec : Type 0 where
  pub url : String
  pub url_from : Option KeyRef
  pub credentials : Credentials

-- A field that a reference, if there is one, replaces.
pub from_ref : Reader → String → Option KeyRef → String → Result String
unfolding get_secret_value_or_empty
from_ref r ns none v = ok v
from_ref r ns (some ref) v = get_secret_value_or_empty r ns ref

some_url : Result Url → Result (Option Url)
some_url (ok u) = ok (some u)
some_url (err e) = err e

-- The URL of the credentials with the values of their references.
credentials_source : UrlApi → Reader → String → Credentials → Result (Option Url)
unfolding from_ref some_url credentials_url
credentials_source net r ns c = do
  user ← from_ref r ns c.user_from c.user
  password ← from_ref r ns c.password_from c.password
  host ← from_ref r ns c.host_from c.host
  let filled = record c { user = user; password = password; host = host }
  if str_eq host "" then ok none else some_url (credentials_url net filled)

-- DatabaseURL: the referenced URL, else the URL, else the credentials, else none.
unfoldable pub database_url : UrlApi → Reader → String → TargetSpec → Result (Option Url)
unfolding credentials_source some_url get_secret_value_or_empty
database_url net r ns s = elim s.url_from [
  | some ref ↦ get_secret_value_or_empty r ns ref >>= λ val. some_url (net.parse val)
  | none ↦
      if not (str_eq s.url "")
      then some_url (net.parse s.url)
      else credentials_source net r ns s.credentials
]
