-- ===== src/Target/Source.antt =====
-- Where the URL of the target comes from (api/v1alpha1/target.go).
use atlas_operator.Prelude.{
  ◌≡◌, refl, ◌≢◌, true, false, String, none, some, [], ◌∷◌, arith, str_eq, is_empty, eq_iff,
  if◌then◌else◌, inl, inr, Bool-cases, Option-cases, ap,
}
use atlas_operator.Errors.{Result, ok, err, ◌>>=◌}
use atlas_operator.Cluster.{TextMap, KeyRef, Reader, get, put, or_empty}
use atlas_operator.Cluster.Values.{get-put_self}
use atlas_operator.Target.{
  Driver, Url, UrlApi, Credentials, TargetSpec, credentials_url, credentials_source, database_url,
  driver_by_schema, from_ref, some_url, is_sql_server, url_parameters,
}

-- Neither a referenced URL nor a plain one is set, and the host of the credentials, read through
-- its reference if it has one, is empty.
pub record NoTarget (r : Reader) (ns : String) (s : TargetSpec) : Type 0 where
  pub no_url_from : s.url_from ≡ none
  pub no_url : str_eq s.url "" ≡ true
  pub no_host : from_ref r ns s.credentials.host_from s.credentials.host ≡ ok ""

-- What `url.Values` promises of a map: its query, encoded, gives back each parameter.
abbrev pub QueryRoundTrip : UrlApi → TextMap → Type 0
QueryRoundTrip net m = (k : String) → net.query_get (net.encode m) k ≡ or_empty (get m k)

none-some_url : (u : Result Url) → some_url u ≢ ok none
unfolding some_url
none-some_url (ok u) = λ h. cc
none-some_url (err e) = λ h. cc

credentials_source-none :
    (net : UrlApi) (r : Reader) (ns : String) (c : Credentials)
    → credentials_source net r ns c ≡ ok none
    → from_ref r ns c.host_from c.host ≡ ok ""
unfolding credentials_source
credentials_source-none net r ns c h =
    hosts (from_ref r ns c.user_from c.user) (from_ref r ns c.password_from c.password)
      (from_ref r ns c.host_from c.host) h
  where
    hosts :
        (u p q : Result String)
        → (u >>= λ user. p >>= λ password. q >>= λ host.
            if str_eq host ""
            then ok none
            else some_url
                (credentials_url net (record c { user = user; password = password; host = host })))
          ≡ ok none
        → q ≡ ok ""
    hosts (err e) p q k = cc
    hosts (ok u) (err e) q k = cc
    hosts (ok u) (ok p) (err e) k = cc
    hosts (ok u) (ok p) (ok host) k = elim (Bool-cases (str_eq host "")) [
      | inl e ↦ ap ok ((eq_iff host "").0 e)
      | inr e ↦ absurd (
          none-some_url (credentials_url net (record c { user = u; password = p; host = host }))
            (rw e at k))
    ]

-- DatabaseURL returns no URL, and no error, only where the specification names no target: neither a
-- URL nor a reference to one, and credentials with an empty host.
pub database_url-NoTarget :
    (net : UrlApi) (r : Reader) (ns : String) (s : TargetSpec)
    → database_url net r ns s ≡ ok none
    → NoTarget r ns s
unfolding database_url
database_url-NoTarget net r ns s h = elim (Option-cases s.url_from) [
  | inl none_from ↦ elim (Bool-cases (str_eq s.url "")) [
    | inl empty ↦ record {
      no_url_from = none_from;
      no_url = empty;
      no_host = credentials_source-none net r ns s.credentials (rw (none_from, empty) at h);
    }
    | inr full ↦ absurd (none-some_url (net.parse s.url) (ground arith))
  ]
  | inr (ref, from) ↦ absurd (referenced ref from)
]
  where
    referenced : (ref : KeyRef) → s.url_from ≡ some ref → ⊥
    referenced ref from = ground arith

put-not_empty : (m : TextMap) (k v : String) → is_empty (put m k v) ≡ false
unfolding put
put-not_empty [] k v = refl
put-not_empty ((j, w) ∷ m) k v = ground arith

-- The URL of SQL Server credentials with a database has the database as a query parameter and an
-- empty path, given that the query of its parameters gives back what was encoded into it; the URL of any other driver
-- has the database as its path.
pub credentials_url-database :
    (net : UrlApi) (c : Credentials) (drv : Driver) (u : Url)
    → QueryRoundTrip net (put c.parameters "database" c.database)
    → driver_by_schema c.scheme ≡ ok drv
    → str_eq c.database "" ≡ false
    → credentials_url net c ≡ ok u
    → (u.scheme ≡ c.scheme)
      × (if is_sql_server drv
          then (u.path ≡ "") × (net.query_get u.raw_query "database" ≡ c.database)
          else u.path ≡ c.database)
unfolding credentials_url url_parameters
credentials_url-database net c drv u trip known named h = elim (Bool-cases (is_sql_server drv)) [
  | inl sql ↦ rw sql (
      (
        ground arith,
        (
          ground arith,
          ground (
            arith,
            put-not_empty c.parameters "database" c.database,
            trip "database",
            get-put_self c.parameters "database" c.database,
          ),
        ),
      ))
  | inr other ↦ rw other ((ground arith, ground arith))
]
