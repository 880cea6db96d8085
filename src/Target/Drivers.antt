-- ===== src/Target/Drivers.antt =====
-- Which driver a URL scheme names (api/v1alpha1/target.go).
use Prim.Native.String.{◌++◌ as text_append}
use Prim.Native.String.append
use atlas_operator.Prelude.{◌≡◌, refl, ap, String, Option, none, some, arith, before, to_lower}
use atlas_operator.Errors.{ok}
use atlas_operator.Target.{
  Driver, click_house, cockroach_db, databricks, dsql, maria_db, my_sql, oracle, postgres, redshift,
  snowflake, spanner, sqlite, sql_server, ysql, driver_string, driver_by_schema, find_driver,
  or_unknown, driver_names,
}

-- The name of each driver is a scheme of that driver.
by_schema-string : (d : Driver) → driver_by_schema (driver_string d) ≡ ok d
unfolding driver_by_schema driver_string before to_lower
by_schema-string click_house = refl
by_schema-string cockroach_db = refl
by_schema-string databricks = refl
by_schema-string dsql = refl
by_schema-string maria_db = refl
by_schema-string my_sql = refl
by_schema-string oracle = refl
by_schema-string postgres = refl
by_schema-string redshift = refl
by_schema-string snowflake = refl
by_schema-string spanner = refl
by_schema-string sqlite = refl
by_schema-string sql_server = refl
by_schema-string ysql = refl

before_plus : (t : String) → before b'+' (text_append "+" t) ≡ ""
unfolding before
before_plus t = ap (before b'+') (append.cons "+" "" t)

before-append : (s t : String) → before b'+' (text_append s (text_append "+" t)) ≡ before b'+' s
unfolding before
before-append String.[] t = rw append.nil (before_plus t)
before-append (String.◌∷◌ c s) t = simp (append.cons) (ground (arith, before-append s t))

same_driver :
    (schema schema' : String) (o : Option Driver) (d : Driver)
    → or_unknown schema o ≡ ok d
    → or_unknown schema' o ≡ ok d
unfolding or_unknown
same_driver schema schema' none d h = cc
same_driver schema schema' (some e) d h = h

suffix_ignored :
    (s t : String) (d : Driver)
    → driver_by_schema s ≡ ok d
    → driver_by_schema (text_append s (text_append "+" t)) ≡ ok d
unfolding driver_by_schema
suffix_ignored s t d h =
    rw (before-append s t)
      (same_driver s _ (find_driver driver_names (to_lower (before b'+' s))) d h)

-- The name that a driver prints is a scheme of that driver, and stays one with any `+` suffix.
pub driver_by_schema-driver_string :
    (d : Driver) (t : String)
    → (driver_by_schema (driver_string d) ≡ ok d)
      × (driver_by_schema (text_append (driver_string d) (text_append "+" t)) ≡ ok d)
driver_by_schema-driver_string d t =
    (by_schema-string d, suffix_ignored (driver_string d) t d (by_schema-string d))
