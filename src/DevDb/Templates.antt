-- ===== src/DevDb/Templates.antt =====
-- The labels of the pods of a dev database, and the connection template that they carry
-- (internal/controller/devdb.go).
use atlas_operator.Prelude.{
  ◌≡◌, has_prefix, ◌||◌, if◌then◌else◌, refl, ap, sym, ◌∙◌, Bool, false, String, [], ◌∷◌, Option,
  some, concat, decimal, str_eq, arith,
}
use atlas_operator.Errors.{Result, ok, err}
use atlas_operator.NameMap.{Name}
use atlas_operator.Cluster.{TextMap, get}
use atlas_operator.Cluster.Values.{get-put, get-put_self}
use atlas_operator.Target.{
  Driver, Url, driver_string, postgres, ysql, sql_server, my_sql, maria_db, click_house,
  cockroach_db, redshift, databricks, dsql, oracle, snowflake, spanner, sqlite,
}
use atlas_operator.DevDb.{
  DevDbServices, DevDbMetadata, Pod, PodSpec, automatic, AutoSpec, auto_spec, conn_url,
  automatic_dev_db_spec, deployment_dev_db, copy, labels_of_meta, annotations_of_meta, dev_labels,
  pod_url, anno_conn_tmpl, label_engine, label_instance,
}

-- A map has each entry of another.
abbrev pub HasAll : TextMap → TextMap → Type 0
HasAll m [] = Unit {0}
HasAll m ((k, v) ∷ entries) = (get m k ≡ some v) × HasAll m entries

copy-dev_labels :
    (m : TextMap) (drv : Driver) (name : String)
    → HasAll (copy m (dev_labels drv name)) (dev_labels drv name)
unfolding copy
copy-dev_labels m drv name =
    (simp get-put, (simp get-put, (simp get-put, (simp get-put, (simp get-put, tt)))))

-- The path as net/url reads it back: in the text of a URL with a host, a path begins with a slash.
abbrev pub rooted : Url → Url
rooted u = record u {
  path = if str_eq u.path "" || has_prefix u.path "/" then u.path else concat ("/" ∷ u.path ∷ []);
}

module _ (CustomPod : Type 0) (srv : DevDbServices CustomPod) where
  -- Whatever labels and annotations the resource asks for, the pods of the deployment have every label
  -- that its selector asks for, those by which devURL and cleanUp list the pods, and the connection
  -- template that the deployment was made with.
  pub deployment_dev_db-HasAll :
      (key : Name) (drv : Driver) (pod : PodSpec CustomPod) (url : String)
      (meta : Option DevDbMetadata)
      → let d = deployment_dev_db CustomPod srv key drv pod url meta in
        HasAll d.pod_labels d.selector
        × ((get d.pod_annotations anno_conn_tmpl ≡ some url)
            × (HasAll d.selector
                ((label_engine, driver_string drv) ∷ (label_instance, key.name) ∷ [])))
  unfolding deployment_dev_db get
  deployment_dev_db-HasAll key drv pod url meta = (
    copy-dev_labels (copy [] (labels_of_meta meta)) drv key.name,
    (get-put_self (copy [] (annotations_of_meta meta)) anno_conn_tmpl url, (refl, (refl, tt))),
  )

  -- The port of an automatic deployment is not empty.
  lacks_port : Result (AutoSpec × String) → Bool
  lacks_port (ok (s, url)) = str_eq (decimal s.container_port) ""
  lacks_port (err e) = false

  lacks_port-automatic :
      (drv : Driver) (bound : Bool)
      → lacks_port (automatic_dev_db_spec srv.net srv.getenv drv bound) ≡ false
  unfolding automatic_dev_db_spec auto_spec decimal lacks_port
  lacks_port-automatic postgres bound = refl
  lacks_port-automatic ysql bound = refl
  lacks_port-automatic sql_server bound = refl
  lacks_port-automatic my_sql bound = refl
  lacks_port-automatic maria_db bound = refl
  lacks_port-automatic click_house bound = refl
  lacks_port-automatic cockroach_db bound = refl
  lacks_port-automatic redshift bound = refl
  lacks_port-automatic databricks bound = refl
  lacks_port-automatic dsql bound = refl
  lacks_port-automatic oracle bound = refl
  lacks_port-automatic snowflake bound = refl
  lacks_port-automatic spanner bound = refl
  lacks_port-automatic sqlite bound = refl

  pod_url-some :
      (pod : Pod) (url : String) (u : Url)
      → srv.net.parse url ≡ ok u
      → str_eq (srv.url_port u) "" ≡ false
      → pod_url CustomPod srv pod (some url)
        ≡ ok (
            srv.net.to_string (record u { host = concat (pod.pod_ip ∷ ":" ∷ srv.url_port u ∷ []) }))
  unfolding pod_url
  pod_url-some pod url u parsed port = ground (arith, parsed, port)

  -- A pod with the annotations of a deployment that was made with an automatic pod spec gives the URL
  -- of its connection template, with the host replaced by the IP of the pod and the port of the
  -- container, where net/url reads the template that it wrote with a slash before the path, and finds
  -- the port in it.
  pub pod_url-automatic :
      (drv : Driver) (bound : Bool) (s : AutoSpec) (url : String) (key : Name)
      (meta : Option DevDbMetadata) (pod : Pod)
      → automatic_dev_db_spec srv.net srv.getenv drv bound ≡ ok (s, url)
      → srv.net.parse url ≡ ok (rooted (conn_url srv.net drv s))
      → srv.url_port (rooted (conn_url srv.net drv s)) ≡ decimal s.container_port
      → pod.annotations
        ≡ (deployment_dev_db CustomPod srv key drv (automatic s) url meta).pod_annotations
      → pod_url CustomPod srv pod (get pod.annotations anno_conn_tmpl)
        ≡ ok (
            srv.net.to_string (record (rooted (conn_url srv.net drv s)) {
              host = concat (pod.pod_ip ∷ ":" ∷ decimal s.container_port ∷ []);
            }))
  unfolding lacks_port
  pod_url-automatic drv bound s url key meta pod made parsed port carried =
      ap (pod_url CustomPod srv pod) (
        ap (λ m. get m anno_conn_tmpl) carried
        ∙ (deployment_dev_db-HasAll key drv (automatic s) url meta).1.0)
      ∙ pod_url-some pod url _ parsed
          (ap (λ p. str_eq p "") port ∙ sym (ap lacks_port made) ∙ lacks_port-automatic drv bound)
      ∙ rw port refl
