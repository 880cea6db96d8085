-- ===== src/DevDb.antt =====
-- The reconciler of dev databases (internal/controller/devdb.go). The client of the API server, the
-- ports of net/url, the environment of the operator and SetControllerReference are parameters. A pod
-- spec of a resource is data of another package, which is passed on.
pub mod Automatic
pub mod CleanUp
pub mod Outcomes
pub mod Templates
pub mod Interface
use atlas_operator.Prelude.{
  ℕ, Bool, true, false, not, ◌&&◌, ◌||◌, String, List, [], ◌∷◌, Option, none, some, ◌==◌, str_eq,
  concat, find_func, contains_func, is_empty, if◌then◌else◌,
}
use atlas_operator.Errors.{
  Result, ok, err, GoError, plain, wrapped, transient_error, map_err, is_not_found, error_text,
}
use atlas_operator.Recorder.{RecordedEvent, event, warning_event, normal_event}
use atlas_operator.Cluster.{TextMap, get, put}
use atlas_operator.NameMap.{Name}
use atlas_operator.Target.{
  Driver, Url, UrlApi, driver_by_schema, driver_string, schema_bound, sqlite,
}
use atlas_operator.Actions.{
  State, Action, Flow, returns, fails, panics, ◌>>=◌, ◌>>◌, return, fail, lift, issue, record_all,
}
unfoldable pub use Automatic.*

-- annoConnTmpl, labelEngine and labelInstance
abbrev pub anno_conn_tmpl : String
anno_conn_tmpl = "atlasgo.io/conntmpl"

abbrev pub label_engine : String
label_engine = "atlasgo.io/engine"

abbrev pub label_instance : String
label_instance = "app.kubernetes.io/instance"

-- ReasonCreatedDevDB, ReasonCleanUpDevDB and ReasonScaledUpDevDB
abbrev pub reason_created_dev_db : String
reason_created_dev_db = "CreatedDevDB"

abbrev pub reason_clean_up_dev_db : String
reason_clean_up_dev_db = "CleanUpDevDB"

abbrev pub reason_scaled_up_dev_db : String
reason_scaled_up_dev_db = "ScaledUpDevDB"

-- DevDBMetadata
pub record DevDbMetadata : Type 0 where
  pub meta_labels : TextMap
  pub meta_annotations : TextMap

module _ (CustomPod : Type 0) where
  -- DevDB
  pub record DevDbSpec : Type 0 where
    pub pod_spec : Option CustomPod
    pub metadata : Option DevDbMetadata

  -- The pod spec of a deployment: that of the resource, or the automatic one.
  pub data PodSpec : Type 0 where
    custom : CustomPod → PodSpec
    automatic : AutoSpec → PodSpec

  -- appsv1.Deployment, with the fields that the operator sets or reads.
  pub record Deployment : Type 0 where
    pub deploy_name : Name
    pub replicas : Option ℕ
    pub selector : TextMap
    pub pod_labels : TextMap
    pub pod_annotations : TextMap
    pub deploy_pod : PodSpec

-- corev1.Pod: its name, its IP, its annotations and whether its condition Ready is true, for each
-- condition of that type.
pub record Pod : Type 0 where
  pub pod_name : String
  pub pod_ip : String
  pub annotations : TextMap
  pub ready_conditions : List Bool

-- The owner of a dev database.
pub record DevDbOwner : Type 0 where
  pub owner_name : Name
  pub prewarm_override : Option Bool

-- What the reconciler calls, and its settings. A list is of a namespace, with labels to match.
pub record DevDbServices (CustomPod : Type 0) : Type 0 where
  pub net : UrlApi
  pub url_port : Url → String
  pub getenv : String → String
  pub get_deployment : Name → Result (Deployment CustomPod)
  pub update_deployment : Deployment CustomPod → Result (Unit {0})
  pub create_deployment : Deployment CustomPod → Result (Unit {0})
  pub set_owner : Name → Result (Unit {0})
  pub list_pods : String → TextMap → Result (List Pod)
  pub delete_pod : Pod → Result (Unit {0})
  pub prewarm : Bool

-- The changes that the reconciler asks of the cluster.
pub data DevDbCommand (CustomPod : Type 0) : Type 0 where
  update_command : Deployment CustomPod → DevDbCommand CustomPod
  create_command : Deployment CustomPod → DevDbCommand CustomPod
  delete_command : Pod → DevDbCommand CustomPod

-- nameDevDB
unfoldable pub name_dev_db : Name → Name
name_dev_db owner = record {
  namespace = owner.namespace;
  name = concat (owner.name ∷ "-atlas-dev-db" ∷ []);
}

-- errWaitDevDB
abbrev pub err_wait_dev_db : GoError
err_wait_dev_db = transient_error (plain "waiting for dev database to be ready")

-- maps.Copy
unfoldable pub copy : TextMap → TextMap → TextMap
unfolding put
copy dst [] = dst
copy dst ((k, v) ∷ src) = copy (put dst k v) src

abbrev pub labels_of_meta : Option DevDbMetadata → TextMap
labels_of_meta none = []
labels_of_meta (some m) = m.meta_labels

abbrev pub annotations_of_meta : Option DevDbMetadata → TextMap
annotations_of_meta none = []
annotations_of_meta (some m) = m.meta_annotations

-- The labels of a deployment for an instance.
abbrev pub dev_labels : Driver → String → TextMap
dev_labels drv instance_name =
    (label_engine, driver_string drv)
    ∷ (label_instance, instance_name)
    ∷ ("app.kubernetes.io/name", "atlas-dev-db")
    ∷ ("app.kubernetes.io/part-of", "atlas-operator")
    ∷ ("app.kubernetes.io/created-by", "controller-manager")
    ∷ []

-- The pod that readyPod finds: the first that is ready.
abbrev pub is_pod_ready : Pod → Bool
is_pod_ready p = contains_func (λ b. b) p.ready_conditions

unfoldable pub ready_pod : List Pod → Result Pod
ready_pod pods =
    if is_empty pods then err (plain "no pods found") else elim (find_func is_pod_ready pods) [
      | none ↦ err (plain "no running pods found")
      | some p ↦ ok p
    ]

module _ (CustomPod : Type 0) (srv : DevDbServices CustomPod) where
  abbrev pub DevState : Type 0
  DevState = State (Unit {0}) (DevDbCommand CustomPod)

  abbrev pub DevStep : Type 0 → Type 0
  DevStep A = Action (Unit {0}) (DevDbCommand CustomPod) GoError A

  -- deploymentDevDB
  unfoldable pub deployment_dev_db :
      Name → Driver → PodSpec CustomPod → String → Option DevDbMetadata → Deployment CustomPod
  unfolding copy put
  deployment_dev_db key drv pod url_template meta = record {
    deploy_name = key;
    replicas = some 1;
    selector = dev_labels drv key.name;
    pod_labels = copy (copy [] (labels_of_meta meta)) (dev_labels drv key.name);
    pod_annotations = put (copy [] (annotations_of_meta meta)) anno_conn_tmpl url_template;
    deploy_pod = pod;
  }

  -- The pod spec and the connection template of a new deployment.
  pod_and_url : Driver → Url → Option CustomPod → String → Result (PodSpec CustomPod × String)
  unfolding schema_bound automatic_dev_db_spec
  pod_and_url drv target (some pod) dev_url =
      if str_eq dev_url ""
      then err (plain "devURL is required when devDB is provided")
      else ok (custom pod, dev_url)
  pod_and_url drv target none dev_url = elim (schema_bound srv.net drv target) [
    | err e ↦ err (wrapped "failed to determine if target URL is schema bound: " e)
    | ok bound ↦ elim (automatic_dev_db_spec srv.net srv.getenv drv bound) [
      | err e ↦ err (wrapped "failed to create dev database spec: " e)
      | ok (s, url) ↦ ok (automatic s, url)
    ]
  ]

  -- The case of a database that does not exist, with its deployment.
  create_from : Name → Deployment CustomPod → DevStep String
  create_from owner deploy = do
    lift (srv.set_owner owner)
    issue (create_command deploy) (map_err transient_error (srv.create_deployment deploy))
    record_all (
        event normal_event reason_created_dev_db
          (concat ("Created dev database deployment: " ∷ deploy.deploy_name.name ∷ []))
        ∷ [])
    fail err_wait_dev_db

  -- The case of a database that does not exist.
  create_dev_db :
      Name → Driver → Url → Option CustomPod → Option DevDbMetadata → String → DevStep String
  unfolding pod_and_url deployment_dev_db create_from
  create_dev_db owner drv target pod meta dev_url = do
    (p, url) ← lift (pod_and_url drv target pod dev_url)
    create_from owner (deployment_dev_db (name_dev_db owner) drv p url meta)

  -- The case of a database that is scaled down.
  scale_up : Deployment CustomPod → DevStep String
  scale_up deploy = do
    let up : Deployment CustomPod = record deploy { replicas = some 1 }
    issue (update_command up) (map_err transient_error (srv.update_deployment up))
    record_all (
        event normal_event reason_scaled_up_dev_db
          (concat ("Scaled up dev database deployment: " ∷ deploy.deploy_name.name ∷ []))
        ∷ [])
    fail err_wait_dev_db

  -- The URL of a pod, by its connection template.
  unfoldable pub pod_url : Pod → Option String → Result String
  pod_url pod none = err (plain "no connection template annotation found")
  pod_url pod (some conn) = elim (srv.net.parse conn) [
    | err e ↦ err (wrapped "invalid connection template: " e)
    | ok u ↦ ok (
        srv.net.to_string (record u {
          host =
              if str_eq (srv.url_port u) ""
              then pod.pod_ip
              else concat (pod.pod_ip ∷ ":" ∷ srv.url_port u ∷ []);
        }))
  ]

  -- The case of a database that runs.
  running_url : Name → Driver → DevStep String
  unfolding pod_url ready_pod get
  running_url owner drv = do
    pods ← lift (
        map_err transient_error (
          srv.list_pods (name_dev_db owner).namespace
            ((label_engine, driver_string drv) ∷ (label_instance, (name_dev_db owner).name) ∷ [])))
    pod ← lift (map_err transient_error (ready_pod pods))
    lift (pod_url pod (get pod.annotations anno_conn_tmpl))

  -- The deployment is there, and scaled down.
  abbrev pub is_down : Option ℕ → Bool
  is_down none = true
  is_down (some n) = n == 0

  -- The switch on the deployment.
  unfoldable pub by_deployment :
      Name
      → Driver
      → Url
      → Option CustomPod
      → Option DevDbMetadata
      → String
      → Result (Deployment CustomPod)
      → DevStep String
  unfolding scale_up running_url create_dev_db is_not_found
  by_deployment owner drv target pod meta dev_url (ok deploy) =
      if is_down deploy.replicas then scale_up deploy else running_url owner drv
  by_deployment owner drv target pod meta dev_url (err e) =
      if is_not_found e
      then create_dev_db owner drv target pod meta dev_url
      else fail (transient_error e)

  abbrev pod_of : Option (DevDbSpec CustomPod) → Option CustomPod
  pod_of none = none
  pod_of (some c) = c.pod_spec

  abbrev metadata_of : Option (DevDbSpec CustomPod) → Option DevDbMetadata
  metadata_of none = none
  metadata_of (some c) = c.metadata

  abbrev pub is_sqlite : Driver → Bool
  is_sqlite sqlite = true
  is_sqlite _ = false

  -- devURL
  unfoldable pub dev_url : Name → Url → Option (DevDbSpec CustomPod) → String → DevStep String
  unfolding driver_by_schema by_deployment
  dev_url owner target config url = do
    drv ← lift (driver_by_schema target.scheme)
    if is_sqlite drv
        then return "sqlite://db?mode=memory"
        else by_deployment owner drv target (pod_of config) (metadata_of config) url
            (srv.get_deployment (name_dev_db owner))

  -- prewarmEnabled
  unfoldable pub prewarm_enabled : DevDbOwner → Bool
  prewarm_enabled owner = elim owner.prewarm_override [ none ↦ srv.prewarm | some b ↦ b ]
