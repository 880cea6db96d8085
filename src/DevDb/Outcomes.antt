-- ===== src/DevDb/Outcomes.antt =====
-- What a run of devURL or of cleanUp does to the cluster (internal/controller/devdb.go).
use atlas_operator.Prelude.{
  ◌≡◌, refl, Bool, true, false, String, List, [], ◌∷◌, map, Option, some, ◌⊎◌, inl, inr, Bool-cases,
  arith,
}
use atlas_operator.Errors.{Result, ok, err, GoError, is_transient, Result-cases, is_not_found}
use atlas_operator.NameMap.{Name}
use atlas_operator.Target.{Driver, Url, driver_by_schema}
use atlas_operator.Actions.{Flow, returns, fails, panics}
use atlas_operator.DevDb.{
  DevDbServices, DevDbCommand, update_command, create_command, delete_command, DevDbMetadata,
  DevDbSpec, DevState, Deployment, Pod, scale_up, running_url, create_dev_db, by_deployment,
  dev_url, pod_and_url, create_from, deployment_dev_db, is_down, is_sqlite, name_dev_db, DevDbOwner,
  prewarm_enabled, label_instance, pod_of, metadata_of,
}
use atlas_operator.DevDb.CleanUp.{clean_up, delete_all, scale_down, delete_listed}

module _ (CustomPod : Type 0) (srv : DevDbServices CustomPod) where
  -- A command that starts a database.
  abbrev pub Starts : DevDbCommand CustomPod → Type 0
  Starts (update_command d) = d.replicas ≡ some 1
  Starts (create_command d) = d.replicas ≡ some 1
  Starts (delete_command p) = ⊥

  -- The state is as before, or one more command starts a database.
  abbrev pub Started : DevState CustomPod srv → DevState CustomPod srv → Type 0
  Started s t = (c : DevDbCommand CustomPod) × (t.commands ≡ c ∷ s.commands) × Starts c

  -- A URL is the outcome of a run that changes nothing, and a run that starts a database fails with
  -- a transient error.
  abbrev pub DevUrlOutcome :
      DevState CustomPod srv → DevState CustomPod srv × Flow GoError String → Type 0
  DevUrlOutcome s (t, returns url) = t ≡ s
  DevUrlOutcome s (t, fails e) = (t ≡ s) ⊎ ((is_transient e ≡ true) × Started s t)
  DevUrlOutcome s (t, panics) = ⊥

  running_url-Outcome :
      (s : DevState CustomPod srv) (owner : Name) (drv : Driver)
      → DevUrlOutcome s (running_url CustomPod srv owner drv s)
  unfolding running_url
  running_url-Outcome s owner drv = ground arith

  scale_up-Outcome :
      (s : DevState CustomPod srv) (deploy : Deployment CustomPod)
      → DevUrlOutcome s (scale_up CustomPod srv deploy s)
  unfolding scale_up is_transient
  scale_up-Outcome s deploy =
      elim (Result-cases (srv.update_deployment (record deploy { replicas = some 1 }))) [
        | inr (u, e) ↦ rw e (inr (refl, (_, refl, refl)))
        | inl (x, e) ↦ rw e (inr (refl, (_, refl, refl)))
      ]

  create_from-Outcome :
      (s : DevState CustomPod srv) (owner : Name) (deploy : Deployment CustomPod)
      → deploy.replicas ≡ some 1
      → DevUrlOutcome s (create_from CustomPod srv owner deploy s)
  unfolding create_from is_transient
  create_from-Outcome s owner deploy h = elim (Result-cases (srv.set_owner owner)) [
    | inl (x, e) ↦ rw e (inl refl)
    | inr (u, e) ↦ rw e (elim (Result-cases (srv.create_deployment deploy)) [
      | inr (v, i) ↦ rw i (inr (refl, (_, refl, h)))
      | inl (x, i) ↦ rw i (inr (refl, (_, refl, h)))
    ])
  ]

  create_dev_db-Outcome :
      (s : DevState CustomPod srv) (owner : Name) (drv : Driver) (target : Url)
      (pod : Option CustomPod) (meta : Option DevDbMetadata) (url : String)
      → DevUrlOutcome s (create_dev_db CustomPod srv owner drv target pod meta url s)
  unfolding create_dev_db deployment_dev_db
  create_dev_db-Outcome s owner drv target pod meta url =
      elim (Result-cases (pod_and_url CustomPod srv drv target pod url)) [
        | inr (x, e) ↦ rw e (create_from-Outcome s owner _ refl)
        | inl (x, e) ↦ rw e (inl refl)
      ]

  by_deployment-Outcome :
      (s : DevState CustomPod srv) (owner : Name) (drv : Driver) (target : Url)
      (pod : Option CustomPod) (meta : Option DevDbMetadata) (url : String)
      (r : Result (Deployment CustomPod))
      → DevUrlOutcome s (by_deployment CustomPod srv owner drv target pod meta url r s)
  unfolding by_deployment
  by_deployment-Outcome s owner drv target pod meta url (ok d) =
      elim (Bool-cases (is_down CustomPod srv d.replicas)) [
        | inl e ↦ rw e (scale_up-Outcome s d)
        | inr e ↦ rw e (running_url-Outcome s owner drv)
      ]
  by_deployment-Outcome s owner drv target pod meta url (err e) =
      elim (Bool-cases (is_not_found e)) [
        | inl h ↦ rw h (create_dev_db-Outcome s owner drv target pod meta url)
        | inr h ↦ rw h (inl refl)
      ]

  -- devURL returns a URL only where it has changed nothing in the cluster and recorded no event. Where
  -- it fails, either it changed nothing, or the error is transient and the one command that it gave
  -- creates the deployment, or updates it, with one replica. It does not panic.
  pub dev_url-Outcome :
      (s : DevState CustomPod srv) (owner : Name) (target : Url)
      (config : Option (DevDbSpec CustomPod)) (url : String)
      → DevUrlOutcome s (dev_url CustomPod srv owner target config url s)
  unfolding dev_url
  dev_url-Outcome s owner target config url = elim (Result-cases (driver_by_schema target.scheme)) [
    | inl (x, e) ↦ rw e (inl refl)
    | inr (drv, e) ↦ rw e (elim (Bool-cases (is_sqlite CustomPod srv drv)) [
      | inl i ↦ rw i refl
      | inr i ↦ rw i (
          by_deployment-Outcome s owner drv target (pod_of CustomPod srv config)
            (metadata_of CustomPod srv config) url (srv.get_deployment (name_dev_db owner)))
    ])
  ]

  -- The state's commands when others are given, the first of them first.
  abbrev pub given :
      List (DevDbCommand CustomPod) → List (DevDbCommand CustomPod) → List (DevDbCommand CustomPod)
  given [] before = before
  given (c ∷ cs) before = given cs (c ∷ before)

  -- The commands by which a database is cleaned up, where it is kept warm or not.
  abbrev pub clean_up_commands :
      Bool → Result (Deployment CustomPod) → Result (List Pod) → List (DevDbCommand CustomPod)
  clean_up_commands false (ok d) pods = update_command (record d { replicas = some 0 }) ∷ []
  clean_up_commands false (err e) pods = []
  clean_up_commands true d (ok pods) = map delete_command pods
  clean_up_commands true d (err e) = []

  -- The run returns with these commands given.
  abbrev pub Gives :
      DevState CustomPod srv
      → List (DevDbCommand CustomPod)
      → DevState CustomPod srv × Flow GoError (Unit {0})
      → Type 0
  Gives s cs (t, f) = (f ≡ returns tt) × (t.commands ≡ given cs s.commands)

  delete_all-Gives :
      (pods : List Pod) (s : DevState CustomPod srv)
      → Gives s (map delete_command pods) (delete_all CustomPod srv pods s)
  unfolding delete_all
  delete_all-Gives [] s = (refl, refl)
  delete_all-Gives (p ∷ pods) s = delete_all-Gives pods _

  -- cleanUp of a database that is not kept warm gives one command, which scales its deployment to no
  -- replicas, and none where the deployment is missing or its read fails. Of a database that is kept
  -- warm it deletes each pod that the list of the instance has, also behind a pod whose deletion
  -- fails, and none where the list fails. It does not fail.
  pub clean_up-Gives :
      (s : DevState CustomPod srv) (owner : DevDbOwner)
      → Gives s
          (clean_up_commands
            (prewarm_enabled CustomPod srv owner)
            (srv.get_deployment (name_dev_db owner.owner_name))
            (srv.list_pods
              (name_dev_db owner.owner_name).namespace
              ((label_instance, (name_dev_db owner.owner_name).name) ∷ [])))
          (clean_up CustomPod srv owner s)
  unfolding clean_up scale_down delete_listed
  clean_up-Gives s owner = elim (Bool-cases (prewarm_enabled CustomPod srv owner)) [
    | inl e ↦
        rw e
          (elim (Result-cases (
            srv.list_pods (name_dev_db owner.owner_name).namespace
              ((label_instance, (name_dev_db owner.owner_name).name) ∷ []))) [
                | inl (x, i) ↦ rw i (refl, refl)
                | inr (pods, i) ↦ rw i (delete_all-Gives pods s)
              ])
    | inr e ↦ rw e (elim (Result-cases (srv.get_deployment (name_dev_db owner.owner_name))) [
      | inl (x, i) ↦ rw i (elim (Bool-cases (is_not_found x)) [
        | inl j ↦ rw j (refl, refl)
        | inr j ↦ rw j (refl, refl)
      ])
      | inr (d, i) ↦ rw i (refl, refl)
    ])
  ]
