-- ===== src/DevDb/CleanUp.antt =====
-- cleanUp of dev databases (internal/controller/devdb.go): a database is scaled down, or its pods are
-- deleted where it is kept warm. An error is only an event.
use atlas_operator.Prelude.{String, List, [], ◌∷◌, ◌++◌, some, concat, if◌then◌else◌, not}
use atlas_operator.Errors.{Result, ok, err, GoError, is_not_found, error_text}
use atlas_operator.Recorder.{RecordedEvent, event, warning_event}
use atlas_operator.Actions.{returns, return}
use atlas_operator.DevDb.{
  DevDbServices, DevDbOwner, DevStep, DevDbCommand, Deployment, Pod, update_command, delete_command,
  prewarm_enabled, name_dev_db, label_instance, reason_clean_up_dev_db,
}

-- The event of an error.
abbrev pub clean_up_warning : String → GoError → RecordedEvent
clean_up_warning text e =
    event warning_event reason_clean_up_dev_db (concat (text ∷ error_text e ∷ []))

abbrev pub warnings : {A : Type 0} → String → Result A → List RecordedEvent
warnings text (ok a) = []
warnings text (err e) = clean_up_warning text e ∷ []

module _ (CustomPod : Type 0) (srv : DevDbServices CustomPod) where
  -- A command whose error is an event.
  abbrev pub attempt :
      DevDbCommand CustomPod → Result (Unit {0}) → String → DevStep CustomPod srv (Unit {0})
  attempt c r text s =
      (record s { commands = c ∷ s.commands; events = s.events ++ warnings text r }, returns tt)

  abbrev pub warn : String → GoError → DevStep CustomPod srv (Unit {0})
  warn text e s = (record s { events = s.events ++ (clean_up_warning text e ∷ []) }, returns tt)

  unfoldable pub scale_down : Result (Deployment CustomPod) → DevStep CustomPod srv (Unit {0})
  unfolding is_not_found
  scale_down (err e) =
      if is_not_found e then return tt else warn "Error getting devDB deployment: " e
  scale_down (ok deploy) =
      let down : Deployment CustomPod = record deploy { replicas = some 0 } in
      attempt (update_command down) (srv.update_deployment down)
        "Error scaling down devDB deployment: "

  unfoldable pub delete_all : List Pod → DevStep CustomPod srv (Unit {0})
  delete_all [] s = (s, returns tt)
  delete_all (p ∷ pods) s = delete_all pods (
      (attempt (delete_command p) (srv.delete_pod p)
        (concat ("Error deleting devDB pod " ∷ p.pod_name ∷ ": " ∷ [])) s).0)

  unfoldable pub delete_listed : Result (List Pod) → DevStep CustomPod srv (Unit {0})
  unfolding delete_all
  delete_listed (err e) = warn "Error listing devDB pods: " e
  delete_listed (ok pods) = delete_all pods

  -- cleanUp
  unfoldable pub clean_up : DevDbOwner → DevStep CustomPod srv (Unit {0})
  unfolding prewarm_enabled name_dev_db scale_down delete_listed
  clean_up owner =
      if not (prewarm_enabled CustomPod srv owner)
      then scale_down (srv.get_deployment (name_dev_db owner.owner_name))
      else delete_listed (
          srv.list_pods (name_dev_db owner.owner_name).namespace
            ((label_instance, (name_dev_db owner.owner_name).name) ∷ []))
