-- ===== src/DevDb/Interface.antt =====
-- The reconciler of dev databases (internal/controller/devdb.go) as the interface that the runs of
-- schemas and migrations call. A run of devURL is from a fresh state, and gives its events.
use atlas_operator.Prelude.{◌≡◌, ap, String, List, [], Option}
use atlas_operator.Errors.{Result, ok, err, GoError}
use atlas_operator.Recorder.{RecordedEvent}
use atlas_operator.Hcl.{is_some}
use atlas_operator.Target.{Url}
use atlas_operator.Actions.{Flow, returns, fails, panics}
use atlas_operator.MigrationRun.{DevDbApi}
use atlas_operator.DevDb.{DevDbServices, DevDbOwner, DevDbSpec, DevState, dev_url}
use atlas_operator.DevDb.CleanUp.{clean_up}
use atlas_operator.DevDb.Outcomes.{DevUrlOutcome, dev_url-Outcome}

module _ (CustomPod : Type 0) (srv : DevDbServices CustomPod) where
  abbrev fresh : DevState CustomPod srv
  fresh = record { resource = tt; events = []; commands = [] }

  -- The events and the result of a run, which does not panic.
  shown :
      (x : DevState CustomPod srv × Flow GoError String)
      → DevUrlOutcome CustomPod srv fresh x
      → List RecordedEvent × Result String
  shown (s, returns url) h = (s.events, ok url)
  shown (s, fails e) h = (s.events, err e)
  shown (s, panics) h = absurd h

  unfoldable pub dev_db_api : {Owner : Type 0} → (Owner → DevDbOwner) → DevDbApi Owner
  unfolding shown
  dev_db_api owner_of = record {
    DevDbConfig = DevDbSpec CustomPod;
    has_pod_spec = λ c. is_some c.pod_spec;
    dev_url = λ o target config url.
        let owner = (owner_of o).owner_name in
        shown (dev_url CustomPod srv owner target config url fresh)
          (dev_url-Outcome CustomPod srv fresh owner target config url);
    clean_up = λ o. (clean_up CustomPod srv (owner_of o) fresh).0.events;
  }

  shown-quiet :
      (x : DevState CustomPod srv × Flow GoError String) (h : DevUrlOutcome CustomPod srv fresh x)
      (url : String)
      → (shown x h).1 ≡ ok url
      → (shown x h).0 ≡ []
  unfolding shown
  shown-quiet (s, returns u) h url e = ap (λ t. t.events) h
  shown-quiet (s, fails x) h url e = cc
  shown-quiet (s, panics) h url e = absurd h

  -- A URL of the interface comes without an event.
  dev_db_api-quiet :
      {Owner : Type 0} (owner_of : Owner → DevDbOwner) (o : Owner) (target : Url)
      (config : Option (dev_db_api owner_of).DevDbConfig) (url given : String)
      → ((dev_db_api owner_of).dev_url o target config given).1 ≡ ok url
      → ((dev_db_api owner_of).dev_url o target config given).0 ≡ []
  unfolding dev_db_api
  dev_db_api-quiet owner_of o target config url given h = shown-quiet _ _ url h
