-- ===== src/MigrationRun.antt =====
-- The controller of AtlasMigration (internal/controller/atlasmigration_controller.go). The client of
-- the API server, the Atlas CLI, the working directory and the reconciler of dev databases are
-- parameters. The update of the stored status, whose failure is only logged, stands for its success,
-- and the wiring at start-up is left out.
pub mod Resources
pub mod Actions
pub mod Steps
pub mod Protocol
pub mod Refines
pub mod Changes
pub mod Order
pub mod Deployments
pub mod Safety
pub mod Results
pub mod Panics
pub mod DirState
pub mod Dependents
pub mod Readiness
use atlas_operator.Prelude.{
  ℕ, Bool, true, false, not, ◌&&◌, ◌||◌, String, List, [], ◌∷◌, ◌++◌, Option, none, some, is_empty,
  trim_space, if◌then◌else◌,
}
use atlas_operator.Conditions.{ConditionApi}
use atlas_operator.Reason.{
  reason_reading_migration_data, reason_creating_atlas_client, reason_login, reason_who_am_i,
  reason_migrating, reason_storing_dir_state,
}
use atlas_operator.Recorder.{RecordedEvent, event, warning_event}
use atlas_operator.Errors.{
  Result, ok, err, GoError, transient_error, as_reasoner, as_pending, is_requeue, is_transient,
  is_not_found, error_text, CtrlResult, no_requeue, requeue_now, after, second, retry_duration,
  result, backoff_delay_at,
}
use atlas_operator.Cluster.{KeyRef}
use atlas_operator.NameMap.{Name}
use atlas_operator.Watch.{ResourceWatcher, watch}
use atlas_operator.MigrationStatus.{
  AtlasMigration, set_reconciling, set_not_ready, is_exceed_backoff_limit, is_ready,
}
use atlas_operator.MigrationData.{Packages, MigrationSpec, MigrationData}
unfoldable pub use Resources.*
unfoldable pub use Actions.*
unfoldable pub use Steps.*

-- How a run of reconcile is cut short: a requeue, an error with the reason of its step, or a
-- pending plan with its reason and message.
pub data Halt : Type 0 where
  halt_requeue : Halt
  halt_err : GoError → String → Halt
  halt_pending : String → String → Halt

-- The error of extractData.
abbrev pub halt_reading : GoError → Halt
halt_reading e = if is_requeue e then halt_requeue else halt_err e reason_reading_migration_data

-- The error of applyChanges.
abbrev pub halt_applying : GoError → Halt
halt_applying e = elim (as_pending e) [
  | none ↦ halt_err e reason_migrating
  | some p ↦ halt_pending (p.0) (p.1)
]

abbrev pub halt_with : String → GoError → Halt
halt_with reason e = halt_err e reason

-- The reason of an event for an error, in recordErrEvent.
abbrev pub event_reason_of : GoError → String
event_reason_of e = elim (as_reasoner e) [
  | some r ↦ r
  | none ↦ if is_transient e then "TransientErr" else "Error"
]

-- recordErrEvent
unfoldable pub err_event : GoError → RecordedEvent
err_event e = event warning_event (event_reason_of e) (trim_space (error_text e))

-- The reason that an error overrides, in resultErr.
abbrev pub reason_of : GoError → String → String
reason_of e reason = elim (as_reasoner e) [ none ↦ reason | some r ↦ r ]

-- transient, of an error: nothing is retried but what is marked so.
abbrev pub transient : GoError → GoError
transient e = transient_error e

module _ (api : ConditionApi) where
  -- The end of resultErr, on the resource with its new status.
  unfoldable pub retry_or_stop : GoError → Bool → RunState → RunState × CtrlResult
  retry_or_stop e true s = (
    record s {
      events = s.events ++ event warning_event "BackoffLimitExceeded" "backoff limit exceeded" ∷ [];
    },
    result e 0,
  )
  retry_or_stop e false s = (s, result e (backoff_delay_at s.resource.status.failed))

  -- The failure that resultErr shows, with its event.
  abbrev pub failed_state : RunState → GoError → String → RunState
  failed_state s e reason = record s {
    resource = set_not_ready api s.resource (reason_of e reason) (error_text (transient e));
    events = s.events ++ err_event (transient e) ∷ [];
  }

  -- resultErr
  unfoldable pub result_err : RunState → GoError → String → RunState × CtrlResult
  unfolding retry_or_stop err_event
  result_err s e reason =
      retry_or_stop (transient e) (is_exceed_backoff_limit (failed_state s e reason).resource)
        (failed_state s e reason)

  -- resultPending
  unfoldable pub result_pending : RunState → String → String → RunState × CtrlResult
  result_pending s reason message = (
    record s {
      resource = set_not_ready api s.resource reason message;
      events = s.events ++ event warning_event reason message ∷ [];
    },
    after retry_duration,
  )

  -- What reconcile returns for the end of a run: none where it panics.
  unfoldable pub settle : RunState × Flow Halt (Unit {0}) → RunState × Option CtrlResult
  unfolding result_err result_pending
  settle (s, returns u) = (s, some no_requeue)
  settle (s, fails halt_requeue) = (s, some requeue_now)
  settle (s, fails (halt_err e reason)) = let (s', r) = result_err s e reason in (s', some r)
  settle (s, fails (halt_pending reason message)) =
      let (s', r) = result_pending s reason message in (s', some r)
  settle (s, panics) = (s, none)

-- The two watchers of the controller.
pub record Watchers : Type 0 where
  pub config_maps : ResourceWatcher
  pub secrets : ResourceWatcher

unfoldable pub watch_ref : String → Option String → Name → ResourceWatcher → ResourceWatcher
unfolding watch
watch_ref ns none dependent w = w
watch_ref ns (some ref) dependent w = watch w (record { namespace = ns; name = ref }) dependent

unfoldable pub watch_key : String → Option KeyRef → Name → ResourceWatcher → ResourceWatcher
unfolding watch_ref
watch_key ns none dependent w = w
watch_key ns (some ref) dependent w = watch_ref ns (some ref.ref_name) dependent w

module _ (api : ConditionApi) (pkg : Packages) (srv : MigrationServices pkg) where
  -- The steps of reconcile behind atlasClient.
  unfoldable pub behind_client :
      MigrationResource pkg srv → MigrationData pkg → MigrationCli → Step Halt (Unit {0})
  unfolding log_in who_am_i migrate_status apply_changes store_dir_state
  behind_client res d cli = do
    catch (halt_with reason_login) (log_in api pkg srv cli d.data_cloud)
    catch (halt_with reason_who_am_i) (who_am_i api pkg srv cli d)
    st ← catch (halt_with reason_migrating) (migrate_status api pkg srv cli d)
    catch halt_applying (apply_changes api pkg srv res cli d st)
    catch (halt_with reason_storing_dir_state) (store_dir_state api pkg srv res d)

  -- The steps of reconcile behind extractData.
  unfoldable pub run_with : MigrationResource pkg srv → MigrationData pkg → Step Halt (Unit {0})
  unfolding working_dir atlas_client behind_client
  run_with res d = do
    path ← catch (halt_with reason_reading_migration_data) (working_dir api pkg srv d)
    cli ← catch (halt_with reason_creating_atlas_client) (atlas_client api pkg srv res path d)
    behind_client res d cli

  -- The steps of reconcile.
  unfoldable pub run : MigrationResource pkg srv → Step Halt (Unit {0})
  unfolding extract_data run_with
  run res = do d ← catch halt_reading (extract_data api pkg srv res); run_with res d

  -- A run begins with the resource, without events and commands.
  abbrev pub start : MigrationResource pkg srv → RunState
  start res = record { resource = res.stored; events = []; commands = [] }

  -- reconcile
  unfoldable pub reconcile : MigrationResource pkg srv → RunState × Option CtrlResult
  unfolding run settle
  reconcile res = settle api (run res (start res))

  abbrev pub dependent_name : MigrationResource pkg srv → Name
  dependent_name res = record { namespace = res.stored.namespace; name = res.stored.name }

  -- watchRefs
  unfoldable pub watch_refs : MigrationResource pkg srv → Watchers → Watchers
  unfolding watch_ref watch_key
  watch_refs res w =
      let ns = res.stored.namespace in
      let dependent = dependent_name res in
      let for_token = watch_key ns res.spec.cloud.token_from dependent w.secrets in
      let for_url = watch_key ns res.spec.target.url_from dependent for_token in
      record {
        config_maps = watch_ref ns res.spec.dir.config_map_ref dependent w.config_maps;
        secrets = watch_key ns res.spec.target.credentials.password_from dependent for_url;
      }

  -- What Reconcile leaves: the status to store, the events, the commands, the watchers, and the
  -- result, which is none where it panics.
  pub record MigrationOutcome : Type 0 where
    pub updated : Option AtlasMigration
    pub recorded : List RecordedEvent
    pub issued : List Command
    pub watchers : Watchers
    pub returned : Option (Result CtrlResult)

  -- The deferred function of Reconcile.
  unfoldable pub finish :
      MigrationResource pkg srv → Watchers → RunState × Option CtrlResult → MigrationOutcome
  unfolding watch_refs is_ready
  finish res w (s, r) = record {
    updated = some s.resource;
    recorded = s.events ++ (if is_ready api s.resource then srv.dev_db.clean_up s.resource else []);
    issued = s.commands;
    watchers = watch_refs res w;
    returned = elim r [ none ↦ none | some c ↦ some (ok c) ];
  }

  -- Reconcile of a resource that was read.
  unfoldable pub visit : MigrationResource pkg srv → RunState × Option CtrlResult
  unfolding reconcile set_reconciling
  visit res =
      if is_empty res.stored.status.conditions
      then (
        record (start res) { resource = set_reconciling api res.stored "Reconciling" },
        some requeue_now,
      )
      else reconcile res

  -- Reconcile, by the result of reading the resource.
  unfoldable pub reconcile_request :
      Result (MigrationResource pkg srv) → Watchers → MigrationOutcome
  unfolding visit finish is_not_found
  reconcile_request (ok res) w = finish res w (visit res)
  reconcile_request (err e) w = record {
    updated = none;
    recorded = [];
    issued = [];
    watchers = w;
    returned = some (if is_not_found e then ok no_requeue else err e);
  }
