-- ===== src/MigrationRun/Deployments.antt =====
-- What a reconciliation of a migration does to the target database, and what it shows
-- (internal/controller/atlasmigration_controller.go).
use atlas_operator.Prelude.{◌≡◌, Bool, true, false, ◌&&◌, List, [], if◌then◌else◌}
use atlas_operator.Conditions.{ConditionApi}
use atlas_operator.Errors.{Result, ok, err}
use atlas_operator.MigrationStatus.{AtlasMigration, is_ready, is_hash_modified, set_reconciling}
use atlas_operator.MigrationData.{Packages, MigrationData, extract_migration_data}
use atlas_operator.MigrationRun.{
  MigrationServices, MigrationResource, RunState, Flow, returns, fails, panics, resume, catch, lift,
  Command, Halt, halt_reading, run, run_with, reconcile, settle, start, extract_data, accept_data,
}
use atlas_operator.MigrationRun.Protocol.{Stage, Reached, fresh, nothing_yet}
use atlas_operator.Actions.Triples.{Ends}
use atlas_operator.MigrationRun.Refines.{Kept}
use atlas_operator.MigrationRun.Order.{ClientOf, settle-commands, run_with-In, Some}

-- The commands follow the protocol of the data and of the client that is made for them, and there are
-- none where the data cannot be read.
abbrev pub Follows :
    (pkg : Packages) (srv : MigrationServices pkg)
    → MigrationResource pkg srv
    → Result (MigrationData pkg)
    → List Command
    → Type 0
Follows pkg srv res (err e) cs = cs ≡ []
Follows pkg srv res (ok d) cs = (g : Stage) × Reached pkg d (ClientOf pkg srv res d) cs g

module _ (api : ConditionApi) (pkg : Packages) (srv : MigrationServices pkg) where
  -- What the controller reads for a resource.
  abbrev pub data_of : MigrationResource pkg srv → Result (MigrationData pkg)
  data_of res =
      extract_migration_data pkg srv.reader res.stored.namespace res.stored.name res.spec
        srv.allow_custom_config

  -- The steps with the data.
  abbrev accepted :
      MigrationResource pkg srv → MigrationData pkg → Bool → RunState × Flow Halt (Unit {0})
  accepted res d modified =
      resume (run_with api pkg srv res)
        (catch halt_reading (accept_data api pkg srv d modified) (start api pkg srv res))

  abbrev pub begun :
      MigrationResource pkg srv → Result (MigrationData pkg) → RunState × Flow Halt (Unit {0})
  begun res r = resume (run_with api pkg srv res) (
      catch halt_reading
        (λ s.
          resume
            (λ d.
              accept_data api pkg srv d
                (is_ready api res.stored && is_hash_modified res.stored d.observed_hash))
            (lift r s))
        (start api pkg srv res))

  module _ (res : MigrationResource pkg srv) (d : MigrationData pkg)
      (P : List Command → AtlasMigration → Type 0)
      (kept : Kept api pkg d (ClientOf pkg srv res d) P) where
    ended :
        (x : RunState × Flow Halt (Unit {0}))
        → Ends
            (λ u. Some api pkg srv d (ClientOf pkg srv res d) P kept)
            (Some api pkg srv d (ClientOf pkg srv res d) P kept)
            x
        → Some api pkg srv d (ClientOf pkg srv res d) P kept (x.0)
    ended (s, returns u) h = h
    ended (s, fails e) h = h
    ended (s, panics) h = h

    -- Behind the steps with the data, the commands follow the protocol and the predicate holds.
    pub accepted-Some :
        (modified : Bool)
        → P [] (
            if modified
            then set_reconciling api res.stored "Current migration data has changed"
            else res.stored)
        → Some api pkg srv d (ClientOf pkg srv res d) P kept (accepted res d modified).0
    unfolding accept_data
    accepted-Some true k = ((fresh, nothing_yet), k)
    accepted-Some false k = ended (run_with api pkg srv res d (start api pkg srv res)) (
        run_with-In api pkg srv d (ClientOf pkg srv res d) P kept res (start api pkg srv res)
          (λ cli h. h) (nothing_yet, k))

  abbrev kept_unit :
      (res : MigrationResource pkg srv) (d : MigrationData pkg)
      → Kept api pkg d (ClientOf pkg srv res d) (λ cs m. Unit)
  kept_unit res d = record {
    keep_more = λ c cs m h. tt;
    keep_url = λ cs m url u. tt;
    made_ready = λ cs m own approval version deployment t e h. tt;
  }

  begun-Follows :
      (res : MigrationResource pkg srv) (r : Result (MigrationData pkg))
      → Follows pkg srv res r (settle api (begun res r)).0.commands
  begun-Follows res (err e) = settle-commands api (begun res (err e))
  begun-Follows res (ok d) =
      rw (settle-commands api (begun res (ok d)))
        (accepted-Some res d (λ cs m. Unit) (kept_unit res d)
          (is_ready api res.stored && is_hash_modified res.stored d.observed_hash) tt).0

  -- The commands of a reconciliation follow the protocol of the migration data that it reads, with
  -- the status that the client made for these data answers, and where it cannot read them there are
  -- none.
  pub reconcile-Follows :
      (res : MigrationResource pkg srv)
      → Follows pkg srv res (data_of res) (reconcile api pkg srv res).0.commands
  unfolding reconcile run extract_data
  reconcile-Follows res = begun-Follows res (data_of res)
