-- ===== src/MigrationRun/Readiness.antt =====
-- What a reconciliation of a migration shows (internal/controller/atlasmigration_controller.go).
use atlas_operator.Prelude.{
  ◌≡◌, ◌≤◌, ◌⊎◌, List, ◌∷◌, sym, inl, inr, Bool, true, false, ◌&&◌, String, [], Bool-cases, arith,
  eq_iff, if◌then◌else◌,
}
use atlas_operator.Conditions.{ConditionApi}
use atlas_operator.Errors.{Result, ok, error_text}
use atlas_operator.MigrationStatus.{
  AtlasMigration, is_ready, is_hash_modified, set_reconciling, set_not_ready, set_ready,
  is_exceed_backoff_limit,
}
use atlas_operator.MigrationStatus.Machine.{is_reconciling-apply_calls, reconciling, not_ready}
use atlas_operator.MigrationData.{Packages, MigrationData}
use atlas_operator.MigrationRun.{
  MigrationServices, MigrationResource, Command, migrate_down_command, migrate_apply_command,
  RunState, Flow, returns, fails, panics, Halt, halt_requeue, halt_err, halt_pending, run,
  reconcile, settle, extract_data, result_err, result_pending, retry_or_stop, failed_state,
  transient, reason_of,
}
use atlas_operator.MigrationRun.Protocol.{CarriedOut, deployments}
use atlas_operator.MigrationRun.Order.{ClientOf, settle-commands}
use atlas_operator.MigrationRun.Refines.{Kept}
use atlas_operator.MigrationRun.Deployments.{accepted-Some, begun, data_of}

module _ (api : ConditionApi) where
  set_not_ready-is_ready :
      (m : AtlasMigration) (reason message : String)
      → is_ready api (set_not_ready api m reason message) ≡ false
  set_not_ready-is_ready m reason message =
      (is_reconciling-apply_calls api m (not_ready reason message) []).0

  set_reconciling-is_ready :
      (m : AtlasMigration) (message : String) → is_ready api (set_reconciling api m message) ≡ false
  set_reconciling-is_ready m message = (is_reconciling-apply_calls api m (reconciling message) []).0

  -- A predicate that SetNotReady establishes holds behind the end of a run, if it holds before.
  settle-kept :
      (P : AtlasMigration → Type 0)
      → ((m : AtlasMigration) (reason message : String) → P (set_not_ready api m reason message))
      → (x : RunState × Flow Halt (Unit {0})) → P (x.0.resource)
      → P ((settle api x).0.resource)
  unfolding settle result_err result_pending retry_or_stop
  settle-kept P f (s, returns u) h = h
  settle-kept P f (s, panics) h = h
  settle-kept P f (s, fails halt_requeue) h = h
  settle-kept P f (s, fails (halt_pending reason message)) h = f s.resource reason message
  settle-kept P f (s, fails (halt_err e reason)) h =
      stopped (is_exceed_backoff_limit (failed_state api s e reason).resource)
    where
      stopped :
          (b : Bool)
          → P ((retry_or_stop api (transient e) b (failed_state api s e reason)).0.resource)
      stopped true = f s.resource (reason_of e reason) (error_text (transient e))
      stopped false = f s.resource (reason_of e reason) (error_text (transient e))

  module _ (pkg : Packages) (srv : MigrationServices pkg) (res : MigrationResource pkg srv)
      (d : MigrationData pkg) where
    -- The resource was shown as ready with this hash, or the data are carried out.
    abbrev pub IsDone : List Command → Type 0
    IsDone cs =
        ((is_ready api res.stored ≡ true) × (res.stored.status.observed_hash ≡ d.observed_hash))
        ⊎ CarriedOut pkg d (ClientOf pkg srv res d) cs

    -- Where the resource is shown as ready, its hash is that of the data, and they are done.
    abbrev Current : List Command → AtlasMigration → Type 0
    Current cs m = is_ready api m ≡ true → (m.status.observed_hash ≡ d.observed_hash) × IsDone cs

    unready-Current :
        (cs : List Command) (m : AtlasMigration) → is_ready api m ≡ false → Current cs m
    unready-Current cs m e t = absurd (ground (arith, e, t))

    deployments-more : (c : Command) (cs : List Command) → deployments cs ≤ deployments (c ∷ cs)
    deployments-more (migrate_down_command p) cs = omega arith
    deployments-more (migrate_apply_command env) cs = omega arith
    deployments-more _ cs = omega arith

    more-IsDone : (c : Command) (cs : List Command) → IsDone cs → IsDone (c ∷ cs)
    more-IsDone c cs (inl h) = inl h
    more-IsDone c cs (inr (inl h)) = inr (inl h)
    more-IsDone c cs (inr (inr (n, h))) =
        let more = deployments-more c cs in inr (inr (omega (arith, n, more), h))

    kept-Current : Kept api pkg d (ClientOf pkg srv res d) Current
    unfolding is_ready set_ready
    kept-Current = record {
      keep_more = λ c cs m h. λ r. let (e, done) = h r in (e, more-IsDone c cs done);
      keep_url = λ cs m url h. h;
      made_ready = λ cs m own approval version deployment t e done. λ r. (e, inr done);
    }

    -- The resource with which the steps behind extractData begin.
    begins-Current : Current [] (
        if is_ready api res.stored && is_hash_modified res.stored d.observed_hash
        then set_reconciling api res.stored "Current migration data has changed"
        else res.stored)
    unfolding is_hash_modified
    begins-Current =
        elim (Bool-cases (is_ready api res.stored && is_hash_modified res.stored d.observed_hash)) [
          | inl e ↦ rw e (
              unready-Current [] _
                (set_reconciling-is_ready res.stored "Current migration data has changed"))
          | inr e ↦ rw e (λ r.
              let r' : is_ready api res.stored ≡ true = r in
              let same : res.stored.status.observed_hash ≡ d.observed_hash = sym (
                (eq_iff d.observed_hash res.stored.status.observed_hash).0
                  (ground (arith, e, r'))) in
              (same, inl (r', same)))
        ]

    begun-Current :
        (r : Result (MigrationData pkg))
        → r ≡ ok d
        → Current
            (settle api (begun api pkg srv res r)).0.commands
            (settle api (begun api pkg srv res r)).0.resource
    begun-Current r e = rw e (
        rw (settle-commands api (begun api pkg srv res (ok d))) (
          settle-kept (Current (begun api pkg srv res (ok d)).0.commands)
            (λ m reason message.
              unready-Current (begun api pkg srv res (ok d)).0.commands
                (set_not_ready api m reason message) (set_not_ready-is_ready m reason message))
            (begun api pkg srv res (ok d))
            (accepted-Some api pkg srv res d Current kept-Current
              (is_ready api res.stored && is_hash_modified res.stored d.observed_hash)
              begins-Current).1))

    -- A resource that is ready behind a reconciliation shows the hash of the data that it read, and
    -- either it was ready with this hash before, or the data are carried out: the client that was made
    -- for the data answers that there is nothing to do, or one deployment was started at least and the
    -- client reports that the migrations were applied, or that the database was brought back to the
    -- last version of the directory.
    pub reconcile-IsDone :
        data_of api pkg srv res ≡ ok d
        → is_ready api (reconcile api pkg srv res).0.resource ≡ true
        → ((reconcile api pkg srv res).0.resource.status.observed_hash ≡ d.observed_hash)
          × IsDone (reconcile api pkg srv res).0.commands
    unfolding reconcile run extract_data
    reconcile-IsDone e = begun-Current (data_of api pkg srv res) e
