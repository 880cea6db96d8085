-- ===== src/MigrationRun/Order.antt =====
-- The commands of a whole run of a migration, and what their order rules out
-- (internal/controller/atlasmigration_controller.go).
use atlas_operator.Prelude.{
  List, ◌≡◌, refl, sym, Bool, true, false, String, [], ◌∷◌, Option, none, some, Bool-cases, inl,
  inr, concat,
}
use atlas_operator.Conditions.{ConditionApi}
use atlas_operator.Reason.{
  reason_reading_migration_data, reason_creating_atlas_client, reason_login, reason_who_am_i,
  reason_migrating, reason_storing_dir_state,
}
use atlas_operator.Errors.{Result, ok, err, is_already_exists}
use atlas_operator.Cluster.{put}
use atlas_operator.MigrationStatus.{AtlasMigration, is_exceed_backoff_limit}
use atlas_operator.MigrationData.{Packages, MigrationData}
use atlas_operator.MigrationRun.{
  Command, MigrationServices, MigrationResource, MigrationCli, MigrateStatus, RunState, Flow,
  returns, fails, panics, Step, resume, catch, issue, lift, Halt, halt_with, halt_applying,
  run_with, halt_requeue, halt_err, halt_pending, transient, failed_state, behind_client, settle,
  DirSecret, new_secret_object, working_dir, atlas_client, log_in, who_am_i, migrate_status,
  apply_changes, store_dir_state, store_dir_of, store_dir, created, result_err, result_pending,
  retry_or_stop, make_working_dir, make_client, who_am_i_command, migrate_status_command,
  create_secret_command, update_secret_command,
}
use atlas_operator.MigrationRun.Protocol.{
  Stage, Reached, fresh, opened, connected, identified, known, deployed, saved, replaced, token_of,
  opens, connects, identifies_guest, identifies_user, asks, unanswered, asks_in_vain, saves,
  saves_idle, replaces,
}
use atlas_operator.Actions.Triples.{Ends, resume-Ends, caught-Ends}
use atlas_operator.MigrationRun.Refines.{Kept, issue-At, issue-With, after_login, log_in-At}
use atlas_operator.MigrationRun.Changes.{Applied, apply_changes-At}

-- The end of reconcile gives no commands.
pub settle-commands :
    (api : ConditionApi) (x : RunState × Flow Halt (Unit {0}))
    → (settle api x).0.commands ≡ x.0.commands
unfolding settle result_err result_pending retry_or_stop
settle-commands api (s, returns u) = refl
settle-commands api (s, panics) = refl
settle-commands api (s, fails halt_requeue) = refl
settle-commands api (s, fails (halt_pending reason message)) = refl
settle-commands api (s, fails (halt_err e reason)) =
    stopped (is_exceed_backoff_limit (failed_state api s e reason).resource)
  where
    stopped :
        (b : Bool)
        → (retry_or_stop api (transient e) b (failed_state api s e reason)).0.commands ≡ s.commands
    stopped true = refl
    stopped false = refl

-- The client that a run makes for its data, in the working directory that it made for them.
abbrev pub ClientOf :
    (pkg : Packages) (srv : MigrationServices pkg)
    → MigrationResource pkg srv
    → MigrationData pkg
    → MigrationCli
    → Type 0
ClientOf pkg srv res d cli =
    (path : String) × (srv.new_working_dir d ≡ ok path)
    × (srv.atlas_client path d.data_cloud
          (concat (res.stored.namespace ∷ "/" ∷ res.stored.name ∷ []))
        ≡ ok cli)

module _ (api : ConditionApi) (pkg : Packages) (srv : MigrationServices pkg) (d : MigrationData pkg)
    (client : MigrationCli → Type 0) (P : List Command → AtlasMigration → Type 0)
    (kept : Kept api pkg d client P) where
  abbrev pub In : Stage → RunState → Type 0
  In g s = Reached pkg d client s.commands g × P s.commands s.resource

  abbrev pub Some : RunState → Type 0
  Some s = ((g : Stage) × Reached pkg d client s.commands g) × P s.commands s.resource

  created-In :
      (secret : DirSecret) (r : Result (Unit {0})) (s : RunState)
      → In saved s
      → Ends (λ u. Some) Some (created api pkg srv secret r s)
  unfolding created
  created-In secret (ok u) s h = ((saved, h.0), h.1)
  created-In secret (err e) s h = elim (Bool-cases (is_already_exists e)) [
    | inl there ↦ rw there (either (srv.update_secret secret))
    | inr other ↦ rw other ((saved, h.0), h.1)
  ]
    where
      either :
          (r : Result (Unit {0})) → Ends (λ u. Some) Some (issue (update_secret_command secret) r s)
      either (ok u) = (
        (replaced, replaces secret (h.0)),
        kept.keep_more (update_secret_command secret) s.commands s.resource (h.1),
      )
      either (err e) = (
        (replaced, replaces secret (h.0)),
        kept.keep_more (update_secret_command secret) s.commands s.resource (h.1),
      )

  -- A Secret may be created where there is nothing to do or after a deployment.
  saves_after :
      (st : MigrateStatus) (secret : DirSecret) (s : RunState)
      → Applied api pkg srv d client P kept st s
      → Reached pkg d client (create_secret_command secret ∷ s.commands) saved
        × P (create_secret_command secret ∷ s.commands) s.resource
  saves_after st secret s (inl ((h, k), idle)) = (
    saves_idle secret idle h,
    kept.keep_more (create_secret_command secret) s.commands s.resource k,
  )
  saves_after st secret s (inr (h, k)) =
      (saves secret h, kept.keep_more (create_secret_command secret) s.commands s.resource k)

  known_or_deployed :
      (st : MigrateStatus) (s : RunState) → Applied api pkg srv d client P kept st s → Some s
  known_or_deployed st s (inl ((h, k), idle)) = ((known st, h), k)
  known_or_deployed st s (inr (h, k)) = ((deployed, h), k)

  abbrev secret_of : MigrationResource pkg srv → String → DirSecret
  secret_of res tarball =
      new_secret_object res.stored tarball (put res.resource_labels "name" res.stored.name)

  store_dir_of-In :
      (res : MigrationResource pkg srv) (dir : Option pkg.Dir) (s : RunState) (st : MigrateStatus)
      → Applied api pkg srv d client P kept st s
      → Ends (λ u. Some) Some (store_dir_of api pkg srv res dir s)
  unfolding store_dir_of store_dir
  store_dir_of-In res none s st h = known_or_deployed st s h
  store_dir_of-In res (some dir) s st h = archived (srv.archive_dir dir)
    where
      archived :
          (r : Result String)
          → Ends
              (λ u. Some)
              Some
              (resume
                (λ tarball s'.
                  resume
                    (λ (r : Result (Unit {0})). created api pkg srv (secret_of res tarball) r)
                    (issue
                      (create_secret_command (secret_of res tarball))
                      (ok (srv.create_secret (secret_of res tarball)))
                      s'))
                (lift r s))
      archived (err e) = known_or_deployed st s h
      archived (ok tarball) =
          created-In (secret_of res tarball) (srv.create_secret (secret_of res tarball)) _
            (saves_after st (secret_of res tarball) s h)

  stored-In :
      (res : MigrationResource pkg srv) (s : RunState) (st : MigrateStatus)
      → Applied api pkg srv d client P kept st s
      → Ends
          (λ u. Some)
          Some
          (catch (halt_with reason_storing_dir_state) (store_dir_state api pkg srv res d) s)
  unfolding store_dir_state
  stored-In res s st h =
      caught-Ends (λ u. Some) Some (halt_with reason_storing_dir_state)
        (store_dir_of api pkg srv res d.data_dir s) (store_dir_of-In res d.data_dir s st h)

  -- The steps behind `migrate status`.
  applied-In :
      (res : MigrationResource pkg srv) (cli : MigrationCli) (s : RunState) (st : MigrateStatus)
      → client cli
      → In (known st) s
      → Ends
          (λ u. Some)
          Some
          (resume
            (λ u. catch (halt_with reason_storing_dir_state) (store_dir_state api pkg srv res d))
            (catch halt_applying (apply_changes api pkg srv res cli d st) s))
  applied-In res cli s st ours h =
      resume-Ends (λ u. Applied api pkg srv d client P kept st) (λ u. Some) Some
        (λ u. catch (halt_with reason_storing_dir_state) (store_dir_state api pkg srv res d))
        (catch halt_applying (apply_changes api pkg srv res cli d st) s)
        (caught-Ends (λ u. Applied api pkg srv d client P kept st) Some halt_applying
          (apply_changes api pkg srv res cli d st s)
          (apply_changes-At api pkg srv d client P kept res cli s st ours h))
        (λ u s' h'. stored-In res s' st h')

  identified-In :
      (cli : MigrationCli) (s : RunState) (token : Option String)
      → token ≡ token_of d.data_cloud
      → In (after_login api pkg srv d client P kept token) s
      → Ends
          (λ u. In identified)
          Some
          (catch (halt_with reason_who_am_i) (who_am_i api pkg srv cli d) s)
  unfolding who_am_i
  identified-In cli s none e h =
      caught-Ends (λ u. In identified) Some (halt_with reason_who_am_i)
        (who_am_i api pkg srv cli d s)
        (issue-At api pkg srv d client P kept who_am_i_command _ s identified
          (identifies_guest (sym e) (h.0)) (h.1))
  identified-In cli s (some token) e h =
      caught-Ends (λ u. In identified) Some (halt_with reason_who_am_i)
        (who_am_i api pkg srv cli d s)
        (issue-At api pkg srv d client P kept who_am_i_command _ s identified
          (identifies_user (h.0)) (h.1))

  status-In :
      (cli : MigrationCli) (s : RunState)
      → client cli
      → In identified s
      → Ends
          (λ st. In (known st))
          Some
          (catch (halt_with reason_migrating) (migrate_status api pkg srv cli d) s)
  unfolding migrate_status
  status-In cli s ours h = asked (cli.migrate_status d.env_name d.data_vars) refl
    where
      k : P (migrate_status_command ∷ s.commands) s.resource
      k = kept.keep_more migrate_status_command s.commands s.resource (h.1)

      asked :
          (r : Result MigrateStatus)
          → cli.migrate_status d.env_name d.data_vars ≡ r
          → Ends
              (λ st. In (known st))
              Some
              (catch (halt_with reason_migrating) (issue migrate_status_command r) s)
      asked (ok st) e = (asks st (cli, ours, e) (h.0), k)
      asked (err x) e = ((unanswered, asks_in_vain (h.0)), k)

  -- The steps behind `login`.
  connected-In :
      (res : MigrationResource pkg srv) (cli : MigrationCli) (s : RunState)
      → client cli
      → In connected s
      → Ends (λ u. Some) Some (behind_client api pkg srv res d cli s)
  unfolding behind_client migrate_status
  connected-In res cli s ours h =
      let storing : Unit {0} → Step Halt (Unit {0}) =
        λ u. catch (halt_with reason_storing_dir_state) (store_dir_state api pkg srv res d) in
      let applying : MigrateStatus → Step Halt (Unit {0}) =
        λ st s'. resume storing (catch halt_applying (apply_changes api pkg srv res cli d st) s') in
      let asking : Step Halt MigrateStatus =
        catch (halt_with reason_migrating) (migrate_status api pkg srv cli d) in
      let user : Step Halt (Unit {0}) =
        catch (halt_with reason_who_am_i) (who_am_i api pkg srv cli d) in
      resume-Ends (λ u. In (after_login api pkg srv d client P kept (token_of d.data_cloud)))
        (λ u. Some) Some
        (λ (u : Unit {0}) s'. resume (λ (v : Unit {0}) s''. resume applying (asking s'')) (user s'))
        (catch (halt_with reason_login) (log_in api pkg srv cli d.data_cloud) s)
        (caught-Ends (λ u. In (after_login api pkg srv d client P kept (token_of d.data_cloud)))
          Some (halt_with reason_login) (log_in api pkg srv cli d.data_cloud s)
          (log_in-At api pkg srv d client P kept cli s h))
        (λ u s' h'.
          resume-Ends (λ v. In identified) (λ v. Some) Some
            (λ (v : Unit {0}) s''. resume applying (asking s'')) (user s')
            (identified-In cli s' (token_of d.data_cloud) refl h')
            (λ v s'' h''.
              resume-Ends (λ st. In (known st)) (λ v. Some) Some applying (asking s'')
                (status-In cli s'' ours h'') (λ st s₃ h₃. applied-In res cli s₃ st ours h₃)))

  pub run_with-In :
      (res : MigrationResource pkg srv) (s : RunState)
      → ((cli : MigrationCli) → ClientOf pkg srv res d cli → client cli)
      → In fresh s
      → Ends (λ u. Some) Some (run_with api pkg srv res d s)
  unfolding run_with working_dir atlas_client
  run_with-In res s ours h =
      let name : String = concat (res.stored.namespace ∷ "/" ∷ res.stored.name ∷ []) in
      let dir : Step Halt String =
        catch (halt_with reason_reading_migration_data) (working_dir api pkg srv d) in
      let made : String → Step Halt MigrationCli = λ path.
        catch (halt_with reason_creating_atlas_client) (atlas_client api pkg srv res path d) in
      resume-Ends (λ path s'. In opened s' × (srv.new_working_dir d ≡ ok path)) (λ u. Some) Some
        (λ path s'. resume (behind_client api pkg srv res d) (made path s')) (dir s)
        (caught-Ends (λ path s'. In opened s' × (srv.new_working_dir d ≡ ok path)) Some
          (halt_with reason_reading_migration_data) (working_dir api pkg srv d s)
          (issue-With api pkg srv d client P kept make_working_dir (srv.new_working_dir d) s opened
            (opens (h.0)) (h.1)))
        (λ path s' (h', e).
          resume-Ends
            (λ cli s''. In connected s'' × (srv.atlas_client path d.data_cloud name ≡ ok cli))
            (λ u. Some) Some (behind_client api pkg srv res d) (made path s')
            (caught-Ends
              (λ cli s''. In connected s'' × (srv.atlas_client path d.data_cloud name ≡ ok cli))
              Some (halt_with reason_creating_atlas_client) (atlas_client api pkg srv res path d s')
              (issue-With api pkg srv d client P kept make_client
                (srv.atlas_client path d.data_cloud name) s' connected (connects (h'.0)) (h'.1)))
            (λ cli s'' (h'', i). connected-In res cli s'' (ours cli (path, e, i)) h''))
