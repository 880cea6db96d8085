-- ===== src/MigrationRun/Changes.antt =====
-- The commands of applyChanges come in the order of the protocol
-- (internal/controller/atlasmigration_controller.go).
use atlas_operator.Prelude.{
  ap, eq_iff, trim_space, ◌⊎◌, ◌≡◌, refl, ◌∙◌, sym, Bool, true, false, String, List, [], ◌∷◌,
  Option, none, some, Bool-cases, inl, inr, is_empty, str_eq, concat,
}
use atlas_operator.Conditions.{ConditionApi}
use atlas_operator.Errors.{Result, ok, err, GoError, map_err, reasoned_error}
use atlas_operator.MigrationStatus.{AtlasMigration}
use atlas_operator.MigrationData.{
  Packages, MigrationData, Cloud, Remote, guard, protected_flow_error,
}
use atlas_operator.MigrationRun.{
  MigrationServices, MigrationResource, MigrationCli, MigrateStatus, DownParams, DownRun, RunState,
  returns, resume, issue, lift, Command, state_pending, state_aborted, state_applied,
  state_approved, as_drift_error, downgrade_to, or_panic, or_zero, prepare_dev_db, migrate_down,
  down_dir, settle_down, migrate_apply, settle_apply, no_pending_changes, apply_changes, is_ahead,
  last, ApplyReport, copy_command, migrate_down_command, migrate_apply_command,
}
use atlas_operator.MigrationRun.Protocol.{
  Stage, Reached, known, prepared, copied, deployed, has_work, copies, downgrades,
  downgrades_copied, applies, Answers, CarriedOut,
}
use atlas_operator.Actions.Triples.{Ends, resume-Ends}
use atlas_operator.MigrationRun.Refines
use atlas_operator.MigrationRun.Refines.{
  Kept, known-Answers, deployed-deployments, issue-At, issue-With, Ends-weaken, prepare_dev_db-At,
}

map_err-ok :
    {A : Type 0} (f : GoError → GoError) (r : Result A) (a : A) → map_err f r ≡ ok a → r ≡ ok a
map_err-ok f (ok b) a h = h
map_err-ok f (err e) a h = cc

module _ (api : ConditionApi) (pkg : Packages) (srv : MigrationServices pkg) (d : MigrationData pkg)
    (client : MigrationCli → Type 0) (P : List Command → AtlasMigration → Type 0)
    (kept : Kept api pkg d client P) where
  -- The predicates on stages and data, for this section.
  abbrev At : Stage → RunState → Type 0
  At = Refines.At api pkg srv d client P kept

  abbrev Somewhere : RunState → Type 0
  Somewhere = Refines.Somewhere api pkg srv d client P kept

  abbrev SameFlow : MigrationData pkg → Type 0
  SameFlow = Refines.SameFlow api pkg srv d client P kept

  abbrev Keeps : Stage → MigrationData pkg → RunState → Type 0
  Keeps = Refines.Keeps api pkg srv d client P kept

  settle_down-At :
      (d' : MigrationData pkg) (run : DownRun) (s : RunState)
      → d'.observed_hash ≡ d.observed_hash
      → ((run.run_status ≡ state_applied) ⊎ (run.run_status ≡ state_approved)
          → CarriedOut pkg d client s.commands)
      → At deployed s
      → Ends (λ u. At deployed) Somewhere (settle_down api pkg srv d' run s)
  unfolding settle_down
  settle_down-At d' run s same done h = elim (Bool-cases (str_eq run.run_status state_pending)) [
    | inl p ↦ rw p ((_, h.0), kept.keep_url s.commands s.resource run.run_url h.1)
    | inr p ↦ elim (Bool-cases (str_eq run.run_status state_aborted)) [
      | inl a ↦ rw (p, a) ((_, h.0), kept.keep_url s.commands s.resource run.run_url h.1)
      | inr a ↦ elim (Bool-cases (str_eq run.run_status state_applied)) [
        | inl e ↦
            rw (p, a, e)
              (
                h.0,
                kept.made_ready s.commands s.resource d'.observed_hash run.run_url run.run_target
                    run.run_url run.run_start same
                    (done (inl ((eq_iff run.run_status state_applied).0 e))),
              )
        | inr e ↦ elim (Bool-cases (str_eq run.run_status state_approved)) [
          | inl v ↦
              rw (p, a, e, v)
                (
                  h.0,
                  kept.made_ready s.commands s.resource d'.observed_hash run.run_url run.run_target
                      run.run_url run.run_start same
                      (done (inr ((eq_iff run.run_status state_approved).0 v))),
                )
          | inr v ↦ rw (p, a, e, v) h
        ]
      ]
    ]
  ]

  settle_apply-At :
      (d' : MigrationData pkg) (msg : String) (reports : List ApplyReport) (s : RunState)
      → d'.observed_hash ≡ d.observed_hash
      → ((rep : ApplyReport) → reports ≡ rep ∷ [] → CarriedOut pkg d client s.commands)
      → At deployed s
      → Ends (λ u. At deployed) Somewhere (settle_apply api pkg srv d' msg reports s)
  unfolding settle_apply
  settle_apply-At d' msg [] s same done h = ((_, h.0), h.1)
  settle_apply-At d' msg (rep ∷ []) s same done h = (
    h.0,
    kept.made_ready s.commands s.resource d'.observed_hash "" rep.report_target "" rep.report_end
        same (done rep refl),
  )
  settle_apply-At d' msg (rep ∷ rep' ∷ reps) s same done h = ((_, h.0), h.1)

  -- What `migrate apply` answers for the data behind devDB is what it answers for the data.
  applied_report :
      (cli : MigrationCli) (d' : MigrationData pkg) (reports : List ApplyReport) (rep : ApplyReport)
      → SameFlow d'
      → map_err as_drift_error (cli.migrate_apply_slice d'.env_name d'.data_vars).reports
        ≡ ok reports
      → reports ≡ rep ∷ []
      → (cli.migrate_apply_slice d.env_name d.data_vars).reports ≡ ok (rep ∷ [])
  applied_report cli d' reports rep same answered one =
      ap (λ env. (cli.migrate_apply_slice env d.data_vars).reports) (sym (same.1.1.0))
      ∙ ap (λ vars. (cli.migrate_apply_slice d'.env_name vars).reports) (sym (same.1.1.1))
      ∙ map_err-ok as_drift_error _ reports answered
      ∙ ap ok one

  pub migrate_apply-At :
      (cli : MigrationCli) (d' : MigrationData pkg) (s : RunState) (st : MigrateStatus)
      → client cli
      → is_empty st.pending ≡ false
      → SameFlow d'
      → At (prepared st) s
      → Ends (λ u. At deployed) Somewhere (migrate_apply api pkg srv cli d' s)
  unfolding migrate_apply
  migrate_apply-At cli d' s st ours e same h =
      let run = cli.migrate_apply_slice d'.env_name d'.data_vars in
      let r : Result (List ApplyReport) = map_err as_drift_error run.reports in
      resume-Ends (λ reps s'. At deployed s' × (r ≡ ok reps)) (λ u. At deployed) Somewhere
        (settle_apply api pkg srv d' (trim_space run.stderr))
        (issue (migrate_apply_command d'.env_name) r s)
        (issue-With api pkg srv d client P kept (migrate_apply_command d'.env_name) r s deployed
          (applies d'.env_name (same.1.1.0) e (h.0)) (h.1))
        (λ reps s' (h', q).
          settle_apply-At d' (trim_space run.stderr) reps s' (same.1.0)
            (λ rep one. inr (
              deployed-deployments (h'.0),
              (cli, ours, inl (rep, applied_report cli d' reps rep same q one)),
            ))
            h')

  -- Where the directory of a downgrade has been found.
  abbrev Found : MigrateStatus → RunState → Type 0
  Found st s =
      ((p : DownParams)
        → p.down_env ≡ d.env_name
        → last st.available ≡ some p.to_version
        → Reached pkg d client (migrate_down_command p ∷ s.commands) deployed)
      × P s.commands s.resource

  copied-At :
      (l : pkg.Dir) (dir : String) (s : RunState) (st : MigrateStatus)
      → is_ahead st ≡ true
      → d.data_migrate_down ≡ true
      → At (prepared st) s
      → Ends
          (λ dir. Found st)
          Somewhere
          (resume
            (λ (u : Unit {0}) s'. (s', returns (concat ("file://" ∷ dir ∷ []))))
            (issue
              (copy_command dir)
              (map_err (λ e. reasoned_error e "CopyingDirState") (srv.copy_fs dir l))
              s))
  copied-At l dir s st a m h =
      let r : Result (Unit {0}) =
        map_err (λ e. reasoned_error e "CopyingDirState") (srv.copy_fs dir l) in
      resume-Ends (λ u. At (copied st)) (λ dir. Found st) Somewhere
        (λ u s'. (s', returns (concat ("file://" ∷ dir ∷ [])))) (issue (copy_command dir) r s)
        (issue-At api pkg srv d client P kept (copy_command dir) r s (copied st)
          (copies dir a m (h.0)) (h.1))
        (λ u s' h'. (λ p env e. downgrades_copied p env e (h'.0), h'.1))

  down_dir-At :
      (d' : MigrationData pkg) (c : Option Cloud) (r : Option Remote) (l : Option pkg.Dir)
      (s : RunState) (st : MigrateStatus)
      → is_ahead st ≡ true
      → d.data_migrate_down ≡ true
      → At (prepared st) s
      → Ends (λ dir. Found st) Somewhere (down_dir api pkg srv d' st c r l s)
  unfolding down_dir
  down_dir-At d' (some c) (some r) l s st a m h = (λ p env e. downgrades p env a m e (h.0), h.1)
  down_dir-At d' none r (some l) s st a m h =
      copied-At l (concat ("migrations-" ∷ st.current ∷ [])) s st a m h
  down_dir-At d' (some c) none (some l) s st a m h =
      copied-At l (concat ("migrations-" ∷ st.current ∷ [])) s st a m h
  down_dir-At d' none r none s st a m h = ((_, h.0), h.1)
  down_dir-At d' (some c) none none s st a m h = ((_, h.0), h.1)

  downgrade_to-At :
      (cli : MigrationCli) (d' : MigrationData pkg) (version : String) (s : RunState)
      (st : MigrateStatus)
      → client cli
      → Answers pkg d client st
      → is_ahead st ≡ true
      → d.data_migrate_down ≡ true
      → last st.available ≡ some version
      → SameFlow d'
      → At (prepared st) s
      → Ends (λ u. At deployed) Somewhere (downgrade_to api pkg srv cli d' st version s)
  unfolding downgrade_to
  downgrade_to-At cli d' version s st ours answered a m e same h =
      let params : String → DownParams = λ dir. record {
        down_env = d'.env_name;
        to_version = version;
        dir_url = dir;
        down_vars = d'.data_vars;
      } in
      resume-Ends (λ dir. Found st) (λ u. At deployed) Somewhere
        (λ dir s'.
          resume (settle_down api pkg srv d')
            (issue (migrate_down_command (params dir)) (cli.migrate_down (params dir)) s'))
        (down_dir api pkg srv d' st d'.data_cloud d'.remote_dir d'.dir_latest s)
        (down_dir-At d' d'.data_cloud d'.remote_dir d'.dir_latest s st a m h)
        (λ dir s' (found, k).
          resume-Ends (λ run s''. At deployed s'' × (cli.migrate_down (params dir) ≡ ok run))
            (λ u. At deployed) Somewhere (settle_down api pkg srv d')
            (issue (migrate_down_command (params dir)) (cli.migrate_down (params dir)) s')
            (issue-With api pkg srv d client P kept (migrate_down_command (params dir))
              (cli.migrate_down (params dir)) s' deployed (found (params dir) (same.1.1.0) e) k)
            (λ run s'' (h'', q).
              settle_down-At d' run s'' (same.1.0)
                (λ ended. inr (
                  deployed-deployments (h''.0),
                  (cli, ours, inr (st, answered, (params dir, e, (run, q, ended)))),
                ))
                h''))

  guard-At :
      (b : Bool) (e : GoError) (s : RunState) (g : Stage)
      → At g s
      → Ends (λ (u : Unit {0}) s'. At g s' × (b ≡ true)) Somewhere (lift (guard b e) s)
  guard-At true e s g h = (h, refl)
  guard-At false e s g h = ((g, h.0), h.1)

  or_panic-At :
      {A : Type 0} (o : Option A) (s : RunState) (g : Stage)
      → At g s
      → Ends (λ a s'. At g s' × (o ≡ some a)) Somewhere (or_panic o s)
  or_panic-At none s g h = ((g, h.0), h.1)
  or_panic-At (some a) s g h = (h, refl)

  pub migrate_down-At :
      (cli : MigrationCli) (d' : MigrationData pkg) (s : RunState) (st : MigrateStatus)
      → client cli
      → Answers pkg d client st
      → is_ahead st ≡ true
      → SameFlow d'
      → At (prepared st) s
      → Ends (λ u. At deployed) Somewhere (migrate_down api pkg srv cli d' st s)
  unfolding migrate_down
  migrate_down-At cli d' s st ours answered a e h =
      let may : GoError =
        protected_flow_error
          "migrate down is not allowed, set `migrateDown.allow` to true to allow downgrade" in
      resume-Ends (λ u s'. At (prepared st) s' × (d'.data_migrate_down ≡ true)) (λ u. At deployed)
        Somewhere
        (λ (u : Unit {0}) s'.
          resume (downgrade_to api pkg srv cli d' st) (or_panic (last st.available) s'))
        (lift (guard d'.data_migrate_down may) s)
        (guard-At d'.data_migrate_down may s (prepared st) h)
        (λ u s' (h', m).
          resume-Ends (λ version s''. At (prepared st) s'' × (last st.available ≡ some version))
            (λ u. At deployed) Somewhere (downgrade_to api pkg srv cli d' st)
            (or_panic (last st.available) s') (or_panic-At (last st.available) s' (prepared st) h')
            (λ version s'' (h'', v).
              downgrade_to-At cli d' version s'' st ours answered a (sym (e.0) ∙ m) v e h''))

  -- With nothing to do the stage stays, and otherwise there has been a deployment.
  abbrev pub Applied : MigrateStatus → RunState → Type 0
  Applied st s = (At (known st) s × (has_work st ≡ false)) ⊎ At deployed s

  pub apply_changes-At :
      (res : MigrationResource pkg srv) (cli : MigrationCli) (s : RunState) (st : MigrateStatus)
      → client cli
      → At (known st) s
      → Ends (λ u. Applied st) Somewhere (apply_changes api pkg srv res cli d st s)
  unfolding apply_changes no_pending_changes
  apply_changes-At res cli s st ours h = elim (Bool-cases (is_ahead st)) [
    | inl a ↦ rw a (
        resume-Ends (Keeps (prepared st)) (λ u. Applied st) Somewhere
          (λ d'. migrate_down api pkg srv cli d' st) (prepare_dev_db api pkg srv res d s)
          (prepare_dev_db-At api pkg srv d client P kept res s st (rw a refl) h)
          (λ d' s' (h', e).
            Ends-weaken api pkg srv d client P kept (λ u. At deployed) (λ u. Applied st)
              (migrate_down api pkg srv cli d' st s')
              (migrate_down-At cli d' s' st ours (known-Answers (h.0)) a e h')
              (λ u s'' h''. inr h'')))
    | inr a ↦ elim (Bool-cases (is_empty st.pending)) [
      | inl p ↦
          rw (a, p)
            (inl (
              (
                h.0,
                kept.made_ready s.commands s.resource d.observed_hash "" st.current ""
                    (or_zero (last st.applied)) refl
                    (inl (st, known-Answers (h.0), rw (a, p) refl)),
              ),
              rw (a, p) refl,
            ))
      | inr p ↦
          rw (a, p)
            (resume-Ends (Keeps (prepared st)) (λ u. Applied st) Somewhere
              (λ d'. migrate_apply api pkg srv cli d') (prepare_dev_db api pkg srv res d s)
              (prepare_dev_db-At api pkg srv d client P kept res s st (rw (a, p) refl) h)
              (λ d' s' (h', e).
                Ends-weaken api pkg srv d client P kept (λ u. At deployed) (λ u. Applied st)
                  (migrate_apply api pkg srv cli d' s') (migrate_apply-At cli d' s' st ours p e h')
                  (λ u s'' h''. inr h'')))
    ]
  ]
