-- ===== src/MigrationRun/Panics.antt =====
-- Where a run of a migration panics (internal/controller/atlasmigration_controller.go).
use atlas_operator.Prelude.{
  ◌≡◌, refl, Bool, true, false, ◌&&◌, String, List, [], ◌∷◌, Option, none, some, concat, is_empty,
  arith,
}
use atlas_operator.Conditions.{ConditionApi}
use atlas_operator.Errors.{Result, ok, err, map_err, reasoned_error}
use atlas_operator.MigrationData.{
  Packages, MigrationData, Cloud, Remote, guard, protected_flow_error,
}
use atlas_operator.MigrationRun.{
  MigrationServices, MigrationCli, MigrateStatus, DownRun, DownParams, migrate_down_command,
  Command, copy_command, RunState, Flow, returns, fails, panics, resume, issue, lift, migrate_down,
  downgrade_to, down_dir, settle_down, or_panic, last,
}

abbrev pub is_panic {ℓ κ} : {E : Type ℓ} {A : Type κ} → Flow E A → Bool
is_panic (returns a) = false
is_panic (fails e) = false
is_panic panics = true

resume-is_panic :
    {E : Type 0} {A : Type 0} {B : Type 0} (k : A → RunState → RunState × Flow E B)
    (x : RunState × Flow E A)
    → is_panic (x.1) ≡ false
    → ((a : A) (s : RunState) → is_panic ((k a s).1) ≡ false)
    → is_panic ((resume k x).1) ≡ false
resume-is_panic k (s, returns a) h rest = rest a s
resume-is_panic k (s, fails e) h rest = refl
resume-is_panic k (s, panics) h rest = h

issue-is_panic :
    {A : Type 0} (c : Command) (r : Result A) (s : RunState) → is_panic ((issue c r s).1) ≡ false
issue-is_panic c (ok a) s = refl
issue-is_panic c (err e) s = refl

module _ (api : ConditionApi) (pkg : Packages) (srv : MigrationServices pkg) where
  settle_down-is_panic :
      (d : MigrationData pkg) (run : DownRun) (s : RunState)
      → is_panic ((settle_down api pkg srv d run s).1) ≡ false
  unfolding settle_down
  settle_down-is_panic d run s = ground arith

  copied-is_panic :
      (st : MigrateStatus) (r : Result (Unit {0})) (s : RunState)
      → is_panic (
          (resume
            (λ (u : Unit {0}) s'.
              (s', returns (concat ("file://" ∷ concat ("migrations-" ∷ st.current ∷ []) ∷ []))))
            (issue
              (copy_command (concat ("migrations-" ∷ st.current ∷ [])))
              (map_err (λ e. reasoned_error e "CopyingDirState") r)
              s)).1)
        ≡ false
  copied-is_panic st (ok u) s = refl
  copied-is_panic st (err e) s = refl

  down_dir-is_panic :
      (d : MigrationData pkg) (st : MigrateStatus) (c : Option Cloud) (r : Option Remote)
      (l : Option pkg.Dir) (s : RunState)
      → is_panic ((down_dir api pkg srv d st c r l s).1) ≡ false
  unfolding down_dir
  down_dir-is_panic d st (some c) (some r) l s = refl
  down_dir-is_panic d st none r none s = refl
  down_dir-is_panic d st (some c) none none s = refl
  down_dir-is_panic d st none r (some l) s =
      copied-is_panic st (srv.copy_fs (concat ("migrations-" ∷ st.current ∷ [])) l) s
  down_dir-is_panic d st (some c) none (some l) s =
      copied-is_panic st (srv.copy_fs (concat ("migrations-" ∷ st.current ∷ [])) l) s

  downgrade_to-is_panic :
      (cli : MigrationCli) (d : MigrationData pkg) (st : MigrateStatus) (version : String)
      (s : RunState)
      → is_panic ((downgrade_to api pkg srv cli d st version s).1) ≡ false
  unfolding downgrade_to
  downgrade_to-is_panic cli d st version s =
      let params : String → DownParams = λ dir. record {
        down_env = d.env_name;
        to_version = version;
        dir_url = dir;
        down_vars = d.data_vars;
      } in
      resume-is_panic
        (λ dir s'.
          resume (settle_down api pkg srv d)
            (issue (migrate_down_command (params dir)) (cli.migrate_down (params dir)) s'))
        (down_dir api pkg srv d st d.data_cloud d.remote_dir d.dir_latest s)
        (down_dir-is_panic d st d.data_cloud d.remote_dir d.dir_latest s)
        (λ dir s'.
          resume-is_panic (settle_down api pkg srv d)
            (issue (migrate_down_command (params dir)) (cli.migrate_down (params dir)) s')
            (issue-is_panic (migrate_down_command (params dir)) (cli.migrate_down (params dir)) s')
            (settle_down-is_panic d))

  last-is_panic :
      (cli : MigrationCli) (d : MigrationData pkg) (st : MigrateStatus) (s : RunState)
      (versions : List String)
      → is_panic ((resume (downgrade_to api pkg srv cli d st) (or_panic (last versions) s)).1)
        ≡ is_empty versions
  last-is_panic cli d st s [] = refl
  last-is_panic cli d st s (v ∷ []) = downgrade_to-is_panic cli d st v s
  last-is_panic cli d st s (v ∷ w ∷ rest) = last-is_panic cli d st s (w ∷ rest)

  -- migrateDown panics exactly where it is allowed and no version is available.
  pub migrate_down-is_panic :
      (cli : MigrationCli) (d : MigrationData pkg) (st : MigrateStatus) (s : RunState)
      → is_panic ((migrate_down api pkg srv cli d st s).1)
        ≡ (d.data_migrate_down && is_empty st.available)
  unfolding migrate_down
  migrate_down-is_panic cli d st s = by_flow d.data_migrate_down
    where
      by_flow :
          (b : Bool)
          → is_panic (
              (resume
                (λ (u : Unit {0}) s'.
                  resume (downgrade_to api pkg srv cli d st) (or_panic (last st.available) s'))
                (lift
                  (guard b (
                    protected_flow_error
                      "migrate down is not allowed, set `migrateDown.allow` to true to allow downgrade"))
                  s)).1)
            ≡ (b && is_empty st.available)
      by_flow true = last-is_panic cli d st s st.available
      by_flow false = refl
