-- ===== src/MigrationRun/Protocol.antt =====
-- The order in which a run of a migration may give its commands: what the comments on the steps of
-- internal/controller/atlasmigration_controller.go promise, as a transition system.
use atlas_operator.Prelude.{
  ℕ, suc, ◌≤◌, ◌⊎◌, ◌≡◌, Bool, true, false, String, List, [], ◌∷◌, Option, none, some, is_empty,
  str_eq, if◌then◌else◌,
}
use atlas_operator.Errors.{ok}
use atlas_operator.MigrationData.{Packages, MigrationData, Cloud}
use atlas_operator.MigrationRun.{
  MigrationCli, DownRun, state_applied, state_approved, MigrateStatus, ApplyReport, DownParams,
  DirSecret, Command, make_working_dir, make_client, who_am_i_command, migrate_status_command,
  login_command, dev_url_command, copy_command, create_file_command, migrate_down_command,
  migrate_apply_command, create_secret_command, update_secret_command, last, is_ahead,
}

-- How far a run has come. From `known` on, the stage holds the status of the migrations.
pub data Stage : Type 0 where
  fresh opened connected logged_in identified unanswered : Stage
  known spun_up prepared copied : MigrateStatus → Stage
  deployed saved replaced : Stage

-- The token of the cloud, which is not empty.
abbrev pub token_of : Option Cloud → Option String
token_of none = none
token_of (some c) = if str_eq c.token "" then none else some c.token

-- There is something to apply, or the database is ahead of the directory.
abbrev pub has_work : MigrateStatus → Bool
has_work st = if is_ahead st then true else if is_empty st.pending then false else true

-- What the client of the run answers on the status of the migrations.
abbrev pub Answers :
    (pkg : Packages) → MigrationData pkg → (MigrationCli → Type 0) → MigrateStatus → Type 0
Answers pkg d client st =
    (cli : MigrationCli) × client cli × (cli.migrate_status d.env_name d.data_vars ≡ ok st)

-- The commands, the last first, that lead to a stage, for the data and the client of the run.
pub data Reached (pkg : Packages) (d : MigrationData pkg) (client : MigrationCli → Type 0)
    : List Command → Stage → Type 0 where
  nothing_yet : Reached pkg d client [] fresh
  opens :
      {cs : List Command}
      → Reached pkg d client cs fresh
      → Reached pkg d client (make_working_dir ∷ cs) opened
  connects :
      {cs : List Command}
      → Reached pkg d client cs opened
      → Reached pkg d client (make_client ∷ cs) connected
  logs_in :
      {cs : List Command} (token : String)
      → token_of d.data_cloud ≡ some token
      → Reached pkg d client cs connected
      → Reached pkg d client (login_command token ∷ cs) logged_in
  identifies_guest :
      {cs : List Command}
      → token_of d.data_cloud ≡ none
      → Reached pkg d client cs connected
      → Reached pkg d client (who_am_i_command ∷ cs) identified
  identifies_user :
      {cs : List Command}
      → Reached pkg d client cs logged_in
      → Reached pkg d client (who_am_i_command ∷ cs) identified
  asks :
      {cs : List Command} (st : MigrateStatus)
      → Answers pkg d client st
      → Reached pkg d client cs identified
      → Reached pkg d client (migrate_status_command ∷ cs) (known st)
  asks_in_vain :
      {cs : List Command}
      → Reached pkg d client cs identified
      → Reached pkg d client (migrate_status_command ∷ cs) unanswered
  spins_up :
      {cs : List Command} {st : MigrateStatus} (url : String)
      → has_work st ≡ true
      → Reached pkg d client cs (known st)
      → Reached pkg d client (dev_url_command url ∷ cs) (spun_up st)
  writes :
      {cs : List Command} {st : MigrateStatus}
      → has_work st ≡ true
      → Reached pkg d client cs (known st)
      → Reached pkg d client (create_file_command ∷ cs) (prepared st)
  writes_dev :
      {cs : List Command} {st : MigrateStatus}
      → Reached pkg d client cs (spun_up st)
      → Reached pkg d client (create_file_command ∷ cs) (prepared st)
  copies :
      {cs : List Command} {st : MigrateStatus} (dir : String)
      → is_ahead st ≡ true
      → d.data_migrate_down ≡ true
      → Reached pkg d client cs (prepared st)
      → Reached pkg d client (copy_command dir ∷ cs) (copied st)
  downgrades :
      {cs : List Command} {st : MigrateStatus} (p : DownParams)
      → p.down_env ≡ d.env_name
      → is_ahead st ≡ true
      → d.data_migrate_down ≡ true
      → last st.available ≡ some p.to_version
      → Reached pkg d client cs (prepared st)
      → Reached pkg d client (migrate_down_command p ∷ cs) deployed
  downgrades_copied :
      {cs : List Command} {st : MigrateStatus} (p : DownParams)
      → p.down_env ≡ d.env_name
      → last st.available ≡ some p.to_version
      → Reached pkg d client cs (copied st)
      → Reached pkg d client (migrate_down_command p ∷ cs) deployed
  applies :
      {cs : List Command} {st : MigrateStatus} (env : String)
      → env ≡ d.env_name
      → is_empty st.pending ≡ false
      → Reached pkg d client cs (prepared st)
      → Reached pkg d client (migrate_apply_command env ∷ cs) deployed
  saves :
      {cs : List Command} (secret : DirSecret)
      → Reached pkg d client cs deployed
      → Reached pkg d client (create_secret_command secret ∷ cs) saved
  saves_idle :
      {cs : List Command} {st : MigrateStatus} (secret : DirSecret)
      → has_work st ≡ false
      → Reached pkg d client cs (known st)
      → Reached pkg d client (create_secret_command secret ∷ cs) saved
  replaces :
      {cs : List Command} (secret : DirSecret)
      → Reached pkg d client cs saved
      → Reached pkg d client (update_secret_command secret ∷ cs) replaced

-- How many of the commands change the target database.
abbrev pub deployments : List Command → ℕ
deployments [] = 0
deployments (migrate_down_command p ∷ cs) = suc (deployments cs)
deployments (migrate_apply_command env ∷ cs) = suc (deployments cs)
deployments (c ∷ cs) = deployments cs

-- One of the commands is a downgrade.
abbrev pub downgraded : List Command → Bool
downgraded [] = false
downgraded (migrate_down_command p ∷ cs) = true
downgraded (c ∷ cs) = downgraded cs

abbrev pub is_after : Stage → Bool
is_after deployed = true
is_after saved = true
is_after replaced = true
is_after _ = false

-- The client reports that the migrations were applied, or that the database is back at the last
-- version of the directory by what it answers.
abbrev pub Deploys :
    (pkg : Packages) → MigrationData pkg → (MigrationCli → Type 0) → MigrationCli → Type 0
Deploys pkg d client cli =
    ((rep : ApplyReport) × ((cli.migrate_apply_slice d.env_name d.data_vars).reports
        ≡ ok (rep ∷ [])))
    ⊎ ((st : MigrateStatus) × Answers pkg d client st
        × ((p : DownParams) × (last st.available ≡ some p.to_version)
            × ((run : DownRun) × (cli.migrate_down p ≡ ok run)
                × ((run.run_status ≡ state_applied) ⊎ (run.run_status ≡ state_approved)))))

-- The data are carried out: the client answers that nothing is pending and that the database is not
-- ahead, or a deployment was started and the client reports that it succeeded.
abbrev pub CarriedOut :
    (pkg : Packages) → MigrationData pkg → (MigrationCli → Type 0) → List Command → Type 0
CarriedOut pkg d client cs =
    ((st : MigrateStatus) × Answers pkg d client st × (has_work st ≡ false))
    ⊎ ((1 ≤ deployments cs) × ((cli : MigrationCli) × client cli × Deploys pkg d client cli))
