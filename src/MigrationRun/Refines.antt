-- ===== src/MigrationRun/Refines.antt =====
-- A run of a migration gives its commands in the order of the protocol, up to the preparation of the
-- dev database (internal/controller/atlasmigration_controller.go).
use atlas_operator.Prelude.{
  ℕ, arith, ◌≤◌, ◌≡◌, refl, Bool, true, false, String, List, ◌∷◌, Option, none, some, Bool-cases,
  inl, inr, ◌++◌, str_eq,
}
use atlas_operator.Conditions.{ConditionApi}
use atlas_operator.Reason.{reason_getting_dev_db}
use atlas_operator.Errors.{Result, ok, err, map_err, error_text, pending_error}
use atlas_operator.Target.{Url}
use atlas_operator.MigrationStatus.{AtlasMigration, set_ready}
use atlas_operator.MigrationData.{Packages, MigrationData, Cloud}
use atlas_operator.MigrationRun.{
  MigrationServices, MigrationResource, MigrationCli, MigrateStatus, RunState, Flow, returns, fails,
  panics, resume, issue, lift, Command, ready_status, set_approval_url, log_in, prepare_dev_db,
  dev_db, spin_up, dev_db_for, needs_dev_db, login_command, dev_url_command, create_file_command,
}
use atlas_operator.MigrationRun.Protocol.{
  Stage, Reached, known, spun_up, prepared, deployed, connected, logged_in, token_of, has_work,
  logs_in, spins_up, writes, writes_dev, downgrades, downgrades_copied, applies, asks, Answers,
  CarriedOut, deployments,
}
use atlas_operator.Actions.Triples.{Ends, resume-Ends}

-- A predicate on the commands and the resource that more commands and the changes of applyChanges
-- keep or establish: the URL of an approval, and SetReady with the hash of the data where these are
-- carried out.
pub record Kept (api : ConditionApi) (pkg : Packages) (d : MigrationData pkg)
    (client : MigrationCli → Type 0) (P : List Command → AtlasMigration → Type 0) : Type 0 where
  pub keep_more : (c : Command) (cs : List Command) (m : AtlasMigration) → P cs m → P (c ∷ cs) m
  pub keep_url :
      (cs : List Command) (m : AtlasMigration) (url : String)
      → P cs m
      → P cs (set_approval_url url m)
  pub made_ready :
      (cs : List Command) (m : AtlasMigration) (own approval version deployment : String) (t : ℕ)
      → own ≡ d.observed_hash
      → CarriedOut pkg d client cs
      → P cs (set_ready api m (ready_status own approval t version deployment))

pub known-Answers :
    {pkg : Packages} {d : MigrationData pkg} {client : MigrationCli → Type 0} {cs : List Command}
    {st : MigrateStatus}
    → Reached pkg d client cs (known st)
    → Answers pkg d client st
known-Answers (asks st a h) = a

-- At the stage of a deployment one has been started.
pub deployed-deployments :
    {pkg : Packages} {d : MigrationData pkg} {client : MigrationCli → Type 0} {cs : List Command}
    → Reached pkg d client cs deployed
    → 1 ≤ deployments cs
deployed-deployments (downgrades p e a m l h) = omega arith
deployed-deployments (downgrades_copied p e l h) = omega arith
deployed-deployments (applies env e p h) = omega arith

module _ (api : ConditionApi) (pkg : Packages) (srv : MigrationServices pkg) (d : MigrationData pkg)
    (client : MigrationCli → Type 0) (P : List Command → AtlasMigration → Type 0)
    (kept : Kept api pkg d client P) where
  -- The commands so far lead to the stage, or to some stage, and the predicate holds.
  abbrev pub At : Stage → RunState → Type 0
  At g s = Reached pkg d client s.commands g × P s.commands s.resource

  abbrev pub Somewhere : RunState → Type 0
  Somewhere s = ((g : Stage) × Reached pkg d client s.commands g) × P s.commands s.resource

  pub issue-At :
      {A : Type 0} (c : Command) (r : Result A) (s : RunState) (g : Stage)
      → Reached pkg d client (c ∷ s.commands) g
      → P s.commands s.resource
      → Ends (λ a. At g) Somewhere (issue c r s)
  issue-At c (ok a) s g h k = (h, kept.keep_more c s.commands s.resource k)
  issue-At c (err e) s g h k = ((g, h), kept.keep_more c s.commands s.resource k)

  -- The same with what the command answered.
  pub issue-With :
      {A : Type 0} (c : Command) (r : Result A) (s : RunState) (g : Stage)
      → Reached pkg d client (c ∷ s.commands) g
      → P s.commands s.resource
      → Ends (λ a s'. At g s' × (r ≡ ok a)) Somewhere (issue c r s)
  issue-With c (ok a) s g h k = ((h, kept.keep_more c s.commands s.resource k), refl)
  issue-With c (err e) s g h k = ((g, h), kept.keep_more c s.commands s.resource k)

  pub lift-At :
      {A : Type 0} (r : Result A) (s : RunState) (g : Stage)
      → At g s
      → Ends (λ a. At g) Somewhere (lift r s)
  lift-At (ok a) s g h = h
  lift-At (err e) s g (h, k) = ((g, h), k)

  -- Behind `login` a guest is still connected, and a user is logged in.
  abbrev pub after_login : Option String → Stage
  after_login none = connected
  after_login (some token) = logged_in

  pub log_in-At :
      (cli : MigrationCli) (s : RunState)
      → At connected s
      → Ends
          (λ u. At (after_login (token_of d.data_cloud)))
          Somewhere
          (log_in api pkg srv cli d.data_cloud s)
  unfolding log_in
  log_in-At cli s h = by_cloud d.data_cloud refl
    where
      by_cloud :
          (c : Option Cloud)
          → c ≡ d.data_cloud
          → Ends (λ u. At (after_login (token_of c))) Somewhere (log_in api pkg srv cli c s)
      by_cloud none e = h
      by_cloud (some c) e = elim (Bool-cases (str_eq c.token "")) [
        | inl guest ↦ rw guest h
        | inr user ↦ rw user (
            issue-At (login_command c.token) (cli.login c.token) s logged_in
              (logs_in c.token (rw (← e) (rw user refl)) (h.0)) (h.1))
      ]

  -- The data behind devDB and prepareDevDB are the same but for the URL of the dev database.
  abbrev pub SameFlow : MigrationData pkg → Type 0
  SameFlow d' =
      (d'.data_migrate_down ≡ d.data_migrate_down)
      × ((d'.observed_hash ≡ d.observed_hash)
          × ((d'.env_name ≡ d.env_name) × (d'.data_vars ≡ d.data_vars)))

  abbrev pub Keeps : Stage → MigrationData pkg → RunState → Type 0
  Keeps g d' s = At g s × SameFlow d'

  written :
      (d' : MigrationData pkg) (s : RunState) (st : MigrateStatus)
      → SameFlow d'
      → Reached pkg d client (create_file_command ∷ s.commands) (prepared st)
      → P s.commands s.resource
      → Ends (Keeps (prepared st)) Somewhere (
          resume
            (λ u s'. (s', returns d'))
            (issue create_file_command (srv.create_config_file d') s))
  written d' s st e h k =
      resume-Ends (λ u. At (prepared st)) (Keeps (prepared st)) Somewhere (λ u s'. (s', returns d'))
        (issue create_file_command (srv.create_config_file d') s)
        (issue-At create_file_command (srv.create_config_file d') s (prepared st) h k)
        (λ u s' h'. (h', e))

  spin_up-At :
      (res : MigrationResource pkg srv) (url : Url) (s : RunState) (st : MigrateStatus)
      → has_work st ≡ true
      → At (known st) s
      → Ends (Keeps (spun_up st)) Somewhere (spin_up api pkg srv res d url s)
  unfolding spin_up
  spin_up-At res url s st work h =
      let asked = srv.dev_db.dev_url res.stored url res.dev_db_config d.data_dev_url in
      let s' : RunState = record s { events = s.events ++ asked.0 } in
      let r : Result String =
        map_err (λ e. pending_error reason_getting_dev_db (error_text e)) asked.1 in
      resume-Ends (λ dev. At (spun_up st)) (Keeps (spun_up st)) Somewhere
        (λ dev s''. (s'', returns (record d { data_dev_url = dev })))
        (issue (dev_url_command d.data_dev_url) r s')
        (issue-At (dev_url_command d.data_dev_url) r s' (spun_up st)
          (spins_up d.data_dev_url work (h.0)) (h.1))
        (λ dev s'' h'. (h', (refl, (refl, (refl, refl)))))

  -- Whether devDB asked for a database or not, the configuration is written next.
  abbrev Ready : MigrateStatus → MigrationData pkg → RunState → Type 0
  Ready st d' s =
      (Reached pkg d client (create_file_command ∷ s.commands) (prepared st)
        × P s.commands s.resource)
      × SameFlow d'

  pub Ends-weaken :
      {E : Type 0} {A : Type 0} (Q Q' : A → RunState → Type 0) (x : RunState × Flow E A)
      → Ends Q Somewhere x
      → ((a : A) (s : RunState) → Q a s → Q' a s)
      → Ends Q' Somewhere x
  Ends-weaken Q Q' (s, returns a) h f = f a s h
  Ends-weaken Q Q' (s, fails e) h f = h
  Ends-weaken Q Q' (s, panics) h f = h

  dev_db_for-At :
      (res : MigrationResource pkg srv) (url : Option Url) (needed : Bool) (s : RunState)
      (st : MigrateStatus)
      → has_work st ≡ true
      → At (known st) s
      → Ends (Ready st) Somewhere (dev_db_for api pkg srv res d url needed s)
  unfolding dev_db_for
  dev_db_for-At res none needed s st work h =
      ((writes work (h.0), h.1), (refl, (refl, (refl, refl))))
  dev_db_for-At res (some url) true s st work h =
      Ends-weaken (Keeps (spun_up st)) (Ready st) (spin_up api pkg srv res d url s)
        (spin_up-At res url s st work h) (λ d' s' (h', e'). ((writes_dev (h'.0), h'.1), e'))
  dev_db_for-At res (some url) false s st work h =
      ((writes work (h.0), h.1), (refl, (refl, (refl, refl))))

  pub prepare_dev_db-At :
      (res : MigrationResource pkg srv) (s : RunState) (st : MigrateStatus)
      → has_work st ≡ true
      → At (known st) s
      → Ends (Keeps (prepared st)) Somewhere (prepare_dev_db api pkg srv res d s)
  unfolding prepare_dev_db dev_db
  prepare_dev_db-At res s st work h =
      resume-Ends (Ready st) (Keeps (prepared st)) Somewhere
        (λ d' s'.
          resume (λ u s''. (s'', returns d'))
            (issue create_file_command (srv.create_config_file d') s'))
        (dev_db api pkg srv res d s)
        (dev_db_for-At res d.url (needs_dev_db api pkg srv res d) s st work h)
        (λ d' s' (h', e'). written d' s' st e' (h'.0) (h'.1))
