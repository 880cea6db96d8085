-- ===== src/SchemaRun/Destructive.antt =====
-- What keeps destructive changes from being applied (internal/controller/atlasschema_controller.go
-- and internal/controller/lint.go).
use atlas_operator.Prelude.{
  ℕ, suc, ◌≡◌, refl, Bool, true, false, ◌||◌, String, List, [], ◌∷◌, Option, none, some, is_empty,
  arith, inl, inr, Bool-cases, str_eq, concat, if◌then◌else◌,
}
use atlas_operator.Conditions.{ConditionApi}
use atlas_operator.Errors.{
  Result, ok, err, GoError, CtrlResult, destructive_err, as_destructive, transient_error,
}
use atlas_operator.ProjectConfig.{VarValue}
use atlas_operator.SchemaStatus.{is_exceed_backoff_limit}
use atlas_operator.MigrationData.{Packages, Cloud}
use atlas_operator.Actions.{Flow, returns, fails, panics, resume, issue, lift}
use atlas_operator.Actions.Triples.{Ends, resume-Ends}
use atlas_operator.SchemaRun.{
  SchemaServices, SchemaResource, SchemaCli, SchemaReport, ManagedData, SchemaCommand, SchemaState,
  SchemaStep, ApplyParams, apply_command, handled, handle, shown_failure, stop_or_retry, failing,
  result_err, result_cli_err, lint, lint_params, log_in, login_command, make_client, new_client,
  drops, judged, edit_config, write_config_command, first_run_failed, first_run_result, first_run,
  first_run_edit, first_run_revert, linted, apply_by, apply_now,
}

-- How many of the commands apply changes.
abbrev pub applies : List SchemaCommand → ℕ
applies [] = 0
applies (apply_command p ∷ cs) = if p.dry_run then applies cs else suc (applies cs)
applies (c ∷ cs) = applies cs

-- The dry run of every client that is made for the data reports a pending statement that drops something.
abbrev pub FindsDrops :
    (api : ConditionApi) (pkg : Packages) (srv : SchemaServices pkg) → ManagedData pkg → Type 0
FindsDrops api pkg srv d =
    (cli : SchemaCli) (path home : String) (vars : List (String × VarValue))
    → srv.atlas_client path d.data_cloud home ≡ ok cli
    → (rep : SchemaReport) × ((cli.schema_apply_slice
          (lint_params api pkg srv d vars)).apply_reports
        ≡ ok (rep ∷ []))
      × (is_empty (drops rep.pending_changes) ≡ false)

module _ (api : ConditionApi) (n : ℕ) where
  abbrev Quiet : SchemaState → Type 0
  Quiet s = applies s.commands ≡ n

  handled-Ends :
      {A : Type 0} (Q : A → SchemaState → Type 0) (h : GoError → SchemaStep CtrlResult A)
      (x : SchemaState × Flow GoError A)
      → Ends Q Quiet x
      → ((e : GoError) (s : SchemaState) → Quiet s → Ends Q Quiet (h e s))
      → Ends Q Quiet (handled h x)
  handled-Ends Q h (s, returns a) k f = k
  handled-Ends Q h (s, fails e) k f = f e s k
  handled-Ends Q h (s, panics) k f = k

  issue-Quiet :
      {A : Type 0} (c : SchemaCommand) (r : Result A) (s : SchemaState)
      → applies (c ∷ s.commands) ≡ n
      → Ends (λ a. Quiet) Quiet (issue c r s)
  issue-Quiet c (ok a) s h = h
  issue-Quiet c (err e) s h = h

  issue-known :
      {A : Type 0} (c : SchemaCommand) (r : Result A) (s : SchemaState)
      → applies (c ∷ s.commands) ≡ n
      → Ends (λ a s'. Quiet s' × (r ≡ ok a)) Quiet (issue c r s)
  issue-known c (ok a) s h = (h, refl)
  issue-known c (err e) s h = h

  failing-Quiet :
      {A : Type 0} (Q : A → SchemaState → Type 0) (message : String) (e : GoError) (reason : String)
      (s : SchemaState)
      → Quiet s
      → Ends Q Quiet (failing api message e reason s)
  unfolding stop_or_retry
  failing-Quiet Q message e reason s h =
      by_limit (is_exceed_backoff_limit (shown_failure api e reason s).resource.schema)
    where
      by_limit :
          (b : Bool) → Ends Q Quiet (stop_or_retry api e message b (shown_failure api e reason s))
      by_limit true = h
      by_limit false = h

  result_err-Quiet :
      {A : Type 0} (Q : A → SchemaState → Type 0) (reason : String) (e : GoError) (s : SchemaState)
      → Quiet s
      → Ends Q Quiet (result_err api reason e s)
  unfolding result_err
  result_err-Quiet Q reason e s h =
      failing-Quiet Q "backoff limit exceeded" (transient_error e) reason s h

  result_cli_err-Quiet :
      {A : Type 0} (Q : A → SchemaState → Type 0) (reason : String) (e : GoError) (s : SchemaState)
      → Quiet s
      → Ends Q Quiet (result_cli_err api reason e s)
  unfolding result_cli_err
  result_cli_err-Quiet Q reason e s h = failing-Quiet Q "Backoff limit exceeded" e reason s h

  -- A step that never returns.
  abbrev Never : {A : Type 0} → A → SchemaState → Type 0
  Never a s = true ≡ false

  first_run_result-Quiet :
      {A : Type 0} (Q : A → SchemaState → Type 0) (pkg : Packages) (srv : SchemaServices pkg)
      (now : ℕ) (e : GoError) (c : Option (List String)) (s : SchemaState)
      → Quiet s
      → Ends Q Quiet (first_run_result api pkg srv now e c s)
  unfolding first_run_result
  first_run_result-Quiet Q pkg srv now e none s h = result_cli_err-Quiet Q "VerifyingFirstRun" e s h
  first_run_result-Quiet Q pkg srv now e (some cs) s h = h

  module _ (pkg : Packages) (srv : SchemaServices pkg) (now : ℕ) where
    log_in-Quiet :
        (cli : SchemaCli) (c : Option Cloud) (s : SchemaState)
        → Quiet s
        → Ends (λ u. Quiet) Quiet (log_in api pkg srv cli c s)
    unfolding log_in
    log_in-Quiet cli none s h = h
    log_in-Quiet cli (some c) s h = elim (Bool-cases (str_eq c.token "")) [
      | inl guest ↦ rw guest h
      | inr user ↦ rw user (issue-Quiet (login_command c.token) (cli.login c.token) s h)
    ]

    judged-Never :
        (rep : SchemaReport) (s : SchemaState)
        → is_empty (drops rep.pending_changes) ≡ false
        → Quiet s
        → Ends (Never {A = Unit {0}}) Quiet (lift (judged api pkg srv (rep ∷ [])) s)
    unfolding judged
    judged-Never rep s e h = by_drops (drops rep.pending_changes) e
      where
        by_drops :
            (cs : List String)
            → is_empty cs ≡ false
            → Ends
                (Never {A = Unit {0}})
                Quiet
                (lift (if is_empty cs then ok tt else err (destructive_err cs)) s)
        by_drops [] e = e
        by_drops (c ∷ cs) e = h

    dropped :
        (p : ApplyParams) (r : Result (List SchemaReport)) (rep : SchemaReport) (s : SchemaState)
        → p.dry_run ≡ true
        → r ≡ ok (rep ∷ [])
        → is_empty (drops rep.pending_changes) ≡ false
        → Quiet s
        → Ends
            (Never {A = Unit {0}})
            Quiet
            (resume (λ plans. lift (judged api pkg srv plans)) (issue (apply_command p) r s))
    dropped p r rep s dry e found h =
        rw e
          (judged-Never rep (record s { commands = apply_command p ∷ s.commands }) found (rw dry h))

    lint-Never :
        (res : SchemaResource pkg srv) (path : String) (d : ManagedData pkg)
        (vars : List (String × VarValue)) (s : SchemaState)
        → FindsDrops api pkg srv d
        → Quiet s
        → Ends Never Quiet (lint api pkg srv res path d vars s)
    unfolding lint
    lint-Never res path d vars s found h =
        let home = concat (res.stored.namespace ∷ "/" ∷ res.stored.name ∷ []) in
        let made = srv.atlas_client path d.data_cloud home in
        let p = lint_params api pkg srv d vars in
        let judge : SchemaCli → SchemaStep GoError (Unit {0}) = λ cli s'.
          resume (λ plans. lift (judged api pkg srv plans))
            (issue (apply_command p) (cli.schema_apply_slice p).apply_reports s') in
        resume-Ends (λ cli s'. Quiet s' × (made ≡ ok cli)) Never Quiet
          (λ cli s'. resume (λ (u : Unit {0}). judge cli) (log_in api pkg srv cli d.data_cloud s'))
          (new_client api pkg srv res path d s) (issue-known make_client made s h)
          (λ cli s' (h', e).
            resume-Ends (λ u. Quiet) Never Quiet (λ (u : Unit {0}). judge cli)
              (log_in api pkg srv cli d.data_cloud s') (log_in-Quiet cli d.data_cloud s' h')
              (λ u s'' h''.
                let (rep, q, some_drop) = found cli path home vars e in
                dropped p (cli.schema_apply_slice p).apply_reports rep s'' refl q some_drop h''))

    edit_config-Quiet :
        (d : ManagedData pkg) (s : SchemaState)
        → Quiet s
        → Ends (λ u. Quiet) Quiet (edit_config api pkg srv now d s)
    edit_config-Quiet d s h =
        handled-Ends (λ u. Quiet) (result_err api "ModifyingAtlasHCL")
          (issue write_config_command (srv.write_config d) s)
          (issue-Quiet write_config_command (srv.write_config d) s h)
          (λ e s' h'. result_err-Quiet (λ u. Quiet) "ModifyingAtlasHCL" e s' h')

    -- Where no step behind lint is reached, nothing is applied.
    linted-Quiet :
        (res : SchemaResource pkg srv) (path : String) (cli : SchemaCli) (d : ManagedData pkg)
        (hash : String) (s : SchemaState)
        → FindsDrops api pkg srv d
        → Quiet s
        → Ends (λ r. Quiet) Quiet (linted api pkg srv now res path cli d hash s)
    unfolding linted
    linted-Quiet res path cli d hash s found h =
        resume-Ends Never (λ r. Quiet) Quiet
          (λ (u : Unit {0}). apply_now api pkg srv now cli d true hash)
          (handle (result_cli_err api "LintPolicyError") (lint api pkg srv res path d []) s)
          (handled-Ends Never (result_cli_err api "LintPolicyError")
            (lint api pkg srv res path d [] s) (lint-Never res path d [] s found h)
            (λ e s' h'. result_cli_err-Quiet Never "LintPolicyError" e s' h'))
          (λ u s' never. absurd (ground (arith, never)))

    first_run-Quiet :
        (res : SchemaResource pkg srv) (path : String) (cli : SchemaCli) (d : ManagedData pkg)
        (hash : String) (s : SchemaState)
        → FindsDrops api pkg srv d
        → Quiet s
        → Ends (λ r. Quiet) Quiet (first_run api pkg srv now res path cli d hash s)
    unfolding first_run first_run_failed
    first_run-Quiet res path cli d hash s found h =
        let edited = first_run_edit pkg d in
        let rest : SchemaStep CtrlResult CtrlResult = λ s'.
          resume
            (λ (u : Unit {0}).
              apply_now api pkg srv now cli (first_run_revert pkg edited) true hash)
            (edit_config api pkg srv now (first_run_revert pkg edited) s') in
        let linting : SchemaStep CtrlResult (Unit {0}) =
          handle (first_run_failed api pkg srv now)
            (lint api pkg srv res path edited edited.data_vars) in
        resume-Ends (λ u. Quiet) (λ r. Quiet) Quiet
          (λ (u : Unit {0}) s'. resume (λ (v : Unit {0}). rest) (linting s'))
          (edit_config api pkg srv now edited s) (edit_config-Quiet edited s h)
          (λ u s' h'.
            resume-Ends Never (λ r. Quiet) Quiet (λ (v : Unit {0}). rest) (linting s')
              (handled-Ends Never (first_run_failed api pkg srv now)
                (lint api pkg srv res path edited edited.data_vars s')
                (lint-Never res path edited edited.data_vars s' found h')
                (λ e s'' h''.
                  first_run_result-Quiet Never pkg srv now e (as_destructive e) s'' h''))
              (λ v s'' never. absurd (ground (arith, never))))

  ended : (x : SchemaState × Flow CtrlResult CtrlResult) → Ends (λ r. Quiet) Quiet x → Quiet (x.0)
  ended (s, returns r) h = h
  ended (s, fails r) h = h
  ended (s, panics) h = h

module _ (api : ConditionApi) (pkg : Packages) (srv : SchemaServices pkg) (now : ℕ) where
  -- For a resource that is not connected to Atlas Cloud, in its first run or with a lint policy:
  -- where the dry run reports a pending statement that drops something, nothing is applied.
  pub apply_by-applies :
      (res : SchemaResource pkg srv) (path : String) (cli : SchemaCli) (d : ManagedData pkg)
      (hash : String) (first lints : Bool) (s : SchemaState)
      → FindsDrops api pkg srv d
      → first || lints ≡ true
      → applies (apply_by api pkg srv now res path cli d hash false first lints s).0.commands
        ≡ applies s.commands
  unfolding apply_by
  apply_by-applies res path cli d hash true lints s found checked =
      ended api (applies s.commands) (first_run api pkg srv now res path cli d hash s)
        (first_run-Quiet api (applies s.commands) pkg srv now res path cli d hash s found refl)
  apply_by-applies res path cli d hash false true s found checked =
      ended api (applies s.commands) (linted api pkg srv now res path cli d hash s)
        (linted-Quiet api (applies s.commands) pkg srv now res path cli d hash s found refl)
  apply_by-applies res path cli d hash false false s found checked =
      absurd (ground (arith, checked))
