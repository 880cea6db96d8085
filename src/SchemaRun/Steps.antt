-- ===== src/SchemaRun/Steps.antt =====
-- The steps of a reconciliation of a schema (internal/controller/atlasschema_controller.go and
-- internal/controller/lint.go). Log lines are left out.
use atlas_operator.Prelude.{
  ℕ, Bool, true, false, String, List, [], ◌∷◌, Option, none, some, pos, ◌/◌, length, decimal,
  str_eq, concat, contains, trim_space, is_empty, ◌++◌, if◌then◌else◌,
}
use atlas_operator.Conditions.{ConditionApi}
use atlas_operator.Reason.{reason_approval_pending}
use atlas_operator.Recorder.{RecordedEvent, event, warning_event, normal_event}
use atlas_operator.Errors.{
  Result, ok, err, GoError, plain, destructive_err, transient_error, is_transient, error_text,
  CtrlResult, no_requeue, after, result, retry_duration, backoff_delay_at, second,
}
use atlas_operator.NameMap.{Name}
use atlas_operator.Pending.{delay}
use atlas_operator.SchemaStatus.{
  AtlasSchema, AtlasSchemaStatus, set_not_ready, set_ready, is_exceed_backoff_limit,
}
use atlas_operator.Hcl.{target_url}
use atlas_operator.ProjectConfig.{VarValue}
use atlas_operator.MigrationData.{Packages, Cloud}
use atlas_operator.Actions.{
  State, Action, Flow, returns, fails, panics, ◌>>=◌, ◌>>◌, return, fail, lift, issue, change,
  record_all,
}
use atlas_operator.SchemaRun.Resources.{
  SchemaServices, SchemaResource, ManagedData, Tracked, SchemaCommand, ApplyParams, PlanFile,
  SchemaReport, SchemaCli, login_command, make_client, apply_command, truncate_sql, sql_limit_size,
}

abbrev pub SchemaState : Type 0
SchemaState = State Tracked SchemaCommand

abbrev pub SchemaStep : Type 0 → Type 0 → Type 0
SchemaStep E A = Action Tracked SchemaCommand E A

-- An error of a step is shown, and ends the reconciliation with a result.
abbrev pub handled :
    {A : Type 0}
    → (GoError → SchemaStep CtrlResult A)
    → SchemaState × Flow GoError A
    → SchemaState × Flow CtrlResult A
handled h (s, returns a) = (s, returns a)
handled h (s, fails e) = h e s
handled h (s, panics) = (s, panics)

abbrev pub handle :
    {A : Type 0}
    → (GoError → SchemaStep CtrlResult A)
    → SchemaStep GoError A
    → SchemaStep CtrlResult A
handle h m s = handled h (m s)

abbrev pub on_schema : (AtlasSchema → AtlasSchema) → Tracked → Tracked
on_schema f t = record t { schema = f t.schema }

-- The assignments to `Status.PlanURL` and `Status.PlanLink`.
abbrev pub set_plan : PlanFile → AtlasSchema → AtlasSchema
set_plan p m = record m {
  status = record m.status { plan_url = p.file_url; plan_link = p.file_link };
}

abbrev pub name_of : AtlasSchema → Name
name_of m = record { namespace = m.namespace; name = m.name }

abbrev pub file_urls : List PlanFile → List String
file_urls [] = []
file_urls (p ∷ ps) = p.file_url ∷ file_urls ps

-- FirstRun, of the message.
abbrev pub first_run_message : List String → String
first_run_message clauses = concat (
    error_text (destructive_err clauses)
    ∷ "\nTo prevent accidental drop of resources, first run of a schema must not contain destructive changes.\nRead more: https://atlasgo.io/integrations/kubernetes/#destructive-changes"
    ∷ [])

-- The statements with which `lint` finds that an apply is destructive.
unfoldable pub drops : List String → List String
drops [] = []
drops (c ∷ cs) = let rest = drops cs in if contains c "DROP " then c ∷ rest else rest

module _ (api : ConditionApi) where
  -- recordErrEvent
  unfoldable pub err_event : GoError → RecordedEvent
  unfolding is_transient trim_space
  err_event e =
      event warning_event (if is_transient e then "TransientErr" else "Error")
        (trim_space (error_text e))

  -- The end of resultErr and of resultCLIErr, by whether the backoff limit is exceeded.
  unfoldable pub stop_or_retry : {A : Type 0} → GoError → String → Bool → SchemaStep CtrlResult A
  stop_or_retry e message true = do
    record_all (event warning_event "BackoffLimitExceeded" message ∷ [])
    fail (result e 0)
  stop_or_retry e message false =
      λ s. (s, fails (result e (backoff_delay_at s.resource.schema.status.failed)))

  -- The failure that both show, with its event.
  abbrev pub shown_failure : GoError → String → SchemaState → SchemaState
  shown_failure e reason s = record s {
    resource = on_schema (λ m. set_not_ready api m reason (error_text e)) s.resource;
    events = s.events ++ err_event e ∷ [];
  }

  abbrev pub failing : {A : Type 0} → String → GoError → String → SchemaStep CtrlResult A
  failing message e reason s =
      stop_or_retry e message (is_exceed_backoff_limit (shown_failure e reason s).resource.schema)
        (shown_failure e reason s)

  -- resultErr: the error is marked as transient.
  unfoldable pub result_err : {A : Type 0} → String → GoError → SchemaStep CtrlResult A
  unfolding stop_or_retry err_event
  result_err reason e = failing "backoff limit exceeded" (transient_error e) reason

  -- resultCLIErr
  unfoldable pub result_cli_err : {A : Type 0} → String → GoError → SchemaStep CtrlResult A
  unfolding stop_or_retry err_event
  result_cli_err reason e = failing "Backoff limit exceeded" e reason

  -- The delay for a plan that waits for approval, which changes the tracker.
  unfoldable pub plan_delay : ℕ → SchemaStep CtrlResult ℕ
  unfolding delay
  plan_delay now s =
      let (tracker, d) =
        delay s.resource.pending (name_of s.resource.schema) s.resource.schema.status.plan_url
          now in
      (record s { resource = record s.resource { pending = tracker } }, returns d)

  -- resultPending
  unfoldable pub result_pending : {A : Type 0} → ℕ → String → String → SchemaStep CtrlResult A
  unfolding plan_delay
  result_pending now reason message = do
    d ← if str_eq reason reason_approval_pending then plan_delay now else return retry_duration
    change (on_schema (λ m. set_not_ready api m reason message))
    record_all (event warning_event reason message ∷ [])
    fail (after d)

module _ (api : ConditionApi) (pkg : Packages) (srv : SchemaServices pkg) where
  -- targetURL
  abbrev pub target_of : ManagedData pkg → String
  target_of d = target_url pkg.hcl d.data_config d.env_name

  -- schemaApply: what the command writes to stderr is reported where it succeeds.
  unfoldable pub schema_apply : SchemaCli → ApplyParams → SchemaStep GoError (List SchemaReport)
  unfolding trim_space
  schema_apply cli params = do
    let run = cli.schema_apply_slice params
    reports ← issue (apply_command params) run.apply_reports
    let msg = trim_space run.apply_stderr
    record_all (if str_eq msg "" then [] else event warning_event "ApplyingSchema" msg ∷ [])
    return reports

  abbrev pub apply_params : ManagedData pkg → Bool → String → ApplyParams
  apply_params d approve to = record {
    apply_env = d.env_name;
    apply_to = to;
    apply_tx_mode = d.tx_mode;
    apply_plan_url = "";
    auto_approve = approve;
    dry_run = false;
    apply_vars = d.data_vars;
  }

  -- The reports of the dry run that lint makes.
  unfoldable pub judged : List SchemaReport → Result (Unit {0})
  unfolding drops
  judged (rep ∷ []) =
      let causes = drops rep.pending_changes in
      if is_empty causes then ok tt else err (destructive_err causes)
  judged reports =
      err (plain (concat ("unexpected number of schema plans: " ∷ decimal (length reports) ∷ [])))

  -- The login, where there is a token.
  unfoldable pub log_in : SchemaCli → Option Cloud → SchemaStep GoError (Unit {0})
  log_in cli none = return tt
  log_in cli (some c) =
      if str_eq c.token "" then return tt else issue (login_command c.token) (cli.login c.token)

  -- The client for a working directory.
  abbrev pub new_client :
      SchemaResource pkg srv → String → ManagedData pkg → SchemaStep GoError SchemaCli
  new_client res path d = issue make_client (
      srv.atlas_client path d.data_cloud
        (concat (res.stored.namespace ∷ "/" ∷ res.stored.name ∷ [])))

  abbrev pub lint_params : ManagedData pkg → List (String × VarValue) → ApplyParams
  lint_params d vars = record {
    apply_env = d.env_name;
    apply_to = target_of d;
    apply_tx_mode = "";
    apply_plan_url = "";
    auto_approve = false;
    dry_run = true;
    apply_vars = vars;
  }

  -- lint
  unfoldable pub lint :
      SchemaResource pkg srv
      → String
      → ManagedData pkg
      → List (String × VarValue)
      → SchemaStep GoError (Unit {0})
  unfolding judged log_in
  lint res path d vars = do
    cli ← new_client res path d
    log_in cli d.data_cloud
    plans ←
        issue (apply_command (lint_params d vars))
          (cli.schema_apply_slice (lint_params d vars)).apply_reports
    lift (judged plans)

  -- The status of an applied schema, with the plan of its report.
  abbrev pub applied_status : ℕ → String → Option PlanFile → AtlasSchemaStatus
  applied_status now hash plan = record {
    observed_generation = pos 0;
    conditions = [];
    observed_hash = hash;
    last_applied = now / second;
    plan_url = elim plan [ none ↦ "" | some p ↦ p.file_url ];
    plan_link = elim plan [ none ↦ "" | some p ↦ p.file_link ];
    failed = 0;
  }

  abbrev pub record_applied : SchemaStep CtrlResult CtrlResult
  record_applied = do
    record_all (event normal_event "Applied" "Applied schema" ∷ [])
    return no_requeue

  -- The end of Reconcile, on the reports of an apply that succeeded.
  unfoldable pub finish_apply : ℕ → String → List SchemaReport → SchemaStep CtrlResult CtrlResult
  unfolding set_ready truncate_sql result_err
  finish_apply now hash (rep ∷ []) = do
    let shown : SchemaReport = record {
      applied_changes = truncate_sql rep.applied_changes sql_limit_size;
      pending_changes = truncate_sql rep.pending_changes sql_limit_size;
      report_plan = none;
    }
    change (
        on_schema (λ m.
          set_ready api m (applied_status now hash rep.report_plan) (some (srv.marshal shown))))
    record_applied
  finish_apply now hash reports =
      result_err api "ApplyingSchema"
        (plain (concat ("unexpected number of reports: " ∷ decimal (length reports) ∷ [])))
