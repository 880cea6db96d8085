-- ===== src/SchemaRun.antt =====
-- The controller of AtlasSchema (internal/controller/atlasschema_controller.go and lint.go). The
-- client of the API server, the Atlas CLI, the working directory, the reconciler of dev databases and
-- the clock are parameters. The update of the stored status, whose failure is only logged, stands
-- for its success, and the wiring at start-up is left out.
pub mod Policies
pub mod Resources
pub mod Inputs
pub mod Steps
pub mod Destructive
pub mod Connection
pub mod Reviews
use atlas_operator.Prelude.{
  ℕ, Bool, true, false, not, ◌||◌, ◌&&◌, String, List, [], ◌∷◌, ◌++◌, Option, none, some, ltb, ◌==◌,
  length, str_eq, concat, contains, join, has_prefix, to_lower, is_empty, if◌then◌else◌,
}
use atlas_operator.Conditions.{ConditionApi, Condition, ready_cond}
use atlas_operator.Reason.{
  reason_creating_working_dir, reason_approval_pending, reason_getting_dev_db,
  reason_creating_atlas_client, reason_login, reason_who_am_i,
}
use atlas_operator.Recorder.{RecordedEvent, event, warning_event, normal_event}
use atlas_operator.Errors.{
  Result, ok, err, GoError, plain, as_destructive, is_require_login, is_not_found, error_text,
  CtrlResult, no_requeue, requeue_now, after,
}
use atlas_operator.NameMap.{Name}
use atlas_operator.Pending.{PendingTracker, reset}
use atlas_operator.SchemaStatus.{
  AtlasSchema, set_not_ready, set_ready, set_reconciling, is_ready, is_hash_modified,
}
use atlas_operator.Target.{Url}
use atlas_operator.Hcl.{has_dev_url, has_targets, is_some}
use atlas_operator.MigrationRun.{Watchers, watch_ref, watch_key}
use atlas_operator.MigrationData.{Packages, guard}
use atlas_operator.Actions.{
  State, Flow, returns, fails, panics, ◌>>=◌, ◌>>◌, return, panic, fail, lift, issue, change,
  record_all,
}
unfoldable pub use Policies.*
unfoldable pub use Resources.*
unfoldable pub use Inputs.*
unfoldable pub use Steps.*

module _ (api : ConditionApi) (pkg : Packages) (srv : SchemaServices pkg) (now : ℕ) where
  -- The URL of the plan's desired state: a file is first pushed to Atlas Cloud.
  unfoldable pub pushed_url :
      SchemaCli → ManagedData pkg → Url → String → Bool → SchemaStep CtrlResult String
  unfolding result_cli_err to_lower
  pushed_url cli d repo desired false = return desired
  pushed_url cli d repo desired true = do
    tag ← handle (result_cli_err api "SchemaInspect") (
        issue inspect_command
          (cli.schema_inspect d.env_name desired "{{ .Hash | base64url }}" d.data_vars))
    handle (result_cli_err api "SchemaPush") (
        issue push_command (
          cli.schema_push d.env_name (srv.join_path repo.host repo.path)
            (concat ("operator-plan-" ∷ srv.first_eight (to_lower tag) ∷ [])) desired d.data_vars))

  -- The result of `schema plan`.
  unfoldable pub planned : String → Result PlanFile → SchemaStep CtrlResult CtrlResult
  unfolding result_cli_err result_pending set_ready
  planned hash (ok plan) = do
    change (on_schema (set_plan plan))
    result_pending api now reason_approval_pending "Schema plan is waiting for approval"
  planned hash (err e) =
      if contains (error_text e) "no changes to be made"
      then (do
        change (on_schema (λ m. set_ready api m (applied_status api pkg srv now hash none) none))
        record_applied api pkg srv)
      else (do
        record_all (event warning_event "SchemaPlan" (error_text e) ∷ [])
        result_cli_err api "SchemaPlan" e)

  -- createPlan
  unfoldable pub create_plan :
      SchemaCli → ManagedData pkg → Url → String → String → SchemaStep CtrlResult CtrlResult
  unfolding pushed_url planned
  create_plan cli d repo desired hash = do
    to ← pushed_url cli d repo desired (is_file pkg d)
    λ s.
        planned hash (cli.schema_plan d.env_name (pkg.net.to_string repo) to d.data_vars)
          (record s { commands = plan_command ∷ s.commands })

  -- Whether the error of an apply asks for a review.
  abbrev pub is_rejected : GoError → Bool
  is_rejected e = has_prefix (error_text e) "Rejected by review policy"

  -- The apply of a resource with a repository: a plan is made where the review rejects it.
  unfoldable pub apply_reviewed :
      SchemaCli
      → ManagedData pkg
      → Url
      → String
      → String
      → String
      → SchemaStep CtrlResult CtrlResult
  unfolding create_plan schema_apply finish_apply result_cli_err
  apply_reviewed cli d repo desired hash plan_url = do
    reports ←
        handle
          (λ e.
            if is_rejected e
            then (λ s.
                atlas_operator.Actions.resume (λ r. fail r) (create_plan cli d repo desired hash s))
            else result_cli_err api "ApplyingSchema" e)
          (schema_apply api pkg srv cli
            (record (apply_params api pkg srv d false desired) { apply_plan_url = plan_url }))
    finish_apply api pkg srv now hash reports

  -- Whether a review is always asked for, which panics where the policy has no lint policy.
  abbrev pub always_reviewed : Option Lint → SchemaStep CtrlResult Bool
  always_reviewed none = panic
  always_reviewed (some l) = return (is_always l.review)

  -- A plan that waits for approval.
  unfoldable pub wait_for : PlanFile → SchemaStep CtrlResult CtrlResult
  unfolding plan_delay
  wait_for plan = do
    change (on_schema (set_plan plan))
    d ← plan_delay api now
    change (
        on_schema
          (λ m. set_not_ready api m reason_approval_pending "Schema plan is waiting for approval"))
    record_all
        (event normal_event reason_approval_pending "Schema plan is waiting for approval" ∷ [])
    return (after d)

  -- The switch on the plans.
  unfoldable pub by_plans :
      SchemaCli
      → ManagedData pkg
      → Url
      → String
      → String
      → List PlanFile
      → SchemaStep CtrlResult CtrlResult
  unfolding create_plan apply_reviewed wait_for result_cli_err
  by_plans cli d repo desired hash [] = do
    always ← always_reviewed (lint_of d.policy)
    if always
        then create_plan cli d repo desired hash
        else apply_reviewed cli d repo desired hash ""
  by_plans cli d repo desired hash (plan ∷ []) =
      if str_eq plan.file_status "PENDING"
      then wait_for plan
      else apply_reviewed cli d repo desired hash
          (if str_eq plan.file_status "APPROVED" then plan.file_url else "")
  by_plans cli d repo desired hash plans =
      result_cli_err api "ListingPlans"
        (plain (concat ("multiple schema plans found: " ∷ join (file_urls plans) ", " ∷ [])))

  -- editAtlasHCL, on data that the edit has changed.
  abbrev pub edit_config : ManagedData pkg → SchemaStep CtrlResult (Unit {0})
  edit_config d =
      handle (result_err api "ModifyingAtlasHCL") (issue write_config_command (srv.write_config d))

  -- A direct apply.
  unfoldable pub apply_now :
      SchemaCli → ManagedData pkg → Bool → String → SchemaStep CtrlResult CtrlResult
  unfolding schema_apply finish_apply result_cli_err
  apply_now cli d approve hash = do
    reports ← handle (result_cli_err api "ApplyingSchema") (
        schema_apply api pkg srv cli (apply_params api pkg srv d approve (target_of api pkg srv d)))
    finish_apply api pkg srv now hash reports

  -- The case of a resource that is connected to Atlas Cloud.
  unfoldable pub with_cloud :
      SchemaCli → ManagedData pkg → Option Url → String → SchemaStep CtrlResult CtrlResult
  unfolding by_plans apply_now result_cli_err
  with_cloud cli d none hash = apply_now cli d false hash
  with_cloud cli d (some repo) hash = do
    plans ← handle (result_cli_err api "ListingPlans") (
        issue plan_list_command (
          cli.schema_plan_list d.env_name (pkg.net.to_string repo) (target_of api pkg srv d)
            d.data_vars))
    by_plans cli d repo (target_of api pkg srv d) hash plans

  -- The switch on the error of lint, by the clauses that are destructive.
  unfoldable pub first_run_result :
      {A : Type 0} → GoError → Option (List String) → SchemaStep CtrlResult A
  unfolding result_cli_err
  first_run_result e none = result_cli_err api "VerifyingFirstRun" e
  first_run_result e (some clauses) = do
    change (on_schema (λ m. set_not_ready api m "FirstRunDestructive" (first_run_message clauses)))
    record_all (event warning_event "FirstRunDestructive" (first_run_message clauses) ∷ [])
    fail no_requeue

  -- A first run must not be destructive: it is shown, and not tried again.
  unfoldable pub first_run_failed : {A : Type 0} → GoError → SchemaStep CtrlResult A
  unfolding as_destructive first_run_result
  first_run_failed e = first_run_result e (as_destructive e)

  -- The case of a first run.
  unfoldable pub first_run :
      SchemaResource pkg srv
      → String
      → SchemaCli
      → ManagedData pkg
      → String
      → SchemaStep CtrlResult CtrlResult
  unfolding lint first_run_failed apply_now
  first_run res path cli d hash = do
    let edited = first_run_edit pkg d
    edit_config edited
    handle first_run_failed (lint api pkg srv res path edited edited.data_vars)
    edit_config (first_run_revert pkg edited)
    apply_now cli (first_run_revert pkg edited) true hash

  -- The case of a lint policy.
  unfoldable pub linted :
      SchemaResource pkg srv
      → String
      → SchemaCli
      → ManagedData pkg
      → String
      → SchemaStep CtrlResult CtrlResult
  unfolding lint result_cli_err apply_now
  linted res path cli d hash = do
    handle (result_cli_err api "LintPolicyError") (lint api pkg srv res path d [])
    apply_now cli d true hash

  -- The switch on how to apply.
  unfoldable pub apply_by :
      SchemaResource pkg srv
      → String
      → SchemaCli
      → ManagedData pkg
      → String
      → Bool
      → Bool
      → Bool
      → SchemaStep CtrlResult CtrlResult
  unfolding with_cloud first_run linted apply_now
  apply_by res path cli d hash true first lints = do
    edit_config (review_edit pkg d)
    with_cloud cli (review_edit pkg d) (repo_url pkg d) hash
  apply_by res path cli d hash false true lints = first_run res path cli d hash
  apply_by res path cli d hash false false true = linted res path cli d hash
  apply_by res path cli d hash false false false = apply_now cli d true hash

  -- Whether the resource is connected to Atlas Cloud, by the result of `whoami`. A failure is shown,
  -- and the resource is then taken for one that is not connected.
  unfoldable pub connection : Bool → Result (Unit {0}) → SchemaStep CtrlResult Bool
  unfolding is_require_login result_err
  connection has_config (ok u) = return true
  connection has_config (err e) =
      if is_require_login e
      then (if has_config then result_err api reason_who_am_i e else return false)
      else (do
        change (on_schema (λ m. set_not_ready api m reason_who_am_i (error_text e)))
        return false)

  -- Reconcile behind the hash of the schema.
  unfoldable pub behind_hash :
      SchemaResource pkg srv
      → String
      → SchemaCli
      → ManagedData pkg
      → String
      → SchemaStep CtrlResult CtrlResult
  unfolding connection apply_by should_lint result_err
  behind_hash res path cli d hash = do
    connected ← λ s.
        connection (is_some d.data_config) (cli.who_am_i d.data_vars)
          (record s { commands = who_am_i_command ∷ s.commands })
    lints ←
        handle (result_err api "LintPolicyError")
          (lift (should_lint pkg.hcl srv.parse_bool d.policy d.data_config d.env_name))
    apply_by res path cli d hash connected (res.stored.status.last_applied == 0) lints

  -- A resource that is ready and has a new hash is first shown to reconcile.
  unfoldable pub accept_hash : Bool → SchemaStep CtrlResult (Unit {0})
  unfolding set_reconciling
  accept_hash true = do
    change (on_schema (λ m. set_reconciling api m "current schema does not match last applied"))
    fail requeue_now
  accept_hash false = return tt

  -- Reconcile behind the data and their dev database.
  unfoldable pub behind_data :
      SchemaResource pkg srv → ManagedData pkg → SchemaStep CtrlResult CtrlResult
  unfolding log_in accept_hash behind_hash result_err is_ready is_hash_modified
  behind_data res d = do
    path ←
        handle (result_err api reason_creating_working_dir)
          (issue make_working_dir (srv.new_working_dir d))
    cli ← handle (result_err api reason_creating_atlas_client) (new_client api pkg srv res path d)
    handle (result_err api reason_login) (log_in api pkg srv cli d.data_cloud)
    hash ← handle (result_err api "CalculatingHash") (
        issue inspect_command
          (cli.schema_inspect d.env_name (target_of api pkg srv d) "{{ .Hash }}" d.data_vars))
    accept_hash (is_ready api res.stored && is_hash_modified res.stored hash)
    behind_hash res path cli d hash

  -- Whether a dev database is spun up for a target URL.
  abbrev pub needs_dev_db : SchemaResource pkg srv → ManagedData pkg → Bool
  needs_dev_db res d =
      elim res.dev_db_config [ none ↦ false | some c ↦ srv.dev_db.has_pod_spec c ]
      || not (has_dev_url pkg.hcl d.data_dev_url d.data_config d.env_name)

  spin_up : SchemaResource pkg srv → ManagedData pkg → Url → SchemaStep CtrlResult (ManagedData pkg)
  unfolding result_pending
  spin_up res d url = do
    let (events, found) = srv.dev_db.dev_url res.stored url res.dev_db_config d.data_dev_url
    record_all events
    dev ←
        handle (λ e. result_pending api now reason_getting_dev_db (error_text e))
          (issue (dev_url_command d.data_dev_url) found)
    return (record d { data_dev_url = dev })

  dev_db_for :
      SchemaResource pkg srv
      → ManagedData pkg
      → Option Url
      → Bool
      → SchemaStep CtrlResult (ManagedData pkg)
  unfolding spin_up
  dev_db_for res d none needed = return d
  dev_db_for res d (some url) true = spin_up res d url
  dev_db_for res d (some url) false = return d

  -- Reconcile, from the data on.
  unfoldable pub reconcile : SchemaResource pkg srv → SchemaStep CtrlResult CtrlResult
  unfolding extract_data dev_db_for behind_data result_err has_targets
  reconcile res = do
    d ←
        handle (result_err api "ReadSchema")
          (lift (extract_data pkg srv res.stored.namespace res.spec))
    handle (result_err api "ReadSchema") (
        lift (
          guard (not (has_targets pkg.hcl d.data_config d.env_name))
            (plain "multiple targets are not supported")))
    d' ← dev_db_for res d d.url (needs_dev_db res d)
    behind_data res d'

  -- A reconciliation begins with the resource and the tracker, without events and commands.
  abbrev pub start : SchemaResource pkg srv → PendingTracker → SchemaState
  start res t = record {
    resource = record { schema = res.stored; pending = t };
    events = [];
    commands = [];
  }

  -- What a reconciliation returns: none where it panics.
  abbrev pub returned_by : Flow CtrlResult CtrlResult → Option CtrlResult
  returned_by (returns r) = some r
  returned_by (fails r) = some r
  returned_by panics = none

  -- Reconcile of a resource that was read; one that is new is first shown to reconcile.
  unfoldable pub visit : SchemaResource pkg srv → PendingTracker → SchemaState × Option CtrlResult
  unfolding reconcile set_reconciling
  visit res t =
      if is_empty res.stored.status.conditions
      then (
        record (start res t) {
          resource = record { schema = set_reconciling api res.stored "Reconciling"; pending = t };
        },
        some requeue_now,
      )
      else (let (s, f) = reconcile res (start res t) in (s, returned_by f))

  -- The plan of the resource waits for approval.
  abbrev pub is_waiting : Option Condition → Bool
  is_waiting none = false
  is_waiting (some c) = str_eq c.reason reason_approval_pending

  -- The tracker behind a reconciliation.
  unfoldable pub tracked : Tracked → PendingTracker
  unfolding reset
  tracked t =
      if is_waiting (api.find_status_condition t.schema.status.conditions ready_cond)
      then t.pending
      else reset t.pending (name_of t.schema)

  -- watchRefs
  unfoldable pub watch_refs : SchemaResource pkg srv → Watchers → Watchers
  unfolding watch_ref watch_key
  watch_refs res w =
      let ns = res.stored.namespace in
      let dependent = name_of res.stored in
      let for_token = watch_key ns res.spec.spec_cloud.token_from dependent w.secrets in
      let for_url = watch_key ns res.spec.target.url_from dependent for_token in
      let for_password = watch_key ns res.spec.target.credentials.password_from dependent for_url in
      record {
        config_maps = watch_key ns res.spec.source.config_map_key_ref dependent w.config_maps;
        secrets = watch_key ns res.spec.dev_url_from dependent for_password;
      }

  -- What Reconcile leaves: the status to store, the tracker, the events, the commands, the
  -- watchers, and the result, which is none where it panics.
  pub record SchemaOutcome : Type 0 where
    pub updated : Option AtlasSchema
    pub tracker : PendingTracker
    pub recorded : List RecordedEvent
    pub issued : List SchemaCommand
    pub watchers : Watchers
    pub returned : Option (Result CtrlResult)

  -- Reconcile, by the result of reading the resource of a name.
  unfoldable pub reconcile_request :
      Name → Result (SchemaResource pkg srv) → PendingTracker → Watchers → SchemaOutcome
  unfolding visit tracked watch_refs is_ready is_not_found reset
  reconcile_request n (ok res) t w =
      let (s, r) = visit res t in
      record {
        updated = some s.resource.schema;
        tracker = tracked s.resource;
        recorded =
            s.events
            ++ (if is_ready api s.resource.schema
                then srv.dev_db.clean_up s.resource.schema
                else []);
        issued = s.commands;
        watchers = watch_refs res w;
        returned = elim r [ none ↦ none | some c ↦ some (ok c) ];
      }
  reconcile_request n (err e) t w = record {
    updated = none;
    tracker = if is_not_found e then reset t n else t;
    recorded = [];
    issued = [];
    watchers = w;
    returned = some (if is_not_found e then ok no_requeue else err e);
  }
