-- ===== src/Lib.antt =====
-- The Atlas operator keeps databases in the state that Kubernetes resources describe. This library
-- models the core of it: the statuses of its four kinds of resources, the inputs that its
-- controllers read, the runs of schemas, migrations and drift checks, the dev databases, the
-- scheduling of security scans, and the bookkeeping that the controllers share.
--
-- Parts and files, with paths from the root of the repository:
--
--   Conditions, Reason, Phase    conditions of a status and their reasons (api/v1alpha1/reason.go,
--                                and setCondition of each kind). `ConditionApi` is the interface of
--                                apimachinery's functions on conditions.
--   SchemaStatus                 AtlasSchema and SetReconciling, SetReady, SetNotReady ...
--                                (api/v1alpha1/atlasschema_types.go)
--   MigrationStatus              AtlasMigration (api/v1alpha1/atlasmigration_types.go)
--   DriftStatus                  AtlasDriftCheck (api/v1alpha1/atlasdriftcheck_types.go)
--   ScanStatus                   AtlasSecurityScan (api/v1alpha1/atlassecurityscan_types.go)
--   Errors                       the error types, `result` and `backoffDelayAt`
--                                (internal/controller/common.go, lint.go)
--   Cluster                      Secrets and ConfigMaps (internal/controller/common.go,
--                                api/v1alpha1/target.go)
--   Target                       drivers and the URL of a target (api/v1alpha1/target.go)
--   Hcl                          searches in a configuration (internal/controller/common.go)
--   ProjectConfig                the configuration and the variables (api/v1alpha1/project_config.go)
--   MigrationData                extractMigrationData, hashMigrationData, readDirState
--                                (internal/controller/atlasmigration_controller.go)
--   DriftCheck                   Reconcile of drift checks, from loading the target to the events
--                                (internal/controller/atlasdriftcheck_controller.go)
--   Recorder, Actions            events, and steps of a run that may fail or panic
--   MigrationRun                 Reconcile of migrations: Resources is what it reads and calls, Steps
--                                the methods of migrationRun, Protocol the order that Refines, Changes,
--                                Order and Deployments show of their commands
--                                (internal/controller/atlasmigration_controller.go)
--   SchemaRun                    Reconcile of schemas: Policies, Resources and Inputs are what it reads
--                                and calls, Steps and SchemaRun the cases, Connection, Reviews and
--                                Destructive what holds of them
--                                (internal/controller/atlasschema_controller.go, lint.go,
--                                api/v1alpha1/atlasschema_types.go)
--   DevDb                        devURL and its deployment; Automatic is AutomaticDevDBSpec, CleanUp
--                                cleanUp, Outcomes and Templates what holds of them, Interface what
--                                the runs call
--                                (internal/controller/devdb.go)
--   ScanDue                      dueCheck, the slots of a schedule, fail, stall, wake and the commit
--                                of a scan (internal/controller/atlassecurityscan_controller.go)
--   ScanInputs                   validate of security scans (the same file)
--   ScanGrade                    grade, verdictOf, readyMessage and truncate (the same file)
--   Pending                      pendingTracker (internal/controller/common.go)
--   Watch                        ResourceWatcher (internal/controller/watch/watch.go)
--   NameMap, Prelude             maps by name, texts, numbers and lists
--   Examples                     the theorems at concrete inputs
--
-- A run passes its state, the resource with its events and the commands it gives to the CLI and the
-- cluster, through its steps; the dev databases are an interface of the runs of schemas and
-- migrations.
-- The controllers call the setters of a status, which the API server stores; DriftCheck reads the
-- AtlasMigration that it checks with MigrationData and shows the outcome by the setters of
-- DriftStatus, and ScanDue does so with ScanStatus. A watcher turns changes of Secrets and
-- ConfigMaps into requests for the resources that use them. A method with a pointer receiver is a
-- function that returns the new object. An error is a value of `GoError`, and a function that may
-- fail returns a `Result`.
--
-- Bounds: an instant and a duration are natural numbers of nanoseconds. The delay of the pending
-- tracker has fuel for the seven rounds that its loop can make, and `Pending.Delay.doubled-ends`
-- shows that the loop ends within them. The searches for slots count the steps that the source caps at
-- 100,000. The counters of failures and of findings do not wrap; `backoffDelayAt` does, at 64 bits.
--
-- Parameters: the client of the API server, the Atlas CLI, net/url, the HCL library, SHA-256, the
-- directories of the Atlas SDK (with memDir, which only fills one), strings.ToUpper, the cron library, the clock and
-- the jitter. What is relied on of them is a hypothesis of the theorem or a law of the interface.
--
-- Not modelled: the editing and rendering of configurations, the body of Reconcile of security scans
-- with its snapshot, custom policy and report, the version check, start-up, generated code and logging. Of the containers of automatic dev databases the constant
-- settings, such as the startup probe's intervals, are left out. A configuration is a value here:
-- rendering relabels env blocks of it in place before later searches, which is left out, too.
pub mod Prelude
pub mod Conditions
pub mod Reason
pub mod Recorder
pub mod Phase
pub mod SchemaStatus
pub mod MigrationStatus
pub mod DriftStatus
pub mod ScanStatus
pub mod Errors
pub mod Cluster
pub mod Target
pub mod Hcl
pub mod ProjectConfig
pub mod MigrationData
pub mod DriftCheck
pub mod Actions
pub mod MigrationRun
pub mod SchemaRun
pub mod DevDb
pub mod ScanDue
pub mod ScanInputs
pub mod ScanGrade
pub mod NameMap
pub mod Pending
pub mod Watch
mod Examples
