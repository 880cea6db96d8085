-- ===== src/Examples/Status.antt =====
-- The statuses of schemas, migrations and drift checks.
use atlas_operator.Prelude.{◌≡◌, String, List, [], ◌∷◌, none, some, pos, negsuc}
use atlas_operator.Phase.{InPhase, stalled}
use atlas_operator.Reason.{is_failed_reason}
use atlas_operator.SchemaStatus.{AtlasSchema}
use atlas_operator.SchemaStatus.Machine.{apply_calls, reconciling, not_ready, apply_calls-InPhase}
use atlas_operator.MigrationStatus.{AtlasMigration}
use atlas_operator.MigrationStatus.Machine as MM
use atlas_operator.DriftStatus.{AtlasDriftCheck}
use atlas_operator.Examples.Samples.{plain_api}

abbrev schema : AtlasSchema
schema = record {
  name = "app";
  namespace = "prod";
  generation = pos 4;
  prewarm_dev_db = none;
  backoff_limit = pos 1;
  status = record {
    observed_generation = pos 3;
    conditions = [];
    observed_hash = "";
    last_applied = 0;
    plan_url = "";
    plan_link = "";
    failed = 0;
  };
}

abbrev failures : List (String × String)
failures = ("Migrating", "no") ∷ ("Migrating", "no") ∷ []

apply_calls-InPhase_example :
    InPhase plain_api
      (apply_calls plain_api schema
        (reconciling "go" ∷ not_ready "Migrating" "no" ∷ [])).status.conditions
      stalled
      "Migrating"
      (pos 4)
    × ((apply_calls plain_api schema
          (reconciling "go" ∷ not_ready "Migrating" "no" ∷ [])).status.failed
        ≡ 1)
unfolding is_failed_reason
apply_calls-InPhase_example =
    apply_calls-InPhase plain_api schema (reconciling "go") (not_ready "Migrating" "no" ∷ [])

abbrev migration : AtlasMigration
migration = record {
  name = "app";
  namespace = "prod";
  generation = pos 4;
  prewarm_dev_db = none;
  backoff_limit = negsuc 0;
  status = record {
    observed_generation = pos 3;
    conditions = [];
    last_applied_version = "";
    last_deployment_url = "";
    approval_url = "";
    observed_hash = "";
    last_applied = 0;
    failed = 0;
  };
}

calls_in_order-InPhase_example :
    InPhase plain_api
      (MM.apply_calls plain_api migration
        (MM.reconciling "go" ∷ MM.not_ready "Migrating" "no" ∷ [])).status.conditions
      stalled
      "Migrating"
      (pos 4)
    × ((MM.apply_calls plain_api migration
          (MM.reconciling "go" ∷ MM.not_ready "Migrating" "no" ∷ [])).status.failed
        ≡ 1)
unfolding is_failed_reason
calls_in_order-InPhase_example =
    MM.calls_in_order-InPhase plain_api migration (MM.reconciling "go")
      (MM.not_ready "Migrating" "no" ∷ [])

abbrev check : AtlasDriftCheck
check = record {
  generation = pos 2;
  status = record {
    observed_generation = pos 1;
    conditions = [];
    version = "v1";
    fingerprint = "f";
    mode = "";
    summary = none;
    last_check_time = some 5;
  };
}
