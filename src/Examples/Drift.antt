-- ===== src/Examples/Drift.antt =====
-- The drift checks.
use atlas_operator.Prelude.{ℕ, ◌<◌, ◌≤◌, ◌*◌, arith, ◌≡◌, refl, [], none, some, pos, false}
use atlas_operator.Errors.{ok, err, plain, after, is_not_found}
use atlas_operator.DriftStatus.Outcome.{SameResult}
use atlas_operator.DriftCheck.{
  DriftServices, DriftResource, reconcile_check, record_transitions, run, load_target,
}
use atlas_operator.DriftCheck.Runs.{IsDelay, reconcile_check-kept, reconcile_check-IsDelay}
use atlas_operator.DriftCheck.Transitions.{record_transitions-same}
use atlas_operator.Examples.Samples.{plain_api, plain_packages, plain_reader}

-- Services of a cluster without migrations.
abbrev services : DriftServices plain_packages
services = record {
  reader = plain_reader;
  get_migration = λ ns name. err (plain "the server is down");
  new_working_dir = λ d. ok "/tmp";
  atlas_client = λ path cloud home. err (plain "no client");
  jitter = λ d. d;
  allow_custom_config = false;
}

abbrev resource : DriftResource
resource = record {
  check_name = "app";
  check_namespace = "prod";
  check_spec = record {
    target_name = "app";
    interval = 0;
    timeout = 0;
    on_drift = none;
    exclude = [];
    suspend = false;
  };
  check = record {
    generation = pos 1;
    status = record {
      observed_generation = pos 1;
      conditions = [];
      version = "v1";
      fingerprint = "f";
      mode = "";
      summary = none;
      last_check_time = some 5;
    };
  };
}

no_target : run plain_api plain_packages services 7 resource ≡ err (plain "the server is down")
unfolding run load_target is_not_found
no_target = refl

reconcile_check-kept_example :
    SameResult
      (reconcile_check plain_api plain_packages services 7 resource).0.status
      resource.check.status
reconcile_check-kept_example =
    reconcile_check-kept plain_api plain_packages services 7 resource (plain "the server is down")
      no_target

reconcile_check-IsDelay_example :
    (w d : ℕ) × ((reconcile_check plain_api plain_packages services 7 resource).1 ≡ after w)
    × (0 < w)
    × ((d ≤ w) × (w * 10 ≤ d * 11))
    × IsDelay plain_api plain_packages services resource
        (run plain_api plain_packages services 7 resource)
        d
reconcile_check-IsDelay_example =
    reconcile_check-IsDelay plain_api plain_packages services 7 resource
      (λ d. (omega arith, omega arith)) refl

record_transitions-same_example :
    record_transitions plain_api resource.check.status resource.check.status ≡ []
record_transitions-same_example = record_transitions-same plain_api resource.check.status
