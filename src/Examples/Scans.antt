-- ===== src/Examples/Scans.antt =====
-- The security scans.
use atlas_operator.Prelude.{
  ◌+◌, ◌*◌, ◌≡◌, refl, List, [], ◌∷◌, none, some, pos, arith, true, false, decimal, str_eq,
}
use atlas_operator.Conditions.{cond_true}
use atlas_operator.Errors.{ok, second}
use atlas_operator.ScanStatus.{
  AtlasSecurityScan, ScanSummary, ObservedTrigger, schema_kind, migration_kind, no_trigger,
  trigger_manual, no_result,
}
use atlas_operator.ScanDue.{
  Schedule, ScanSnapshot, commit, due_check, slot_of, active_waivers, fail_attempt,
  latest_slot_at_or_before, is_after, wake,
}
use atlas_operator.ScanDue.Slots.{Increasing, latest_slot_at_or_before_mono}
use atlas_operator.ScanDue.Commit.{commit-due_check}
use atlas_operator.ScanDue.Retry.{FailedOnce, fail_attempt-FailedOnce}
use atlas_operator.ScanDue.Wake.{WakesFor, Awaits, wake-WakesFor}
use atlas_operator.ScanInputs.{CronApi, ScanInputs, validate, parse_schedule, fires, check_target}
use atlas_operator.ScanInputs.Validity.{Schedules, Usable, validate-Outcome}
use atlas_operator.Examples.Samples.{plain_api}

-- A slot every ten instants behind the last.
abbrev every_ten : Schedule
every_ten t = some (t + 10)

every_ten-Increasing : Increasing every_ten
every_ten-Increasing t u h = omega (arith, later)
  where
    later : t + 10 ≡ u
    later = cc

abbrev scan : AtlasSecurityScan
scan = record {
  name = "weekly";
  namespace = "prod";
  generation = pos 2;
  creation_timestamp = some 5;
  scan_requested_at = "now";
  spec = record {
    schedule = "* * * * *";
    time_zone = "";
    triggers = [];
    suspend = none;
    policy = some (record {
      min_severity = none;
      fail_on = none;
      ignore =
          record { id = "CVE-2"; waiver_reason = ""; expiration_time = none }
          ∷ record { id = "CVE-1"; waiver_reason = ""; expiration_time = some 90 }
          ∷ [];
    });
    backoff_limit = none;
  };
  status = record {
    observed_generation = pos 1;
    conditions = [];
    last_scan = some (record {
      trigger = trigger_manual;
      triggered_by = "now";
      start_time = 31;
      completion_time = none;
      attempt_result = no_result;
      message = "";
      inputs_hash = "";
    });
    last_successful_time = some 6;
    last_schedule_time = none;
    next_schedule_time = none;
    last_handled_scan_request = "";
    triggers = [];
    active_waivers = [];
    summary = none;
    report_ref = none;
    failed = 1;
  };
}

abbrev observed : List ObservedTrigger
observed =
    record { kind = schema_kind; name = "app"; uid = "1"; revision = "a" }
    ∷ record { kind = migration_kind; name = "app"; uid = "2"; revision = "b" }
    ∷ []

abbrev snapshot : ScanSnapshot
snapshot = record {
  start = 31;
  requested_at = "now";
  observed = observed;
  slot = slot_of (some every_ten) scan 31;
  waivers = active_waivers scan 31;
}

abbrev no_findings : ScanSummary
no_findings = record {
  driver = "mysql";
  extensions = 0;
  total = 0;
  waived = 0;
  highest_level = none;
  levels = [];
}

commit-due_check_example :
    due_check decimal
      (commit plain_api scan
        (some every_ten)
        snapshot
        31
        45
        no_findings
        "no findings"
        cond_true
        "WithinPolicy"
        "ok")
      snapshot
    ≡ (no_trigger, "")
commit-due_check_example =
    commit-due_check plain_api scan (some every_ten) snapshot 31 45 no_findings "no findings"
      cond_true "WithinPolicy" "ok" decimal every_ten-Increasing (omega arith) refl refl refl

fail_attempt-FailedOnce_example :
    FailedOnce scan (fail_attempt plain_api scan (some every_ten) snapshot 40 "ScanFailed").0
fail_attempt-FailedOnce_example =
    fail_attempt-FailedOnce plain_api scan (some every_ten) snapshot 40 "ScanFailed"

latest_slot_at_or_before_mono_example :
    is_after (latest_slot_at_or_before every_ten 6 31) (latest_slot_at_or_before every_ten 6 45)
    ≡ false
latest_slot_at_or_before_mono_example =
    latest_slot_at_or_before_mono every_ten 6 31 45 every_ten-Increasing (omega arith)

wake-WakesFor_example :
    WakesFor
      (Awaits scan (some every_ten) 31 (5 * second))
      31
      (wake scan (some every_ten) 31 (5 * second))
wake-WakesFor_example = wake-WakesFor scan (some every_ten) 31 (5 * second)

-- A library that knows one zone, and reads every schedule alike.
abbrev cron : CronApi
cron = record { is_location = λ tz. str_eq tz "UTC"; parse_standard = λ text. ok every_ten }

abbrev inputs : ScanInputs
inputs = record {
  input_schedule = "0 * * * *";
  input_time_zone = "";
  target = record {
    url = "";
    url_from = none;
    credentials = record {
      scheme = "";
      user = "";
      user_from = none;
      password = "";
      password_from = none;
      host = "";
      host_from = none;
      port = pos 0;
      database = "";
      parameters = [];
    };
  };
  project = record { config = "env {}"; config_from = none; env_name = "prod"; vars = [] };
}

validate-Outcome_example :
    (Schedules cron "UTC" "0 * * * *" 31 (some every_ten) × (cron.is_location "UTC" ≡ true))
    × Usable true inputs
unfolding validate parse_schedule fires check_target
validate-Outcome_example = validate-Outcome cron true inputs 31
