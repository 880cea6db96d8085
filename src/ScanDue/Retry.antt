-- ===== src/ScanDue/Retry.antt =====
-- What a failed attempt leaves due, and when the controller wakes
-- (internal/controller/atlassecurityscan_controller.go).
use atlas_operator.Prelude.{ℕ, suc, ◌≡◌, refl, Bool, true, false, String, Option, none, some}
use atlas_operator.Conditions.{ConditionApi, ConditionStatus}
use atlas_operator.Reason.{reason_backoff_limit_exceeded}
use atlas_operator.ScanStatus.{
  AtlasSecurityScan, ScanStatus, ScanAttempt, set_stalled, set_retrying, set_compliant,
}
use atlas_operator.ScanDue.{
  Schedule, ScanSnapshot, fail_attempt, fail_branch, exceeded_text, count_failure, close_attempt,
}

-- Two statuses hold the same watermarks and results of the last successful scan.
pub record SameWatermarks (a b : ScanStatus) : Type 0 where
  pub same_success : a.last_successful_time ≡ b.last_successful_time
  pub same_schedule : a.last_schedule_time ≡ b.last_schedule_time
  pub same_request : a.last_handled_scan_request ≡ b.last_handled_scan_request
  pub same_triggers : a.triggers ≡ b.triggers
  pub same_waivers : a.active_waivers ≡ b.active_waivers
  pub same_summary : a.summary ≡ b.summary
  pub same_report : a.report_ref ≡ b.report_ref

-- An attempt that failed on the resource left it in this state.
abbrev pub FailedOnce : AtlasSecurityScan → AtlasSecurityScan → Type 0
FailedOnce res c = SameWatermarks c.status res.status × (c.status.failed ≡ suc res.status.failed)

module _ (api : ConditionApi) where
  count_failure-Same :
      (res : AtlasSecurityScan) (at : ℕ) (reason : String)
      → FailedOnce res (count_failure api res at reason)
  unfolding count_failure close_attempt
  count_failure-Same res at reason = view res.status.last_scan refl
    where
      view :
          (a : Option ScanAttempt)
          → res.status.last_scan ≡ a
          → FailedOnce res (count_failure api res at reason)
      view none e = (
        record {
          same_success = simp e;
          same_schedule = simp e;
          same_request = simp e;
          same_triggers = simp e;
          same_waivers = simp e;
          same_summary = simp e;
          same_report = simp e;
        },
        simp e,
      )
      view (some a) e = (
        record {
          same_success = simp e;
          same_schedule = simp e;
          same_request = simp e;
          same_triggers = simp e;
          same_waivers = simp e;
          same_summary = simp e;
          same_report = simp e;
        },
        simp e,
      )

  -- The setters of conditions keep all this.
  stalled-Once :
      (res c : AtlasSecurityScan) (reason message : String)
      → FailedOnce res c
      → FailedOnce res (set_stalled api c reason message)
  unfolding set_stalled
  stalled-Once res c reason message (h, n) = (
    record {
      same_success = h.same_success;
      same_schedule = h.same_schedule;
      same_request = h.same_request;
      same_triggers = h.same_triggers;
      same_waivers = h.same_waivers;
      same_summary = h.same_summary;
      same_report = h.same_report;
    },
    n,
  )

  retrying-Once :
      (res c : AtlasSecurityScan) (reason message : String)
      → FailedOnce res c
      → FailedOnce res (set_retrying api c reason message)
  unfolding set_retrying
  retrying-Once res c reason message (h, n) = (
    record {
      same_success = h.same_success;
      same_schedule = h.same_schedule;
      same_request = h.same_request;
      same_triggers = h.same_triggers;
      same_waivers = h.same_waivers;
      same_summary = h.same_summary;
      same_report = h.same_report;
    },
    n,
  )

  compliant-Once :
      (res c : AtlasSecurityScan) (status : ConditionStatus) (reason message : String)
      → FailedOnce res c
      → FailedOnce res (set_compliant api c status reason message)
  unfolding set_compliant
  compliant-Once res c status reason message (h, n) = (
    record {
      same_success = h.same_success;
      same_schedule = h.same_schedule;
      same_request = h.same_request;
      same_triggers = h.same_triggers;
      same_waivers = h.same_waivers;
      same_summary = h.same_summary;
      same_report = h.same_report;
    },
    n,
  )

  branch-Once :
      (stalled exceeded : Bool) (res closed : AtlasSecurityScan) (sched : Option Schedule)
      (snap : ScanSnapshot) (reason msg : String)
      → FailedOnce res closed
      → FailedOnce res (fail_branch api stalled exceeded closed sched snap reason msg).0
  unfolding fail_branch
  branch-Once true exceeded res closed sched snap reason msg h = h
  branch-Once false true res closed sched snap reason msg h =
      compliant-Once res (set_stalled api closed reason_backoff_limit_exceeded exceeded_text) _ _ _
        (stalled-Once res closed _ _ h)
  branch-Once false false res closed sched snap reason msg h = retrying-Once res closed _ _ h

  -- A failed attempt is counted once, and whether it is retried or stalls it leaves what the last
  -- successful scan recorded as it was: the times of the success and of the slot, the request, the
  -- triggers, the waivers, the summary and the report.
  pub fail_attempt-FailedOnce :
      (res : AtlasSecurityScan) (sched : Option Schedule) (snap : ScanSnapshot) (at : ℕ)
      (reason : String)
      → FailedOnce res (fail_attempt api res sched snap at reason).0
  unfolding fail_attempt
  fail_attempt-FailedOnce res sched snap at reason =
      branch-Once _ _ res (count_failure api res at reason) sched snap reason _
        (count_failure-Same res at reason)
