-- ===== src/ScanDue.antt =====
-- The scheduling of security scans (internal/controller/atlassecurityscan_controller.go): the slots
-- of a schedule, what a scan is due for, the end of an attempt and, here, the commit of a scan that
-- succeeded. The cron library is a parameter: a schedule is its method Next, which gives none for
-- the zero time. An instant and a duration are numbers of nanoseconds.
pub mod Calendar
pub mod Due
pub mod Attempt
pub mod Slots
pub mod Commit
pub mod Retry
pub mod Wake
use atlas_operator.Prelude.{
  ℕ, zero, suc, ◌+◌, ◌-◌, Bool, true, false, not, ◌&&◌, ◌||◌, String, List, [], ◌∷◌, ◌++◌, Option,
  none, some, ltb, ℤ, pos, negsuc, int_eq, decimal, str_eq, concat, join, find_func, is_empty,
  equal, sort_text, if◌then◌else◌,
}
use atlas_operator.Conditions.{ConditionApi, ConditionStatus, cond_unknown}
use atlas_operator.Reason.{reason_backoff_limit_exceeded, reason_report_stale}
use atlas_operator.Errors.{CtrlResult, no_requeue, after, second, backoff_delay_at}
use atlas_operator.ScanStatus.{
  AtlasSecurityScan, ScanTrigger, trigger_spec, trigger_manual, trigger_apply, trigger_schedule,
  trigger_policy, no_trigger, ScanTriggerKind, schema_kind, migration_kind, other_kind, ScanPolicy,
  IgnoredVulnerability, ScanResult, scan_failed, scan_succeeded, ScanAttempt, ObservedTrigger,
  ScanSummary, ScanStatus, set_scanned, set_compliant, set_stalled, set_retrying, is_stalled,
  backoff_limit,
}
unfoldable pub use Calendar.*
unfoldable pub use Due.*
unfoldable pub use Attempt.*

module _ (api : ConditionApi) where
  -- What Reconcile writes to the status behind a stored report: the watermarks of the snapshot, the
  -- end of the attempt, and the conditions.
  unfoldable pub commit :
      AtlasSecurityScan
      → Option Schedule
      → ScanSnapshot
      → ℕ
      → ℕ
      → ScanSummary
      → String
      → ConditionStatus
      → String
      → String
      → AtlasSecurityScan
  unfolding close_attempt covered_slot next_schedule set_scanned set_compliant
  commit res sched snap now completion summary rmsg verdict reason vmsg =
      let slot = or_else (covered_slot sched res now completion) snap.slot in
      let marked = record res {
        status = record res.status {
          last_handled_scan_request = snap.requested_at;
          triggers = snap.observed;
          active_waivers = snap.waivers;
          last_schedule_time = next_anchor sched slot res.status.last_schedule_time;
        };
      } in
      let closed = close_attempt marked completion scan_succeeded "" in
      let timed = record closed {
        status = record closed.status { last_successful_time = some completion };
      } in
      let filled = record timed {
        status = record timed.status {
          next_schedule_time = next_schedule sched (anchor timed now);
          summary = some summary;
          report_ref = some res.name;
        };
      } in
      set_compliant api (set_scanned api filled rmsg) verdict reason vmsg
