-- ===== src/ScanDue/Attempt.antt =====
-- The end of an attempt to scan, and when the controller wakes
-- (internal/controller/atlassecurityscan_controller.go).
use atlas_operator.Prelude.{
  ℕ, suc, ◌-◌, Bool, true, false, ◌&&◌, String, List, [], ◌∷◌, ◌++◌, Option, none, some, ltb,
  decimal, str_eq, concat, if◌then◌else◌,
}
use atlas_operator.Conditions.{ConditionApi, cond_unknown}
use atlas_operator.Reason.{reason_backoff_limit_exceeded, reason_report_stale}
use atlas_operator.Errors.{CtrlResult, no_requeue, after, second, backoff_delay_at}
use atlas_operator.ScanStatus.{
  AtlasSecurityScan, IgnoredVulnerability, ScanResult, scan_failed, set_compliant, set_stalled,
  set_retrying, is_stalled, backoff_limit,
}
use atlas_operator.ScanDue.Calendar.{Schedule}
use atlas_operator.ScanDue.Due.{ScanSnapshot, ignored, is_none}

-- closeAttempt
unfoldable pub close_attempt : AtlasSecurityScan → ℕ → ScanResult → String → AtlasSecurityScan
close_attempt res at r msg = elim res.status.last_scan as (λ x. AtlasSecurityScan) [
  | none ↦ res
  | some a ↦ record res {
    status = record res.status {
      last_scan = some (record a { completion_time = some at; attempt_result = r; message = msg });
    };
  }
]

-- closeOpenAttempt
unfoldable pub close_open_attempt : AtlasSecurityScan → ℕ → String → AtlasSecurityScan
unfolding close_attempt
close_open_attempt res at msg = elim res.status.last_scan as (λ x. AtlasSecurityScan) [
  | none ↦ res
  | some a ↦ if is_none a.completion_time then close_attempt res at scan_failed msg else res
]

-- The waits of wake: the next slot, the waivers that expire, and the retry.
unfoldable pub slot_wait : Option Schedule → ℕ → List ℕ
slot_wait none now = []
slot_wait (some next) now = elim (next now) [ none ↦ [] | some n ↦ (n - now) ∷ [] ]

unfoldable pub expiry_waits : List IgnoredVulnerability → ℕ → List ℕ
expiry_waits [] now = []
expiry_waits (w ∷ ws) now =
    let rest = expiry_waits ws now in
    elim w.expiration_time [ none ↦ rest | some t ↦ if ltb now t then (t - now) ∷ rest else rest ]

abbrev pub retry_wait : ℕ → List ℕ
retry_wait retry = if ltb 0 retry then retry ∷ [] else []

unfoldable pub waits_of : AtlasSecurityScan → Option Schedule → ℕ → ℕ → List ℕ
unfolding slot_wait expiry_waits
waits_of res sched now retry =
    slot_wait sched now ++ (expiry_waits (ignored res.spec.policy) now ++ retry_wait retry)

abbrev pub min_of : ℕ → List ℕ → ℕ
min_of a [] = a
min_of a (b ∷ bs) = min_of (if ltb b a then b else a) bs

abbrev pub wake_at : List ℕ → CtrlResult
wake_at [] = no_requeue
wake_at (w ∷ ws) = let m = min_of w ws in after (if ltb m second then second else m)

-- wake
unfoldable pub wake : AtlasSecurityScan → Option Schedule → ℕ → ℕ → CtrlResult
unfolding waits_of
wake res sched now retry = wake_at (waits_of res sched now retry)

-- The fixed text of a failure class, which is empty for a reason that the map lacks.
abbrev failure_class : String → String
failure_class reason =
    if str_eq reason "ScanFailed"
    then "the database could not be scanned"
    else if str_eq reason "LoginFailed"
    then "Atlas Cloud login failed"
    else if str_eq reason "CLIError"
    then "the Atlas CLI failed before producing a report"
    else if str_eq reason "ReadingInputs"
    then "the scan inputs could not be read"
    else if str_eq reason "StoringReport"
    then "the report could not be stored"
    else ""

-- failureText
unfoldable pub failure_text : String → ℕ → ℕ → String
failure_text reason failed limit =
    if ltb 0 limit
    then concat (
        failure_class reason
        ∷ "; attempt "
        ∷ decimal failed
        ∷ " of "
        ∷ decimal limit
        ∷ "; see the operator log"
        ∷ [])
    else concat
        (failure_class reason ∷ "; attempt " ∷ decimal failed ∷ "; see the operator log" ∷ [])

abbrev pub exceeded_text : String
exceeded_text =
    "backoff limit exceeded; one attempt per new slot, apply, request, spec change or waiver expiry"

-- A Warning event: its reason and its message.
abbrev pub Warning : Type 0
Warning = String × String

module _ (api : ConditionApi) where
  -- The count and the end of the attempt, which begin fail.
  unfoldable pub count_failure : AtlasSecurityScan → ℕ → String → AtlasSecurityScan
  unfolding close_attempt failure_text backoff_limit
  count_failure res at reason =
      let counted = record res { status = record res.status { failed = suc res.status.failed } } in
      close_attempt counted at scan_failed
        (failure_text reason counted.status.failed (backoff_limit res))

  -- The branches of fail: already stalled by the limit, now beyond it, or to be retried.
  unfoldable pub fail_branch :
      Bool
      → Bool
      → AtlasSecurityScan
      → Option Schedule
      → ScanSnapshot
      → String
      → String
      → AtlasSecurityScan × List Warning × CtrlResult
  unfolding set_stalled set_compliant set_retrying wake backoff_delay_at
  fail_branch true exceeded closed sched snap reason msg =
      (closed, [], wake closed sched snap.start 0)
  fail_branch false true closed sched snap reason msg = (
    set_compliant api (set_stalled api closed reason_backoff_limit_exceeded exceeded_text)
        cond_unknown reason_report_stale
        "retries exhausted; the last report may no longer reflect the database",
    (reason_backoff_limit_exceeded, exceeded_text) ∷ [],
    wake closed sched snap.start 0,
  )
  fail_branch false false closed sched snap reason msg = (
    set_retrying api closed reason msg,
    (reason, msg) ∷ [],
    wake closed sched snap.start (backoff_delay_at closed.status.failed),
  )

  -- fail, at the instant that the clock gives for the end of the attempt.
  unfoldable pub fail_attempt :
      AtlasSecurityScan
      → Option Schedule
      → ScanSnapshot
      → ℕ
      → String
      → AtlasSecurityScan × List Warning × CtrlResult
  unfolding count_failure is_stalled fail_branch
  fail_attempt res sched snap at reason =
      let failed = suc res.status.failed in
      let limit = backoff_limit res in
      let closed = count_failure res at reason in
      fail_branch (is_stalled api closed reason_backoff_limit_exceeded)
        (ltb 0 limit && ltb limit failed) closed sched snap reason
        (failure_text reason failed limit)

  -- stall
  unfoldable pub stall_attempt :
      AtlasSecurityScan
      → Option Schedule
      → ScanSnapshot
      → ℕ
      → String
      → String
      → AtlasSecurityScan × List Warning × CtrlResult
  unfolding close_attempt set_stalled wake
  stall_attempt res sched snap at reason message =
      let closed = close_attempt res at scan_failed message in
      (
        set_stalled api closed reason message,
        (reason, message) ∷ [],
        wake closed sched snap.start 0,
      )
