-- ===== src/DriftCheck/Runs.antt =====
-- What a reconciliation of a drift check keeps and when the next one comes
-- (internal/controller/atlasdriftcheck_controller.go).
use atlas_operator.Prelude.{
  ℕ, ℤ, ◌≤◌, ◌<◌, ◌*◌, ltb, ◌≡◌, refl, ◌∙◌, ◌⊎◌, inl, inr, Bool, true, false, ◌||◌, List, none,
  arith, if◌then◌else◌, Bool-cases, Option-cases,
}
use atlas_operator.Errors.{
  Result, ok, err, GoError, after, no_requeue, is_target_busy, is_locked, is_deadline_exceeded,
  as_permanent,
}
use atlas_operator.Conditions.{ConditionApi, Condition}
use atlas_operator.MigrationData.{Packages}
use atlas_operator.DriftStatus.{
  AtlasDriftCheck, AtlasDriftCheckStatus, set_check_failed, set_target_not_ready, set_suspended,
}
use atlas_operator.DriftStatus.Outcome.{SameResult}
use atlas_operator.DriftCheck.{
  DriftServices, DriftResource, settle, run, reconcile_check, or_duration, min_duration,
  default_drift_interval, busy_drift_retry, transient_drift_retry, classify_error,
}

module _ (api : ConditionApi) (pkg : Packages) (srv : DriftServices pkg) where
  -- A status that differs at most in its conditions and its generation.
  with_conditions :
      (s : AtlasDriftCheckStatus) (g : ℤ) (cs : List Condition)
      → SameResult (record s { observed_generation = g; conditions = cs }) s
  with_conditions s g cs = record {
    same_version = refl;
    same_fingerprint = refl;
    same_mode = refl;
    same_summary = refl;
    same_last_check_time = refl;
  }

  settle-err :
      (res : DriftResource) (e : GoError)
      → SameResult (settle api pkg srv res (err e)).0.status res.check.status
  unfolding settle set_check_failed set_target_not_ready
  settle-err res e = elim (Bool-cases (is_target_busy e)) [
    | inl busy ↦ rw busy (with_conditions res.check.status _ _)
    | inr idle ↦ elim (Bool-cases (is_locked e)) [
      | inl locked ↦ rw (idle, locked) (with_conditions res.check.status _ _)
      | inr free ↦ elim (Option-cases (as_permanent e)) [
        | inl n ↦ rw (idle, free, n) (with_conditions res.check.status _ _)
        | inr (p, q) ↦ rw (idle, free, q) (with_conditions res.check.status _ _)
      ]
    ]
  ]

  -- Where a check does not come to a report, for whatever error, the reconciliation keeps the
  -- version, the fingerprint, the mode, the summary and the time of the last completed check.
  pub reconcile_check-kept :
      (now : ℕ) (res : DriftResource) (e : GoError)
      → run api pkg srv now res ≡ err e
      → SameResult (reconcile_check api pkg srv now res).0.status res.check.status
  unfolding reconcile_check set_suspended
  reconcile_check-kept now res e failed =
      either_kept res.check_spec.suspend (run api pkg srv now res) (rw failed (settle-err res e))
    where
      either_kept :
          (b : Bool) (r : Result AtlasDriftCheck)
          → SameResult (settle api pkg srv res r).0.status res.check.status
          → SameResult
              (if b
                then (set_suspended api res.check, no_requeue)
                else settle api pkg srv res r).0.status
              res.check.status
      either_kept true r h = with_conditions res.check.status _ _
      either_kept false r h = h

  abbrev pub interval_of : DriftResource → ℕ
  interval_of res = or_duration res.check_spec.interval default_drift_interval

  -- A delay that the controller chooses behind a run: the interval of the resource where the check
  -- came to a report, and else the interval, half a minute, or a minute that is not above the
  -- interval.
  abbrev pub IsDelay : DriftResource → Result AtlasDriftCheck → ℕ → Type 0
  IsDelay res (ok c) d = d ≡ interval_of res
  IsDelay res (err e) d =
      (d ≡ interval_of res)
      ⊎ ((d ≡ busy_drift_retry)
          ⊎ ((d ≡ transient_drift_retry) × (transient_drift_retry ≤ interval_of res)))

  min_cases :
      (a : ℕ) (res : DriftResource)
      → (a ≡ min_duration (interval_of res) transient_drift_retry)
      → (a ≡ interval_of res)
        ⊎ ((a ≡ transient_drift_retry) × (transient_drift_retry ≤ interval_of res))
  min_cases a res h = elim (Bool-cases (ltb (interval_of res) transient_drift_retry)) [
    | inl e ↦ inl (h ∙ rw e refl)
    | inr e ↦ inr (h ∙ rw e refl, ground (arith, e))
  ]

  settle-IsDelay :
      (res : DriftResource) (r : Result AtlasDriftCheck)
      → (d : ℕ) × ((settle api pkg srv res r).1 ≡ after (srv.jitter d)) × IsDelay res r d
  unfolding settle
  settle-IsDelay res (ok c) = (_, refl, refl)
  settle-IsDelay res (err e) = elim (Bool-cases (is_target_busy e)) [
    | inl busy ↦ (busy_drift_retry, rw busy refl, inr (inl refl))
    | inr idle ↦ elim (Bool-cases (is_locked e)) [
      | inl locked ↦ (busy_drift_retry, rw (idle, locked) refl, inr (inl refl))
      | inr free ↦ elim (Option-cases (as_permanent e)) [
        | inl n ↦ (
          min_duration (interval_of res) transient_drift_retry,
          rw (idle, free, n) refl,
          elim (min_cases (min_duration (interval_of res) transient_drift_retry) res refl) [
            | inl h ↦ inl h
            | inr h ↦ inr (inr h)
          ],
        )
        | inr (p, q) ↦ (_, rw (idle, free, q) refl, inl refl)
      ]
    ]
  ]

  IsDelay-positive :
      (res : DriftResource) (r : Result AtlasDriftCheck) (d : ℕ) → IsDelay res r d → 0 < d
  IsDelay-positive res (ok c) d h = ground (arith, h)
  IsDelay-positive res (err e) d h = ground (arith, h)

  -- A check that is not suspended is followed by another one, after a delay that is not zero: the
  -- interval where it came to a report, and else the interval, half a minute, or a minute that is not
  -- above the interval; the jitter, which prolongs by a tenth at most, comes on top.
  pub reconcile_check-IsDelay :
      (now : ℕ) (res : DriftResource)
      → ((d : ℕ) → (d ≤ srv.jitter d) × (srv.jitter d * 10 ≤ d * 11))
      → res.check_spec.suspend ≡ false
      → (w d : ℕ) × ((reconcile_check api pkg srv now res).1 ≡ after w)
        × (0 < w)
        × ((d ≤ w) × (w * 10 ≤ d * 11))
        × IsDelay res (run api pkg srv now res) d
  unfolding reconcile_check
  reconcile_check-IsDelay now res jittered active =
      let (d, e, h) = settle-IsDelay res (run api pkg srv now res) in
      let pos = IsDelay-positive res (run api pkg srv now res) d h in
      let least = (jittered d).0 in
      (srv.jitter d, d, (simp active) ∙ e, omega (arith, pos, least), jittered d, h)

-- A failure on a context that is done, or for a deadline, is never taken for a lasting one, for a
-- locked database or for a busy target, whatever its text.
classify_error-timeout :
    (context_done : Bool) (e : GoError)
    → context_done || is_deadline_exceeded e ≡ true
    → (as_permanent (classify_error context_done e) ≡ none)
      × (is_locked (classify_error context_done e) ≡ false)
      × (is_target_busy (classify_error context_done e) ≡ false)
unfolding classify_error as_permanent is_locked is_target_busy
classify_error-timeout context_done e h = rw h (refl, refl, refl)
