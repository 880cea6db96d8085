-- ===== src/MigrationRun/Results.antt =====
-- The ends of a run of a migration
-- (internal/controller/atlasmigration_controller.go).
use atlas_operator.Prelude.{
  suc, ◌+◌, ◌≡◌, refl, ap, ◌∙◌, Bool, true, false, not, ◌&&◌, String, [], ◌∷◌, pos, int_eq, lt_nat,
  arith, if◌then◌else◌,
}
use atlas_operator.Conditions.{ConditionApi}
use atlas_operator.Reason.{is_failed_reason}
use atlas_operator.Phase.{stalled, InPhase}
use atlas_operator.Errors.{
  GoError, error_text, no_requeue, after, result, is_transient, backoff_delay_at,
}
use atlas_operator.MigrationStatus.{set_not_ready, is_exceed_backoff_limit}
use atlas_operator.MigrationStatus.Machine.{
  apply_call-failed, apply_call-InPhase, limit_exceeded-fail_all, not_ready,
}
use atlas_operator.MigrationRun.{
  RunState, result_err, retry_or_stop, failed_state, transient, reason_of,
}

module _ (api : ConditionApi) where
  stops :
      (e : GoError) (b : Bool) (s : RunState)
      → ((retry_or_stop api (transient e) b s).0.resource ≡ s.resource)
        × ((retry_or_stop api (transient e) b s).1
            ≡ (if b then no_requeue else after (backoff_delay_at s.resource.status.failed)))
  unfolding retry_or_stop result is_transient
  stops e true s = (refl, refl)
  stops e false s = (refl, refl)

  -- An error with a failed reason puts the resource in the phase of a failure with that reason, or
  -- with the one that the error carries, and counts it. The next try comes after the delay of the
  -- new count, and none where the limit, unless it is 0, is below the new count.
  pub result_err-InPhase :
      (s : RunState) (e : GoError) (reason : String)
      → is_failed_reason (reason_of e reason) ≡ true
      → InPhase api
          (result_err api s e reason).0.resource.status.conditions
          stalled
          (reason_of e reason)
          s.resource.generation
        × ((result_err api s e reason).0.resource.status.failed ≡ suc s.resource.status.failed)
        × ((result_err api s e reason).1 ≡ (
            if not (int_eq s.resource.backoff_limit (pos 0))
              && lt_nat s.resource.backoff_limit (suc s.resource.status.failed)
            then no_requeue
            else after (backoff_delay_at (suc s.resource.status.failed))))
  unfolding result_err
  result_err-InPhase s e reason h =
      let r = reason_of e reason in
      let m = error_text (transient e) in
      let shown = (apply_call-InPhase api s.resource (not_ready r m)).0 in
      let counted = (apply_call-failed api s.resource (not_ready r m)).0 in
      let counted' : (set_not_ready api s.resource r m).status.failed
          ≡ suc s.resource.status.failed =
        counted ∙ rw h in
      let one : s.resource.status.failed + 1 ≡ suc s.resource.status.failed = omega arith in
      let limit : is_exceed_backoff_limit (set_not_ready api s.resource r m) ≡ (
          not (int_eq s.resource.backoff_limit (pos 0))
          && lt_nat s.resource.backoff_limit (suc s.resource.status.failed)) =
        limit_exceeded-fail_all api s.resource ((r, m) ∷ []) (h, tt)
        ∙ ap
            (λ n.
              not (int_eq s.resource.backoff_limit (pos 0)) && lt_nat s.resource.backoff_limit n)
            one in
      let (same, returned) =
        stops e (is_exceed_backoff_limit (set_not_ready api s.resource r m))
          (failed_state api s e reason) in
      (rw same (rw h at shown), rw same counted', returned ∙ rw (limit, counted'))
