-- ===== src/MigrationStatus/Machine.antt =====
-- The status of an AtlasMigration as a state machine over the calls of its setters
-- (api/v1alpha1/atlasmigration_types.go).
use atlas_operator.Prelude.{
  ℕ, suc, ◌≡◌, refl, ◌∙◌, ◌+◌, length, not, ◌&&◌, ℤ, int_eq, pos, lt_nat, Bool, true, false,
  Bool-cases, inl, inr, String, List, [], ◌∷◌, arith, if◌then◌else◌,
}
use atlas_operator.Conditions.{reconciling_cond, ConditionApi, ready_cond}
use atlas_operator.Reason.{reason_reconciling, reason_applied, is_failed_reason}
use atlas_operator.Phase.{Phase, applied, progressing, stalled, InPhase, set_three-InPhase}
use atlas_operator.MigrationStatus.{
  AtlasMigration, AtlasMigrationStatus, set_reconciling, set_ready, set_not_ready, is_ready,
  is_reconciling, is_exceed_backoff_limit,
}

-- A call of a setter.
pub data SetterCall : Type 0 where
  reconciling : String → SetterCall
  ready : AtlasMigrationStatus → SetterCall
  not_ready : String → String → SetterCall

-- The phase that a setter is to leave, and its reason.
abbrev pub target_phase : SetterCall → Phase
target_phase (reconciling m) = progressing
target_phase (ready s) = applied
target_phase (not_ready reason m) = if is_failed_reason reason then stalled else progressing

abbrev pub target_reason : SetterCall → String
target_reason (reconciling m) = reason_reconciling
target_reason (ready s) = reason_applied
target_reason (not_ready reason m) = reason

-- The count of failures that a setter is to leave.
abbrev pub count_after : SetterCall → ℕ → ℕ
count_after (reconciling m) n = 0
count_after (ready s) n = 0
count_after (not_ready reason m) n = if is_failed_reason reason then suc n else n

abbrev pub is_applied : Phase → Bool
is_applied applied = true
is_applied progressing = false
is_applied stalled = false

abbrev pub is_ready_call : SetterCall → Bool
is_ready_call (reconciling m) = false
is_ready_call (ready s) = true
is_ready_call (not_ready reason m) = false

target_applied : (c : SetterCall) → is_applied (target_phase c) ≡ is_ready_call c
target_applied (reconciling m) = refl
target_applied (ready s) = refl
target_applied (not_ready reason m) = ground arith

abbrev pub is_progressing : Phase → Bool
is_progressing applied = false
is_progressing progressing = true
is_progressing stalled = false

abbrev pub is_progressing_call : SetterCall → Bool
is_progressing_call (reconciling m) = true
is_progressing_call (ready s) = false
is_progressing_call (not_ready reason m) = not (is_failed_reason reason)

target_progressing : (c : SetterCall) → is_progressing (target_phase c) ≡ is_progressing_call c
target_progressing (reconciling m) = refl
target_progressing (ready s) = refl
target_progressing (not_ready reason m) = ground arith

abbrev pub counts : List SetterCall → ℕ → ℕ
counts [] n = n
counts (c ∷ cs) n = counts cs (count_after c n)

-- The last call of a list that is not empty.
abbrev pub last_call : SetterCall → List SetterCall → SetterCall
last_call c [] = c
last_call c (d ∷ ds) = last_call d ds

-- Every reason is one that counts as a failure.
abbrev pub AllFailed : List (String × String) → Type 0
AllFailed [] = Unit
AllFailed ((reason, m) ∷ rest) = (is_failed_reason reason ≡ true) × AllFailed rest

module _ (api : ConditionApi) where
  abbrev pub apply_call : AtlasMigration → SetterCall → AtlasMigration
  apply_call sc (reconciling m) = set_reconciling api sc m
  apply_call sc (ready s) = set_ready api sc s
  apply_call sc (not_ready reason m) = set_not_ready api sc reason m

  abbrev pub apply_calls : AtlasMigration → List SetterCall → AtlasMigration
  apply_calls sc [] = sc
  apply_calls sc (c ∷ cs) = apply_calls (apply_call sc c) cs

  not_ready-InPhase :
      (sc : AtlasMigration) (reason m : String)
      → InPhase api
          (set_not_ready api sc reason m).status.conditions
          (if is_failed_reason reason then stalled else progressing)
          reason
          sc.generation
  unfolding set_not_ready
  not_ready-InPhase sc reason m = elim (Bool-cases (is_failed_reason reason)) [
    | inl e ↦ rw e (set_three-InPhase api _ _ stalled reason m m m)
    | inr e ↦ rw e (set_three-InPhase api _ _ progressing reason m m "")
  ]

  -- Every setter leaves the three conditions in the phase and with the reason that its arguments
  -- determine, at the generation of the resource, which the status then records as observed.
  pub apply_call-InPhase :
      (sc : AtlasMigration) (c : SetterCall)
      → InPhase api
          (apply_call sc c).status.conditions
          (target_phase c)
          (target_reason c)
          sc.generation
        × ((apply_call sc c).status.observed_generation ≡ sc.generation)
  unfolding set_reconciling set_ready
  apply_call-InPhase sc (reconciling m) = (set_three-InPhase api _ _ progressing _ _ _ _, refl)
  apply_call-InPhase sc (ready s) = (set_three-InPhase api _ _ applied _ _ _ _, refl)
  apply_call-InPhase sc (not_ready reason m) =
      (not_ready-InPhase sc reason m, unfold set_not_ready in (ground arith))

  pub apply_call-failed :
      (sc : AtlasMigration) (c : SetterCall)
      → ((apply_call sc c).status.failed ≡ count_after c sc.status.failed)
        × ((apply_call sc c).generation ≡ sc.generation)
        × ((apply_call sc c).backoff_limit ≡ sc.backoff_limit)
  unfolding set_reconciling set_ready set_not_ready
  apply_call-failed sc (reconciling m) = (refl, refl, refl)
  apply_call-failed sc (ready s) = (refl, refl, refl)
  apply_call-failed sc (not_ready reason m) = (ground arith, ground arith, ground arith)

  -- After any sequence of setter calls that is not empty, the three conditions are in the phase and
  -- have the reason of the last call, at the generation of the resource, and the failure count is
  -- what the calls make of the count before: a failing call adds one, and a call of SetReconciling
  -- or SetReady sets it to 0.
  pub calls_in_order-InPhase :
      (sc : AtlasMigration) (c : SetterCall) (cs : List SetterCall)
      → InPhase api
          (apply_calls sc (c ∷ cs)).status.conditions
          (target_phase (last_call c cs))
          (target_reason (last_call c cs))
          sc.generation
        × ((apply_calls sc (c ∷ cs)).status.failed ≡ counts (c ∷ cs) sc.status.failed)
  calls_in_order-InPhase sc c [] = ((apply_call-InPhase sc c).0, (apply_call-failed sc c).0)
  calls_in_order-InPhase sc c (d ∷ ds) =
      let h = calls_in_order-InPhase (apply_call sc c) d ds in
      (rw (apply_call-failed sc c).1 at h.0, rw (apply_call-failed sc c).0 at h.1)

  InPhase-is_ready :
      (sc : AtlasMigration) (p : Phase) (reason : String) (g : ℤ)
      → InPhase api sc.status.conditions p reason g
      → is_ready api sc ≡ is_applied p
  unfolding is_ready
  InPhase-is_ready sc applied reason g h =
      api.is_true_find sc.status.conditions ready_cond ∙ (rw (h.shows_ready.1))
  InPhase-is_ready sc progressing reason g h =
      api.is_true_find sc.status.conditions ready_cond ∙ (rw (h.shows_ready.1))
  InPhase-is_ready sc stalled reason g h =
      api.is_true_find sc.status.conditions ready_cond ∙ (rw (h.shows_ready.1))

  -- Failures one after another, each with its reason and message.
  abbrev pub fail_all : AtlasMigration → List (String × String) → AtlasMigration
  fail_all sc [] = sc
  fail_all sc ((reason, m) ∷ rest) = fail_all (set_not_ready api sc reason m) rest

  fail_all-failed :
      (sc : AtlasMigration) (rs : List (String × String))
      → AllFailed rs
      → ((fail_all sc rs).status.failed ≡ sc.status.failed + length rs)
        × ((fail_all sc rs).backoff_limit ≡ sc.backoff_limit)
  fail_all-failed sc [] h = (omega arith, refl)
  fail_all-failed sc ((reason, m) ∷ rest) (f, fs) =
      let step = apply_call-failed sc (not_ready reason m) in
      let one : (set_not_ready api sc reason m).status.failed ≡ suc sc.status.failed =
        step.0 ∙ rw f in
      let (more, same) = fail_all-failed (set_not_ready api sc reason m) rest fs in
      (omega (arith, more, one), same ∙ step.2)

  -- After failures in a row that a failed reason gives, the backoff limit is exceeded exactly when
  -- it is not 0 and is below the failures counted before and now: a negative limit is exceeded at
  -- once.
  pub limit_exceeded-fail_all :
      (sc : AtlasMigration) (rs : List (String × String))
      → AllFailed rs
      → is_exceed_backoff_limit (fail_all sc rs) ≡ (
          not (int_eq sc.backoff_limit (pos 0))
          && lt_nat sc.backoff_limit (sc.status.failed + length rs))
  unfolding is_exceed_backoff_limit
  limit_exceeded-fail_all sc rs h =
      let (count, limit) = fail_all-failed sc rs h in rw (count, limit) (ground arith)

  InPhase-is_reconciling :
      (sc : AtlasMigration) (p : Phase) (reason : String) (g : ℤ)
      → InPhase api sc.status.conditions p reason g
      → is_reconciling api sc ≡ is_progressing p
  unfolding is_reconciling
  InPhase-is_reconciling sc applied reason g h =
      api.is_true_find sc.status.conditions reconciling_cond ∙ (rw h.shows_reconciling.1)
  InPhase-is_reconciling sc progressing reason g h =
      api.is_true_find sc.status.conditions reconciling_cond ∙ (rw h.shows_reconciling.1)
  InPhase-is_reconciling sc stalled reason g h =
      api.is_true_find sc.status.conditions reconciling_cond ∙ (rw h.shows_reconciling.1)

  -- After any sequence of setter calls that is not empty, IsReady holds exactly when the last call
  -- was SetReady, and IsReconciling exactly when it was SetReconciling or a SetNotReady whose
  -- reason is not a failure.
  pub is_reconciling-apply_calls :
      (sc : AtlasMigration) (c : SetterCall) (cs : List SetterCall)
      → (is_ready api (apply_calls sc (c ∷ cs)) ≡ is_ready_call (last_call c cs))
        × (is_reconciling api (apply_calls sc (c ∷ cs)) ≡ is_progressing_call (last_call c cs))
  is_reconciling-apply_calls sc c cs = (
    InPhase-is_ready (apply_calls sc (c ∷ cs)) _ _ _ (calls_in_order-InPhase sc c cs).0
        ∙ target_applied (last_call c cs),
    InPhase-is_reconciling (apply_calls sc (c ∷ cs)) _ _ _ (calls_in_order-InPhase sc c cs).0
        ∙ target_progressing (last_call c cs),
  )
