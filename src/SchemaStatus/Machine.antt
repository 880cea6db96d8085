-- ===== src/SchemaStatus/Machine.antt =====
-- The status of an AtlasSchema as a state machine over the calls of its setters
-- (api/v1alpha1/atlasschema_types.go).
use atlas_operator.Prelude.{
  ℕ, suc, ◌≡◌, refl, ◌∙◌, ◌+◌, length, not, ◌&&◌, ℤ, le_zero, lt_nat, Bool, true, false, Bool-cases,
  inl, inr, String, List, [], ◌∷◌, Option, arith, if◌then◌else◌,
}
use atlas_operator.Conditions.{ConditionApi, ready_cond}
use atlas_operator.Reason.{reason_reconciling, reason_applied, is_failed_reason}
use atlas_operator.Phase.{Phase, applied, progressing, stalled, InPhase, set_three-InPhase}
use atlas_operator.SchemaStatus.{
  AtlasSchema, AtlasSchemaStatus, Marshalled, set_reconciling, set_ready, set_not_ready, is_ready,
  is_exceed_backoff_limit,
}

-- A call of a setter.
pub data SetterCall : Type 0 where
  reconciling : String → SetterCall
  ready : AtlasSchemaStatus → Option Marshalled → SetterCall
  not_ready : String → String → SetterCall

-- The phase that a setter is to leave, and its reason.
abbrev pub target_phase : SetterCall → Phase
target_phase (reconciling m) = progressing
target_phase (ready s r) = applied
target_phase (not_ready reason m) = if is_failed_reason reason then stalled else progressing

abbrev pub target_reason : SetterCall → String
target_reason (reconciling m) = reason_reconciling
target_reason (ready s r) = reason_applied
target_reason (not_ready reason m) = reason

-- The count of failures that a setter is to leave.
abbrev pub count_after : SetterCall → ℕ → ℕ
count_after (reconciling m) n = 0
count_after (ready s r) n = 0
count_after (not_ready reason m) n = if is_failed_reason reason then suc n else n

abbrev pub is_applied : Phase → Bool
is_applied applied = true
is_applied progressing = false
is_applied stalled = false

abbrev pub is_ready_call : SetterCall → Bool
is_ready_call (reconciling m) = false
is_ready_call (ready s r) = true
is_ready_call (not_ready reason m) = false

target_applied : (c : SetterCall) → is_applied (target_phase c) ≡ is_ready_call c
target_applied (reconciling m) = refl
target_applied (ready s r) = refl
target_applied (not_ready reason m) = ground arith

abbrev pub counts : List SetterCall → ℕ → ℕ
counts [] n = n
counts (c ∷ cs) n = counts cs (count_after c n)

-- The last call of a list that is not empty.
abbrev pub last_call : SetterCall → List SetterCall → SetterCall
last_call c [] = c
last_call c (d ∷ ds) = last_call d ds

-- Every reason is one that counts as a failure.
abbrev pub AllFailed : List (String × String) → Type 0
AllFailed [] = Unit
AllFailed ((reason, m) ∷ rest) = (is_failed_reason reason ≡ true) × AllFailed rest

module _ (api : ConditionApi) where
  abbrev pub apply_call : AtlasSchema → SetterCall → AtlasSchema
  apply_call sc (reconciling m) = set_reconciling api sc m
  apply_call sc (ready s r) = set_ready api sc s r
  apply_call sc (not_ready reason m) = set_not_ready api sc reason m

  abbrev pub apply_calls : AtlasSchema → List SetterCall → AtlasSchema
  apply_calls sc [] = sc
  apply_calls sc (c ∷ cs) = apply_calls (apply_call sc c) cs

  not_ready-InPhase :
      (sc : AtlasSchema) (reason m : String)
      → InPhase api
          (set_not_ready api sc reason m).status.conditions
          (if is_failed_reason reason then stalled else progressing)
          reason
          sc.generation
  unfolding set_not_ready
  not_ready-InPhase sc reason m = elim (Bool-cases (is_failed_reason reason)) [
    | inl e ↦ rw e (set_three-InPhase api _ _ stalled reason m m m)
    | inr e ↦ rw e (set_three-InPhase api _ _ progressing reason m m "")
  ]

  -- Every setter leaves the three conditions in the phase and with the reason that its arguments
  -- determine, at the generation of the resource, which the status then records as observed.
  pub apply_call-InPhase :
      (sc : AtlasSchema) (c : SetterCall)
      → InPhase api
          (apply_call sc c).status.conditions
          (target_phase c)
          (target_reason c)
          sc.generation
        × ((apply_call sc c).status.observed_generation ≡ sc.generation)
  unfolding set_reconciling set_ready
  apply_call-InPhase sc (reconciling m) = (set_three-InPhase api _ _ progressing _ _ _ _, refl)
  apply_call-InPhase sc (ready s r) = (set_three-InPhase api _ _ applied _ _ _ _, refl)
  apply_call-InPhase sc (not_ready reason m) =
      (not_ready-InPhase sc reason m, unfold set_not_ready in (ground arith))

  apply_call-failed :
      (sc : AtlasSchema) (c : SetterCall)
      → ((apply_call sc c).status.failed ≡ count_after c sc.status.failed)
        × ((apply_call sc c).generation ≡ sc.generation)
        × ((apply_call sc c).backoff_limit ≡ sc.backoff_limit)
  unfolding set_reconciling set_ready set_not_ready
  apply_call-failed sc (reconciling m) = (refl, refl, refl)
  apply_call-failed sc (ready s r) = (refl, refl, refl)
  apply_call-failed sc (not_ready reason m) = (ground arith, ground arith, ground arith)

  -- After any sequence of setter calls that is not empty, the three conditions are in the phase and
  -- have the reason of the last call, at the generation of the resource, and the failure count is
  -- what the calls make of the count before: a failing call adds one, and a call of SetReconciling
  -- or SetReady sets it to 0.
  pub apply_calls-InPhase :
      (sc : AtlasSchema) (c : SetterCall) (cs : List SetterCall)
      → InPhase api
          (apply_calls sc (c ∷ cs)).status.conditions
          (target_phase (last_call c cs))
          (target_reason (last_call c cs))
          sc.generation
        × ((apply_calls sc (c ∷ cs)).status.failed ≡ counts (c ∷ cs) sc.status.failed)
  apply_calls-InPhase sc c [] = ((apply_call-InPhase sc c).0, (apply_call-failed sc c).0)
  apply_calls-InPhase sc c (d ∷ ds) =
      let h = apply_calls-InPhase (apply_call sc c) d ds in
      (rw (apply_call-failed sc c).1 at h.0, rw (apply_call-failed sc c).0 at h.1)

  InPhase-is_ready :
      (sc : AtlasSchema) (p : Phase) (reason : String) (g : ℤ)
      → InPhase api sc.status.conditions p reason g
      → is_ready api sc ≡ is_applied p
  unfolding is_ready
  InPhase-is_ready sc applied reason g h =
      api.is_true_find sc.status.conditions ready_cond ∙ (rw (h.shows_ready.1))
  InPhase-is_ready sc progressing reason g h =
      api.is_true_find sc.status.conditions ready_cond ∙ (rw (h.shows_ready.1))
  InPhase-is_ready sc stalled reason g h =
      api.is_true_find sc.status.conditions ready_cond ∙ (rw (h.shows_ready.1))

  -- After any sequence of setter calls that is not empty, IsReady holds exactly when the last call
  -- was SetReady.
  is_ready-apply_calls :
      (sc : AtlasSchema) (c : SetterCall) (cs : List SetterCall)
      → is_ready api (apply_calls sc (c ∷ cs)) ≡ is_ready_call (last_call c cs)
  is_ready-apply_calls sc c cs =
      InPhase-is_ready (apply_calls sc (c ∷ cs)) _ _ _ (apply_calls-InPhase sc c cs).0
      ∙ target_applied (last_call c cs)

  -- Failures one after another, each with its reason and message.
  abbrev pub fail_all : AtlasSchema → List (String × String) → AtlasSchema
  fail_all sc [] = sc
  fail_all sc ((reason, m) ∷ rest) = fail_all (set_not_ready api sc reason m) rest

  fail_all-failed :
      (sc : AtlasSchema) (rs : List (String × String))
      → AllFailed rs
      → ((fail_all sc rs).status.failed ≡ sc.status.failed + length rs)
        × ((fail_all sc rs).backoff_limit ≡ sc.backoff_limit)
  fail_all-failed sc [] h = (omega arith, refl)
  fail_all-failed sc ((reason, m) ∷ rest) (f, fs) =
      let step = apply_call-failed sc (not_ready reason m) in
      let one : (set_not_ready api sc reason m).status.failed ≡ suc sc.status.failed =
        step.0 ∙ rw f in
      let (more, same) = fail_all-failed (set_not_ready api sc reason m) rest fs in
      (omega (arith, more, one), same ∙ step.2)

  -- After failures in a row that a failed reason gives, the backoff limit is exceeded exactly when
  -- it is positive and below the failures counted before and now.
  is_exceed_backoff_limit-fail_all :
      (sc : AtlasSchema) (rs : List (String × String))
      → AllFailed rs
      → is_exceed_backoff_limit (fail_all sc rs)
        ≡ (not (le_zero sc.backoff_limit) && lt_nat sc.backoff_limit (sc.status.failed + length rs))
  unfolding is_exceed_backoff_limit
  is_exceed_backoff_limit-fail_all sc rs h =
      let (count, limit) = fail_all-failed sc rs h in rw (count, limit)
