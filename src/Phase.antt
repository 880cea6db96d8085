-- ===== src/Phase.antt =====
-- The three standard conditions of a resource read together, as kstatus reads them.
use atlas_operator.Prelude.{◌≡◌, String, List, some, ℤ}
use atlas_operator.Conditions.{
  ConditionApi, Condition, ConditionStatus, cond_true, cond_false, condition, ready_cond,
  reconciling_cond, stalled_cond, set_condition, find-set_condition,
}

pub data Phase : Type 0 where
  applied progressing stalled : Phase

-- The statuses of Ready, Reconciling and Stalled in a phase.
abbrev pub ready_status : Phase → ConditionStatus
ready_status applied = cond_true
ready_status progressing = cond_false
ready_status stalled = cond_false

abbrev pub reconciling_status : Phase → ConditionStatus
reconciling_status applied = cond_false
reconciling_status progressing = cond_true
reconciling_status stalled = cond_false

abbrev pub stalled_status : Phase → ConditionStatus
stalled_status applied = cond_false
stalled_status progressing = cond_false
stalled_status stalled = cond_true

-- A condition of the list has the status, the reason and the generation, whatever its message.
abbrev pub Shows : ConditionApi → List Condition → String → ConditionStatus → String → ℤ → Type 0
Shows api cs type status reason g =
    (message : String) × (api.find_status_condition cs type
      ≡ some (record (condition type status reason message) { observed_generation = g }))

-- The three conditions agree on a phase, a reason and a generation.
pub record InPhase (api : ConditionApi) (cs : List Condition) (p : Phase) (reason : String) (g : ℤ)
    : Type 0 where
  pub shows_ready : Shows api cs ready_cond (ready_status p) reason g
  pub shows_reconciling : Shows api cs reconciling_cond (reconciling_status p) reason g
  pub shows_stalled : Shows api cs stalled_cond (stalled_status p) reason g

-- Three sets in the order Ready, Reconciling, Stalled, with one reason, put a resource in a phase.
pub set_three-InPhase :
    (api : ConditionApi) (g : ℤ) (cs : List Condition) (p : Phase) (reason m₁ m₂ m₃ : String)
    → InPhase api
        (set_condition api g
          (set_condition api g
            (set_condition api g cs (condition ready_cond (ready_status p) reason m₁))
            (condition reconciling_cond (reconciling_status p) reason m₂))
          (condition stalled_cond (stalled_status p) reason m₃))
        p
        reason
        g
set_three-InPhase api g cs p reason m₁ m₂ m₃ = record {
  shows_ready = (m₁, simp (find-set_condition));
  shows_reconciling = (m₂, simp (find-set_condition));
  shows_stalled = (m₃, simp (find-set_condition));
}
