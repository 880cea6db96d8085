-- ===== src/Conditions.antt =====
-- The conditions of a resource status (`metav1.Condition`) and the functions of
-- `k8s.io/apimachinery/pkg/api/meta` that read and write them, which are an interface here: that
-- package is not part of the repository. The transition time, which that package alone maintains
-- and the operator never reads, is left out.
use atlas_operator.Prelude.{
  ◌≡◌, Bool, true, false, String, List, [], ◌∷◌, Option, none, some, ℤ, pos, str_eq, le_zero,
  if◌then◌else◌,
}

-- metav1.ConditionStatus
pub data ConditionStatus : Type 0 where
  cond_true cond_false cond_unknown : ConditionStatus

-- metav1.Condition
pub record Condition : Type 0 where
  pub type : String
  pub status : ConditionStatus
  pub reason : String
  pub message : String
  pub observed_generation : ℤ

abbrev pub is_cond_true : ConditionStatus → Bool
is_cond_true cond_true = true
is_cond_true cond_false = false
is_cond_true cond_unknown = false

abbrev pub is_cond_false : ConditionStatus → Bool
is_cond_false cond_true = false
is_cond_false cond_false = true
is_cond_false cond_unknown = false

-- A condition that leaves the observed generation unset, as the program's literals do.
abbrev pub condition : String → ConditionStatus → String → String → Condition
condition type status reason message = record {
  type = type;
  status = status;
  reason = reason;
  message = message;
  observed_generation = pos 0;
}

-- meta.SetStatusCondition, meta.FindStatusCondition and meta.IsStatusConditionTrue, with what their
-- documentation says: a set replaces the condition of that type or appends it, a find returns the
-- condition of that type, if any.
pub record ConditionApi : Type 0 where
  pub set_status_condition : List Condition → Condition → List Condition
  pub find_status_condition : List Condition → String → Option Condition
  pub is_status_condition_true : List Condition → String → Bool
  pub find_nil : (t : String) → find_status_condition [] t ≡ none
  pub find_set :
      (cs : List Condition) (c : Condition) (t : String)
      → find_status_condition (set_status_condition cs c) t
        ≡ (if str_eq c.type t then some c else find_status_condition cs t)
  pub is_true_find :
      (cs : List Condition) (t : String)
      → is_status_condition_true cs t
        ≡ elim (find_status_condition cs t) [ none ↦ false | some c ↦ is_cond_true c.status ]

-- The types of the conditions of this operator.
abbrev pub ready_cond : String
ready_cond = "Ready"

abbrev pub reconciling_cond : String
reconciling_cond = "Reconciling"

abbrev pub stalled_cond : String
stalled_cond = "Stalled"

abbrev pub drifted_cond : String
drifted_cond = "Drifted"

abbrev pub compliant_cond : String
compliant_cond = "Compliant"

-- The method `setCondition`, which each of the four kinds declares alike: a condition without an
-- observed generation takes the one of the resource.
unfoldable pub set_condition : ConditionApi → ℤ → List Condition → Condition → List Condition
set_condition api generation conditions cond = api.set_status_condition conditions (
    if le_zero cond.observed_generation
    then record cond { observed_generation = generation }
    else cond)

-- What a set leaves to be found: the condition with the generation of the resource.
pub find-set_condition :
    (api : ConditionApi) (g : ℤ) (cs : List Condition) (type : String) (status : ConditionStatus)
    (reason message t : String)
    → api.find_status_condition (set_condition api g cs (condition type status reason message)) t
      ≡ (if str_eq type t
          then some (record (condition type status reason message) { observed_generation = g })
          else api.find_status_condition cs t)
unfolding set_condition
find-set_condition api g cs type status reason message t =
    api.find_set cs (record (condition type status reason message) { observed_generation = g }) t

-- The simplest implementation: a list without two conditions of one type.
abbrev pub plain_set : List Condition → Condition → List Condition
plain_set [] c = c ∷ []
plain_set (d ∷ ds) c = if str_eq d.type c.type then c ∷ ds else d ∷ plain_set ds c

abbrev pub plain_find : List Condition → String → Option Condition
plain_find [] t = none
plain_find (d ∷ ds) t = if str_eq d.type t then some d else plain_find ds t

abbrev pub plain_is_true : List Condition → String → Bool
plain_is_true cs t = elim (plain_find cs t) [ none ↦ false | some c ↦ is_cond_true c.status ]
