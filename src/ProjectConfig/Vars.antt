-- ===== src/ProjectConfig/Vars.antt =====
-- What a variable that is declared more than once becomes (api/v1alpha1/project_config.go).
use atlas_operator.Prelude.{
  ◌≡◌, refl, ◌∙◌, Bool, true, false, String, List, [], ◌∷◌, Option, none, some, str_eq,
  if◌then◌else◌, inl, inr, Bool-cases,
}
use atlas_operator.Errors.{Result, ok, err, Result-cases}
use atlas_operator.Cluster.{Reader, get, put}
use atlas_operator.Cluster.Values.{get-put}
use atlas_operator.ProjectConfig.{
  Variable, VarValue, one, many, variable_value, get_vars_from, get_vars, group,
}

abbrev or_else : Option VarValue → Option VarValue → Option VarValue
or_else none o = o
or_else (some v) o = some v

abbrev as_one : String → String → Result String → Option VarValue
as_one key k (err e) = none
as_one key k (ok value) = if str_eq key k then some (one value) else none

-- The value of the last declaration of a key.
abbrev pub last_declared : Reader → String → List Variable → String → Option VarValue
last_declared r ns [] k = none
last_declared r ns (v ∷ vs) k =
    or_else (last_declared r ns vs k) (as_one v.variable_key k (variable_value r ns v))

grouped :
    (vars : List (String × VarValue)) (key value k : String) (o : Option VarValue)
    → str_eq key k ≡ false
    → get (group vars key value o) k ≡ get vars k
unfolding group
grouped vars key value k none h = refl
grouped vars key value k (some (one v)) h = get-put vars key k _ ∙ rw h
grouped vars key value k (some (many vs)) h = get-put vars key k _ ∙ rw h

-- One round of the loop sets the key to the value and leaves the other keys as they are.
round :
    (vars : List (String × VarValue)) (key value k : String)
    → get (put (group vars key value (get vars key)) key (one value)) k
      ≡ (if str_eq key k then some (one value) else get vars k)
round vars key value k = elim (Bool-cases (str_eq key k)) [
  | inl e ↦ get-put _ key k _ ∙ rw e
  | inr e ↦ get-put _ key k _ ∙ rw e (grouped vars key value k (get vars key) e)
]

or_else_step :
    (later : Option VarValue) (b : Bool) (value : String) (o : Option VarValue)
    → or_else later (if b then some (one value) else o)
      ≡ or_else (or_else later (if b then some (one value) else none)) o
or_else_step none true value o = refl
or_else_step none false value o = refl
or_else_step (some v) b value o = refl

get_vars_from-last :
    (r : Reader) (ns : String) (vars : List (String × VarValue)) (vs : List Variable)
    (m : List (String × VarValue)) (k : String)
    → get_vars_from r ns vars vs ≡ ok m
    → get m k ≡ or_else (last_declared r ns vs k) (get vars k)
unfolding get_vars_from
get_vars_from-last r ns vars [] m k h = cc
get_vars_from-last r ns vars (v ∷ vs) m k h = elim (Result-cases (variable_value r ns v)) [
  | inl (e, known) ↦ cc (rw (known, get_vars_from) at h)
  | inr (value, known) ↦
      get_vars_from-last r ns
        (put (group vars v.variable_key value (get vars v.variable_key)) v.variable_key (one value))
        vs m k (rw (known, get_vars_from) at h)
      ∙ rw (round vars v.variable_key value k) (
          rw (known, last_declared)
            (or_else_step (last_declared r ns vs k) (str_eq v.variable_key k) value (get vars k)))
]

or_else_nil : (k : String) (o : Option VarValue) → or_else o (get [] k) ≡ o
unfolding get
or_else_nil k none = refl
or_else_nil k (some v) = refl

-- The variables that GetVars returns have for each key one value, that of the last declaration of
-- the key: values of one key are never grouped into a list.
pub get_vars-last_declared :
    (r : Reader) (ns : String) (vs : List Variable) (m : List (String × VarValue)) (k : String)
    → get_vars r ns vs ≡ ok m
    → get m k ≡ last_declared r ns vs k
unfolding get_vars
get_vars-last_declared r ns vs m k h =
    get_vars_from-last r ns [] vs m k h ∙ or_else_nil k (last_declared r ns vs k)
