-- ===== src/ProjectConfig.antt =====
-- The project configuration of a resource (api/v1alpha1/project_config.go). Parsing a file is the
-- work of the HCL library: its outcome is a parameter.
pub mod Vars
use atlas_operator.Prelude.{
  Bool, String, List, [], ◌∷◌, ◌++◌, Option, none, some, str_eq, if◌then◌else◌,
}
use atlas_operator.Errors.{Result, ok, err, ◌>>=◌}
use atlas_operator.Cluster.{
  KeyRef, Reader, get, put, get_secret_value_or_empty, get_config_map_value,
}

-- Variable
pub record Variable : Type 0 where
  pub variable_key : String
  pub value : String
  pub secret_key_ref : Option KeyRef
  pub config_map_key_ref : Option KeyRef

-- ProjectConfigSpec
pub record ProjectConfigSpec : Type 0 where
  pub config : String
  pub config_from : Option KeyRef
  pub env_name : String
  pub vars : List Variable

module _ {ℓ} {Body : Type ℓ} where
  parsed : Result Body → Result (Option Body)
  parsed (ok b) = ok (some b)
  parsed (err e) = err e

  parse_raw : (String → Result Body) → String → Result (Option Body)
  unfolding parsed
  parse_raw parse_config text = if str_eq text "" then ok none else parsed (parse_config text)

  -- GetConfig, with the parser of the HCL library.
  unfoldable pub get_config :
      (String → Result Body) → Reader → String → ProjectConfigSpec → Result (Option Body)
  unfolding get_secret_value_or_empty parse_raw
  get_config parse_config r ns s = elim s.config_from [
    | none ↦ parse_raw parse_config s.config
    | some ref ↦ get_secret_value_or_empty r ns ref >>= parse_raw parse_config
  ]

-- A value of atlasexec.Vars2: a text or a list of texts.
pub data VarValue : Type 0 where
  one : String → VarValue
  many : List String → VarValue

-- The value of a variable: that of the ConfigMap, else that of the Secret, else its own.
unfoldable pub variable_value : Reader → String → Variable → Result String
unfolding get_secret_value_or_empty get_config_map_value
variable_value r ns v = do
  value ← elim v.secret_key_ref [
    | none ↦ ok v.value
    | some ref ↦ get_secret_value_or_empty r ns ref
  ]
  elim v.config_map_key_ref [ none ↦ ok value | some ref ↦ get_config_map_value r ns ref ]

-- The entry that is there for the key is grouped with the value.
group : List (String × VarValue) → String → String → Option VarValue → List (String × VarValue)
group vars key value none = vars
group vars key value (some (many vs)) = put vars key (many (vs ++ value ∷ []))
group vars key value (some (one v)) = put vars key (many (v ∷ value ∷ []))

-- The loop of GetVars over the variables that are left. Each round ends by setting the key to the
-- value, whatever the grouping before it stored.
unfoldable pub get_vars_from :
    Reader → String → List (String × VarValue) → List Variable → Result (List (String × VarValue))
unfolding variable_value group
get_vars_from r ns vars [] = ok vars
get_vars_from r ns vars (v ∷ vs) = elim (variable_value r ns v) [
  | err e ↦ err e
  | ok value ↦
      get_vars_from r ns
        (put (group vars v.variable_key value (get vars v.variable_key)) v.variable_key (one value))
        vs
]

-- GetVars
unfoldable pub get_vars : Reader → String → List Variable → Result (List (String × VarValue))
unfolding get_vars_from
get_vars r ns vs = get_vars_from r ns [] vs
