-- ===== src/Cluster.antt =====
-- What the operator reads of the cluster: Secrets and ConfigMaps (internal/controller/common.go and
-- api/v1alpha1/target.go). The client belongs to controller-runtime: a reader is a parameter.
pub mod Values
use atlas_operator.Prelude.{
  Bool, true, false, String, List, [], ◌∷◌, Option, none, some, str_eq, concat, if◌then◌else◌,
}
use atlas_operator.Errors.{Result, ok, err, GoError, plain, transient_error, map_err, ◌>>=◌}

-- A map of texts.
abbrev pub TextMap : Type 0
TextMap = List (String × String)

module _ {ℓ} {V : Type ℓ} where
  -- v, ok := m[k]
  unfoldable pub get : List (String × V) → String → Option V
  get [] k = none
  get ((j, v) ∷ m) k = if str_eq j k then some v else get m k

  -- m[k] = v
  unfoldable pub put : List (String × V) → String → V → List (String × V)
  put [] k v = (k, v) ∷ []
  put ((j, w) ∷ m) k v = if str_eq j k then (k, v) ∷ m else (j, w) ∷ put m k v

-- m[k], which is empty for a missing key.
abbrev pub or_empty : Option String → String
or_empty none = ""
or_empty (some v) = v

-- SecretKeySelector and ConfigMapKeySelector
pub record KeyRef : Type 0 where
  pub ref_name : String
  pub key : String

-- corev1.Secret
pub record Secret : Type 0 where
  pub secret_type : String
  pub secret_entries : TextMap

-- client.Reader on a namespace and a name.
pub record Reader : Type 0 where
  pub get_secret : String → String → Result Secret
  pub get_config_map_data : String → String → Result TextMap

abbrev pub missing_key : String → KeyRef → GoError
missing_key ns ref = plain (
    concat ("secret " ∷ ns ∷ "/" ∷ ref.ref_name ∷ " does not contain key \"" ∷ ref.key ∷ "\"" ∷ []))

-- The key of a Secret that was read, or the error of a missing one.
present : String → KeyRef → Option String → Result String
present ns ref none = err (missing_key ns ref)
present ns ref (some v) = ok v

-- getSecretValue of the controllers: a failed read is transient, a missing key is an error.
unfoldable pub get_secret_value : Reader → String → KeyRef → Result String
unfolding present get
get_secret_value r ns ref = do
  secret ← map_err transient_error (r.get_secret ns ref.ref_name)
  present ns ref (get secret.secret_entries ref.key)

-- getSecretValue of the API package: a missing key is the empty text.
unfoldable pub get_secret_value_or_empty : Reader → String → KeyRef → Result String
unfolding get
get_secret_value_or_empty r ns ref = do
  secret ← r.get_secret ns ref.ref_name
  ok (or_empty (get secret.secret_entries ref.key))

-- getConfigMapValue of the API package.
unfoldable pub get_config_map_value : Reader → String → KeyRef → Result String
unfolding get
get_config_map_value r ns ref = do
  entries ← r.get_config_map_data ns ref.ref_name
  ok (or_empty (get entries ref.key))

-- getConfigMap: the data of the ConfigMap; a failed read is transient.
unfoldable pub get_config_map : Reader → String → String → Result TextMap
get_config_map r ns ref = map_err transient_error (r.get_config_map_data ns ref)
