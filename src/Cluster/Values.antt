-- ===== src/Cluster/Values.antt =====
-- The maps of texts, and the two ways of reading a key of a Secret
-- (internal/controller/common.go, api/v1alpha1/target.go).
use atlas_operator.Prelude.{
  ◌≡◌, refl, false, String, List, [], ◌∷◌, Option, none, some, arith, str_eq, eq_iff, eq_refl,
  if◌then◌else◌, inl, inr, Bool-cases, Option-cases,
}
use atlas_operator.Errors.{ok, err, GoError, is_transient}
use atlas_operator.Cluster.{
  get, put, KeyRef, Secret, Reader, get_secret_value, get_secret_value_or_empty, missing_key,
}

module _ {ℓ} {V : Type ℓ} where
  pub get-put_self : (m : List (String × V)) (k : String) (v : V) → get (put m k v) k ≡ some v
  unfolding get put
  get-put_self [] k v = rw (eq_refl k)
  get-put_self ((j, w) ∷ m) k v = elim (Bool-cases (str_eq j k)) [
    | inl e ↦ rw (e, eq_refl k)
    | inr e ↦ rw e (rw e (get-put_self m k v))
  ]

  pub get-put_ne :
      (m : List (String × V)) (k l : String) (v : V)
      → str_eq k l ≡ false
      → get (put m k v) l ≡ get m l
  unfolding get put
  get-put_ne [] k l v h = rw h
  get-put_ne ((j, w) ∷ m) k l v h = elim (Bool-cases (str_eq j k)) [
    | inl e ↦ rw e (rw (h, (eq_iff j k).0 e, h))
    | inr e ↦ rw e (ground (arith, get-put_ne m k l v h))
  ]

  pub get-put :
      (m : List (String × V)) (k l : String) (v : V)
      → get (put m k v) l ≡ (if str_eq k l then some v else get m l)
  get-put m k l v = elim (Bool-cases (str_eq k l)) [
    | inl e ↦ rw e (rw (← (eq_iff k l).0 e) (get-put_self m k v))
    | inr e ↦ rw e (get-put_ne m k l v e)
  ]

-- What the two readers return on an entry of a Secret that was read, if it is there.
abbrev pub ReadsEntry : Reader → String → KeyRef → Option String → Type 0
ReadsEntry r ns ref (some v) =
    (get_secret_value r ns ref ≡ ok v) × (get_secret_value_or_empty r ns ref ≡ ok v)
ReadsEntry r ns ref none =
    ((e : GoError) × (get_secret_value r ns ref ≡ err e) × (is_transient e ≡ false))
    × (get_secret_value_or_empty r ns ref ≡ ok "")

-- On a Secret that is there the two readers agree where it has the key. Where it lacks the key the
-- reader of the controllers fails, with an error that is not transient, and the reader of the API
-- package returns the empty text.
pub get_secret_value-ReadsEntry :
    (r : Reader) (ns : String) (ref : KeyRef) (secret : Secret)
    → r.get_secret ns ref.ref_name ≡ ok secret
    → ReadsEntry r ns ref (get secret.secret_entries ref.key)
unfolding get_secret_value get_secret_value_or_empty is_transient
get_secret_value-ReadsEntry r ns ref secret h =
    elim (Option-cases (get secret.secret_entries ref.key)) [
      | inl e ↦ rw e ((missing_key ns ref, ground arith, refl), ground arith)
      | inr (v, e) ↦ rw e (ground arith, ground arith)
    ]
