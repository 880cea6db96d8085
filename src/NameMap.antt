-- ===== src/NameMap.antt =====
-- Namespaced names, and Go's maps keyed by them, as association lists.
use atlas_operator.Prelude.{
  ◌≡◌, refl, Bool, true, false, ◌&&◌, String, List, [], ◌∷◌, Option, none, some, arith, str_eq,
  eq_iff, eq_refl, if◌then◌else◌, inl, inr, Bool-cases,
}

-- types.NamespacedName
pub record Name : Type 0 where
  pub namespace : String
  pub name : String

abbrev pub name_eq : Name → Name → Bool
name_eq a b = str_eq a.name b.name && str_eq a.namespace b.namespace

pub name_eq_refl : (n : Name) → name_eq n n ≡ true
name_eq_refl n = rw (eq_refl n.name, eq_refl n.namespace)

pub name_eq_path : (m n : Name) → name_eq m n ≡ true → m ≡ n
name_eq_path m n h = ground (arith, eq_iff m.name n.name, eq_iff m.namespace n.namespace)

abbrev pub NameMap {ℓ} : Type ℓ → Type ℓ
NameMap V = List (Name × V)

module _ {ℓ} {V : Type ℓ} where
  -- m[n]
  unfoldable pub lookup : NameMap V → Name → Option V
  lookup [] n = none
  lookup ((m, e) ∷ es) n = if name_eq m n then some e else lookup es n

  -- m[n] = e
  unfoldable pub insert : NameMap V → Name → V → NameMap V
  insert [] n e = (n, e) ∷ []
  insert ((m, d) ∷ es) n e = if name_eq m n then (n, e) ∷ es else (m, d) ∷ insert es n e

  -- delete(m, n)
  unfoldable pub delete : NameMap V → Name → NameMap V
  delete [] n = []
  delete ((m, e) ∷ es) n = let rest = delete es n in if name_eq m n then rest else (m, e) ∷ rest

  pub lookup-insert_self : (t : NameMap V) (n : Name) (e : V) → lookup (insert t n e) n ≡ some e
  unfolding lookup insert
  lookup-insert_self [] n e = rw (name_eq_refl n)
  lookup-insert_self ((m, d) ∷ t) n e = elim (Bool-cases (name_eq m n)) [
    | inl h ↦ rw (h, name_eq_refl n)
    | inr h ↦ rw h (rw h (lookup-insert_self t n e))
  ]

  pub lookup-insert_ne :
      (t : NameMap V) (n o : Name) (e : V)
      → name_eq n o ≡ false
      → lookup (insert t n e) o ≡ lookup t o
  unfolding lookup insert
  lookup-insert_ne [] n o e h = rw h
  lookup-insert_ne ((m, d) ∷ t) n o e h = elim (Bool-cases (name_eq m n)) [
    | inl k ↦ rw k (rw (h, name_eq_path m n k, h))
    | inr k ↦ rw k (ground (arith, lookup-insert_ne t n o e h))
  ]

  pub lookup-delete_self : (t : NameMap V) (n : Name) → lookup (delete t n) n ≡ none
  unfolding lookup delete
  lookup-delete_self [] n = refl
  lookup-delete_self ((m, d) ∷ t) n = ground (arith, lookup-delete_self t n)

  pub lookup-delete_ne :
      (t : NameMap V) (n o : Name) → name_eq n o ≡ false → lookup (delete t n) o ≡ lookup t o
  unfolding lookup delete
  lookup-delete_ne [] n o h = refl
  lookup-delete_ne ((m, d) ∷ t) n o h = elim (Bool-cases (name_eq m n)) [
    | inl k ↦ rw k (rw (name_eq_path m n k, h) (lookup-delete_ne t n o h))
    | inr k ↦ rw k (ground (arith, lookup-delete_ne t n o h))
  ]
