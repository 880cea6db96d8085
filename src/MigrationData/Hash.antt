-- ===== src/MigrationData/Hash.antt =====
-- What the hash of a migration does not tell apart (internal/controller/atlasmigration_controller.go).
use Prim.Native.String.{◌++◌ as text_append}
use text.Mathlib.TextLemmas.{append_assoc}
use atlas_operator.Prelude.{
  ◌≡◌, ◌∙◌, sym, ap, false, String, List, [], ◌∷◌, ◌++◌, some, str_eq, concat,
}
use atlas_operator.Errors.{ok}
use atlas_operator.MigrationData.{
  Packages, MigrationData, hash_migration_data, dir_writes, url_writes, config_writes, cloud_writes,
  policy_writes,
}

concat-append :
    (xs ys zs : List String) → concat ys ≡ concat zs → concat (xs ++ ys) ≡ concat (xs ++ zs)
concat-append [] ys zs h = h
concat-append (x ∷ xs) ys zs h = ap (text_append x) (concat-append xs ys zs h)

moved : (n s t : String) → concat (n ∷ text_append s t ∷ []) ≡ concat (text_append n s ∷ t ∷ [])
moved n s t = ap (text_append n) (append_assoc s t "") ∙ sym (append_assoc n s (text_append t ""))

module _ (pkg : Packages) where
  abbrev pub remote_named : MigrationData pkg → String → String → MigrationData pkg
  remote_named d name tag = record d {
    remote_dir = some (record { remote_name = name; tag = tag });
  }

  -- The hash of a migration with a remote directory depends only on the name followed by the tag: a
  -- part of the tag that becomes the end of the name leaves the hash as it was, so that this change
  -- of the directory is not seen.
  pub hash_migration_data-remote_named :
      (d : MigrationData pkg) (name part tag : String)
      → str_eq name "" ≡ false
      → str_eq (text_append name part) "" ≡ false
      → hash_migration_data pkg (remote_named d name (text_append part tag))
        ≡ hash_migration_data pkg (remote_named d (text_append name part) tag)
  unfolding hash_migration_data dir_writes
  hash_migration_data-remote_named d name part tag h k =
      rw (h, k)
        (ap (λ s. ok (pkg.sha256_hex s))
          (concat-append (url_writes pkg d.url) _ _ (
            concat-append (config_writes pkg d.data_config) _ _ (
              concat-append (cloud_writes pkg d.data_cloud) _ _
                (concat-append (policy_writes pkg d.policy) _ _ (moved name part tag))))))
