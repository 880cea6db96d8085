-- ===== src/MigrationRun/DirState.antt =====
-- The directory that a run stores is the one that the next run reads
-- (internal/controller/atlasmigration_controller.go).
use atlas_operator.Prelude.{◌≡◌, refl, String, some}
use atlas_operator.Errors.{ok}
use atlas_operator.Cluster.{Reader, TextMap, get}
use atlas_operator.MigrationStatus.{AtlasMigration}
use atlas_operator.MigrationData.{
  Packages, read_dir_state, stored_dir, archived, extract_dir_from_secret,
}
use atlas_operator.MigrationRun.{DirSecret, new_secret_object}

-- The client finds the Secret under its namespace and its name.
abbrev pub Serves : Reader → DirSecret → Type 0
Serves r s =
    r.get_secret s.secret_namespace s.secret_name
    ≡ ok (record { secret_type = s.dir_secret_type; secret_entries = s.dir_secret_entries })

-- Where the client finds the Secret that was made of an archive, the directory state of the
-- resource is what the archive unpacks to.
pub read_dir_state-new_secret_object :
    (pkg : Packages) (r : Reader) (obj : AtlasMigration) (tarball : String) (labels : TextMap)
    (dir : pkg.Dir)
    → Serves r (new_secret_object obj tarball labels)
    → pkg.unarchive_dir tarball ≡ ok dir
    → read_dir_state pkg r obj.namespace obj.name ≡ ok (some dir)
unfolding read_dir_state stored_dir extract_dir_from_secret archived get new_secret_object
read_dir_state-new_secret_object pkg r obj tarball labels dir served unpacked =
    rw served (rw unpacked refl)
