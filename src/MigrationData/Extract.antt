-- ===== src/MigrationData/Extract.antt =====
-- What data that was read satisfies (internal/controller/atlasmigration_controller.go).
use atlas_operator.Prelude.{
  ◌≡◌, refl, inl, inr, Bool, true, false, not, ◌&&◌, ◌||◌, String, Option, none, some, arith,
  str_eq, if◌then◌else◌, Bool-cases,
}
use atlas_operator.Errors.{Result, ok, err}
use atlas_operator.Cluster.{Reader, TextMap, get_config_map}
use atlas_operator.Hcl.{is_some}
use atlas_operator.MigrationData.{
  Packages, MigrationSpec, DeploymentFlow, DirChoice, Remote, choose_dir, choose_remote,
  read_dir_state, choose_files, choose_local, remote_choice, local_choice, remote_flow, local_flow,
}

-- A test of the value of a result, which holds of an error.
abbrev pub on_ok {ℓ} : {A : Type ℓ} → (A → Bool) → Result A → Bool
on_ok p (ok a) = p a
on_ok p (err e) = true

abbrev pub implies : Bool → Bool → Bool
implies a b = not a || b

-- A flow allows migrating down where it is allowed, and approved beforehand exactly where the
-- directory is local.
abbrev pub flow_allows : Bool → Option DeploymentFlow → Bool
flow_allows remote none = false
flow_allows remote (some f) = f.allow && (if remote then not f.auto_approve else f.auto_approve)

abbrev pub has_name : Option Remote → Bool
has_name none = false
has_name (some r) = not (str_eq r.remote_name "")

module _ (pkg : Packages) where
  -- Exactly one kind of directory, with a name if it is remote, and migrating down only as the
  -- flow allows for this kind.
  abbrev pub choice_valid : Option DeploymentFlow → DirChoice pkg → Bool
  choice_valid flow c =
      (if has_name c.chosen_remote
        then not (is_some c.chosen_dir)
        else (not (is_some c.chosen_remote) && is_some c.chosen_dir))
      && implies c.chosen_migrate_down (flow_allows (is_some c.chosen_remote) flow)

  remote_choice_valid :
      (r : Remote) (flow : Option DeploymentFlow) (t : Bool)
      → str_eq r.remote_name "" ≡ false
      → on_ok (choice_valid flow) (remote_choice pkg r flow t) ≡ true
  unfolding remote_choice remote_flow
  remote_choice_valid r none t named = ground arith
  remote_choice_valid r (some f) t named = ground arith

  dir_choice_valid :
      (flow : Option DeploymentFlow) (t : Bool) (files : Result TextMap)
      (latest : Result (Option pkg.Dir))
      → on_ok (choice_valid flow) (local_choice pkg flow t files latest) ≡ true
  unfolding local_choice local_flow
  dir_choice_valid none t files latest = ground arith
  dir_choice_valid (some f) t files latest = ground arith

  files_valid :
      (r : Reader) (ns name : String) (s : MigrationSpec) (local : Option TextMap)
      (ref : Option String)
      → on_ok (choice_valid s.migrate_down) (choose_files pkg r ns name s local ref) ≡ true
  unfolding choose_files choose_local
  files_valid r ns name s (some fs) ref =
      dir_choice_valid s.migrate_down _ (ok fs) (read_dir_state pkg r ns name)
  files_valid r ns name s none (some ref) =
      dir_choice_valid s.migrate_down _ (get_config_map r ns ref) (read_dir_state pkg r ns name)
  files_valid r ns name s none none = refl

  -- Where the switch on the directory succeeds, it has chosen either a remote directory with a name
  -- or a local directory, never both, and it lets the migration go down only if the flow allows it
  -- and is approved beforehand exactly where the directory is local.
  pub choose_dir-on_ok :
      (r : Reader) (ns name : String) (s : MigrationSpec) (has_config : Bool)
      → on_ok (choice_valid s.migrate_down) (choose_dir pkg r ns name s has_config) ≡ true
  unfolding choose_dir choose_remote
  choose_dir-on_ok r ns name s has_config = elim (Bool-cases (str_eq s.dir.remote.remote_name "")) [
    | inl unnamed ↦ rw unnamed (files_valid r ns name s s.dir.local s.dir.config_map_ref)
    | inr named ↦ rw named (remote_choice_valid s.dir.remote s.migrate_down _ named)
  ]
