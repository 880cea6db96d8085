-- ===== src/MigrationRun/Actions.antt =====
-- The steps of a run of a migration (internal/controller/atlasmigration_controller.go).
use atlas_operator.Actions.{State, Action}
use atlas_operator.MigrationStatus.{AtlasMigration}
use atlas_operator.MigrationRun.Resources.{Command}
pub use atlas_operator.Actions.{
  Flow, returns, fails, panics, resume, ◌>>=◌, ◌>>◌, return, panic, flow_of, lift, issue, change,
  record_all, caught, catch,
}

abbrev pub RunState : Type 0
RunState = State AtlasMigration Command

abbrev pub Step {ℓ κ} : Type ℓ → Type κ → Type (ℓ ⊔ κ)
Step E A = Action AtlasMigration Command E A
