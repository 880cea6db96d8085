-- ===== src/MigrationRun/Safety.antt =====
-- What the order of the commands rules out (internal/controller/atlasmigration_controller.go).
use atlas_operator.Prelude.{
  ◌≤◌, ◌≡◌, refl, inl, inr, Bool, true, false, List, Bool-cases, arith, if◌then◌else◌,
}
use atlas_operator.Conditions.{ConditionApi}
use atlas_operator.Errors.{Result, ok, err}
use atlas_operator.MigrationData.{Packages, MigrationData}
use atlas_operator.MigrationRun.{
  MigrationServices, MigrationResource, MigrationCli, MigrateStatus, Command, reconcile,
}
use atlas_operator.MigrationRun.Protocol.{
  Stage, Reached, deployments, downgraded, is_after, copied, nothing_yet, opens, connects, logs_in,
  identifies_guest, identifies_user, asks, asks_in_vain, spins_up, writes, writes_dev, copies,
  downgrades, downgrades_copied, applies, saves, saves_idle, replaces,
}
use atlas_operator.MigrationData.Extract.{implies}
use atlas_operator.MigrationRun.Deployments.{Follows, data_of, reconcile-Follows}

-- Before the stage of a deployment there is none, and from it on there is at most one.
Reached-deployments :
    {pkg : Packages} {d : MigrationData pkg} {client : MigrationCli → Type 0} {cs : List Command}
    {g : Stage}
    → Reached pkg d client cs g
    → deployments cs ≤ (if is_after g then 1 else 0)
Reached-deployments nothing_yet = omega arith
Reached-deployments (opens h) = Reached-deployments h
Reached-deployments (connects h) = Reached-deployments h
Reached-deployments (logs_in token e h) = Reached-deployments h
Reached-deployments (identifies_guest e h) = Reached-deployments h
Reached-deployments (identifies_user h) = Reached-deployments h
Reached-deployments (asks st a h) = Reached-deployments h
Reached-deployments (asks_in_vain h) = Reached-deployments h
Reached-deployments (spins_up url w h) = Reached-deployments h
Reached-deployments (writes w h) = Reached-deployments h
Reached-deployments (writes_dev h) = Reached-deployments h
Reached-deployments (copies dir a m h) = Reached-deployments h
Reached-deployments (downgrades p e a m l h) = let ih = Reached-deployments h in ground (arith, ih)
Reached-deployments (downgrades_copied p e l h) =
    let ih = Reached-deployments h in ground (arith, ih)
Reached-deployments (applies env e p h) = let ih = Reached-deployments h in ground (arith, ih)
Reached-deployments (saves secret h) = Reached-deployments h
Reached-deployments (saves_idle secret w h) = let ih = Reached-deployments h in ground (arith, ih)
Reached-deployments (replaces secret h) = Reached-deployments h

copied-permitted :
    {pkg : Packages} {d : MigrationData pkg} {client : MigrationCli → Type 0} {cs : List Command}
    {st : MigrateStatus}
    → Reached pkg d client cs (copied st)
    → d.data_migrate_down ≡ true
copied-permitted (copies dir a m h) = m

-- There is no downgrade without the permission.
Reached-permitted :
    {pkg : Packages} {d : MigrationData pkg} {client : MigrationCli → Type 0} {cs : List Command}
    {g : Stage}
    → Reached pkg d client cs g
    → downgraded cs ≡ true
    → d.data_migrate_down ≡ true
Reached-permitted nothing_yet t = absurd (ground arith)
Reached-permitted (copies dir a m h) t = m
Reached-permitted (downgrades p e a m l h) t = m
Reached-permitted (downgrades_copied p e l h) t = copied-permitted h
Reached-permitted (opens h) t = Reached-permitted h t
Reached-permitted (connects h) t = Reached-permitted h t
Reached-permitted (logs_in token e h) t = Reached-permitted h t
Reached-permitted (identifies_guest e h) t = Reached-permitted h t
Reached-permitted (identifies_user h) t = Reached-permitted h t
Reached-permitted (asks st a h) t = Reached-permitted h t
Reached-permitted (asks_in_vain h) t = Reached-permitted h t
Reached-permitted (spins_up url w h) t = Reached-permitted h t
Reached-permitted (writes w h) t = Reached-permitted h t
Reached-permitted (writes_dev h) t = Reached-permitted h t
Reached-permitted (applies env e p h) t = Reached-permitted h t
Reached-permitted (saves secret h) t = Reached-permitted h t
Reached-permitted (saves_idle secret w h) t = Reached-permitted h t
Reached-permitted (replaces secret h) t = Reached-permitted h t

module _ (api : ConditionApi) (pkg : Packages) (srv : MigrationServices pkg) where
  -- The data were read and permit a downgrade.
  abbrev pub may_downgrade : Result (MigrationData pkg) → Bool
  may_downgrade (err e) = false
  may_downgrade (ok d) = d.data_migrate_down

  at_most_once :
      (res : MigrationResource pkg srv) (r : Result (MigrationData pkg)) (cs : List Command)
      → Follows pkg srv res r cs
      → deployments cs ≤ 1
  at_most_once res (err e) cs h = rw h (omega arith)
  at_most_once res (ok d) cs (g, h) = let e = Reached-deployments h in ground arith

  permitted :
      (res : MigrationResource pkg srv) (r : Result (MigrationData pkg)) (cs : List Command)
      → Follows pkg srv res r cs
      → implies (downgraded cs) (may_downgrade r) ≡ true
  permitted res (err e) cs h = rw h refl
  permitted res (ok d) cs (g, h) = elim (Bool-cases (downgraded cs)) [
    | inl e ↦ let allowed = Reached-permitted h e in ground (arith, e, allowed)
    | inr e ↦ ground (arith, e)
  ]

  -- One reconciliation starts at most one run of `migrate apply` or `migrate down`, and it runs
  -- `migrate down` only where it has read data that permit it.
  pub reconcile-deployments :
      (res : MigrationResource pkg srv)
      → (deployments (reconcile api pkg srv res).0.commands ≤ 1)
        × (implies
              (downgraded (reconcile api pkg srv res).0.commands)
              (may_downgrade (data_of api pkg srv res))
            ≡ true)
  reconcile-deployments res =
      let h = reconcile-Follows api pkg srv res in
      (
        at_most_once res (data_of api pkg srv res) (reconcile api pkg srv res).0.commands h,
        permitted res (data_of api pkg srv res) (reconcile api pkg srv res).0.commands h,
      )
